-- ===== src/Desktop/Form.antt =====
-- crates/oxide-ssh-desktop/src/state/connection_form.rs: `ConnectionForm` and `FormError`.
use oxide_ssh.Prelude.{
  ℕ, zero, suc, ◌+◌, ◌-◌, ◌*◌, ◌/◌, ◌%◌, Bool, true, false, not, ◌&&◌, List, [], ◌∷◌, Option, none,
  some, Result, ok, map_err, ok_or, ltb, leb, ◌==◌, if◌then◌else◌, is_some, ◌>>=◌, ◌>>◌,
}
use oxide_ssh.Model.Types.{Text, TagId, ProfileId, AuthConfig, CredentialRef, ConnectionProfile}
use oxide_ssh.Model.Text.{trim}
use oxide_ssh.Model.Validate.{ProfileValidationError, validate_profile}
use oxide_ssh.Credentials.Types.{SaveProfileRequest}

-- `u16::from_str`, with its optional plus sign.
abbrev pub is_digit : ℕ → Bool
is_digit c = leb b'0' c && leb c b'9'

abbrev pub parse_digits : ℕ → Text → Option ℕ
parse_digits value [] = some value
parse_digits value (c ∷ cs) =
    let rest = parse_digits (value * 10 + (c - b'0')) cs in
    if is_digit c && leb (value * 10 + (c - b'0')) 65535 then rest else none

abbrev pub parse_unsigned : Text → Option ℕ
parse_unsigned [] = none
parse_unsigned (c ∷ cs) = parse_digits 0 (c ∷ cs)

abbrev pub parse_u16 : Text → Option ℕ
parse_u16 [] = none
parse_u16 (c ∷ cs) = if c == b'+' then parse_unsigned cs else parse_digits 0 (c ∷ cs)

-- `to_string` on a number, the digits in front of a text; a number has fewer digits than the number
-- after it is large.
abbrev pub print_digits : ℕ → ℕ → Text → Text
print_digits zero n tail = tail
print_digits (suc fuel) n tail =
    let more = print_digits fuel (n / 10) ((b'0' + n % 10) ∷ tail) in
    if ltb n 10 then (b'0' + n) ∷ tail else more

unfoldable pub print_number : ℕ → Text
print_number n = print_digits (suc n) n []

pub data AuthMethod : Type 0 where
  password private_key agent : AuthMethod

pub record ConnectionForm : Type 0 where
  pub name : Text
  pub host : Text
  pub port : Text
  pub username : Text
  pub auth_method : AuthMethod
  pub private_key_path : Text
  pub secret : Text
  pub remember : Bool
  pub tag_ids : List TagId
  pub previous : Option ConnectionProfile
  pub profile_id : ProfileId

pub data FormError : Type 0 where
  name host username port private_key_path : FormError

-- `fresh` is the UUID of the new profile.
unfoldable pub new_form : ProfileId → ConnectionForm
new_form fresh = record {
  name = [];
  host = [];
  port = b'2' ∷ b'2' ∷ [];
  username = [];
  auth_method = AuthMethod.password;
  private_key_path = [];
  secret = [];
  remember = false;
  tag_ids = [];
  previous = none;
  profile_id = fresh;
}

-- The `match` of `edit`.
abbrev pub auth_fields : AuthConfig → AuthMethod × Text × Bool
auth_fields (AuthConfig.password reference) = (AuthMethod.password, [], is_some reference)
auth_fields (AuthConfig.private_key path reference) =
    (AuthMethod.private_key, path, is_some reference)
auth_fields AuthConfig.agent = (AuthMethod.agent, [], false)

unfoldable pub edit : ConnectionProfile → ConnectionForm
unfolding print_number
edit p = record {
  name = p.name;
  host = p.endpoint.host;
  port = print_number p.endpoint.port;
  username = p.username;
  auth_method = (auth_fields p.auth).0;
  private_key_path = (auth_fields p.auth).1;
  secret = [];
  remember = (auth_fields p.auth).2;
  tag_ids = p.tag_ids;
  previous = some p;
  profile_id = p.id;
}

-- `From<ProfileValidationError>`.
abbrev pub form_error : ProfileValidationError → FormError
form_error ProfileValidationError.name = FormError.name
form_error ProfileValidationError.host = FormError.host
form_error ProfileValidationError.username = FormError.username
form_error ProfileValidationError.port = FormError.port
form_error ProfileValidationError.private_key_path = FormError.private_key_path

abbrev pub password_ref_of : AuthConfig → Option CredentialRef
password_ref_of (AuthConfig.password reference) = reference
password_ref_of _ = none

abbrev pub passphrase_ref_of : AuthConfig → Option CredentialRef
passphrase_ref_of (AuthConfig.private_key path reference) = reference
passphrase_ref_of _ = none

abbrev pub previous_ref :
    (AuthConfig → Option CredentialRef) → Option ConnectionProfile → Option CredentialRef
previous_ref f none = none
previous_ref f (some p) = f p.auth

abbrev pub form_auth : AuthMethod → Text → Option ConnectionProfile → AuthConfig
form_auth AuthMethod.password path previous =
    AuthConfig.password (previous_ref password_ref_of previous)
form_auth AuthMethod.private_key path previous =
    AuthConfig.private_key path (previous_ref passphrase_ref_of previous)
form_auth AuthMethod.agent path previous = AuthConfig.agent

-- `.filter(|port| *port != 0)`.
abbrev pub nonzero : Option ℕ → Option ℕ
nonzero none = none
nonzero (some n) = if n == 0 then none else some n

abbrev pub is_agent_method : AuthMethod → Bool
is_agent_method AuthMethod.agent = true
is_agent_method _ = false

abbrev pub nonempty : Text → Option Text
nonempty [] = none
nonempty (c ∷ cs) = some (c ∷ cs)

abbrev pub form_profile : ConnectionForm → ℕ → ConnectionProfile
form_profile f number = record {
  id = f.profile_id;
  name = trim f.name;
  endpoint = record { host = trim f.host; port = number };
  username = trim f.username;
  auth = form_auth f.auth_method f.private_key_path f.previous;
  tag_ids = f.tag_ids;
}

unfoldable pub save_request : ConnectionForm → Result FormError SaveProfileRequest
save_request f = do
  number ← ok_or (nonzero (parse_u16 (trim f.port))) FormError.port
  map_err form_error (validate_profile (form_profile f number))
  ok (record {
    profile = form_profile f number;
    previous = f.previous;
    secret = nonempty f.secret;
    remember = f.remember && not (is_agent_method f.auth_method);
  })
