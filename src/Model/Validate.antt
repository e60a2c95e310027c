-- ===== src/Model/Validate.antt =====
-- crates/oxide-ssh-core/src/model.rs: the `validate` methods, and the references to credentials.
-- The texts that std and the uuid crate make (lower case, the form of an address, the form of an
-- identifier) are a parameter.
use oxide_ssh.Prelude.{
  ℕ, Bool, true, false, not, ◌&&◌, ◌||◌, [], ◌∷◌, ◌++◌, Option, Result, ltb, leb, ◌==◌, length, any,
  fail_if, ◌>>◌,
}
use oxide_ssh.Model.Types.{
  Uuid, Text, Tag, CredentialRef, AuthConfig, private_key, ConnectionProfile, ProfileId,
}
use oxide_ssh.Model.Text.{trim, byte_len, is_ascii, is_ascii_whitespace}

-- `str::to_lowercase`; `str::parse::<IpAddr>` with the address put to text again; the text of a
-- UUID.
pub record Texts : Type 0 where
  pub to_lowercase : Text → Text
  pub parse_ip : Text → Option Text
  pub uuid_text : Uuid → Text

pub data TagValidationError : Type 0 where
  name : TagValidationError

pub data ProfileValidationError : Type 0 where
  name host username port private_key_path : ProfileValidationError

-- `(1..=last).contains(&n)`.
abbrev pub in_range : ℕ → ℕ → Bool
in_range last n = leb 1 n && leb n last

unfoldable pub validate_tag : Tag → Result TagValidationError (Unit {0})
validate_tag t = fail_if (not (in_range 32 (length (trim t.name)))) TagValidationError.name

-- The test on the bytes of a host, which `canonicalize_endpoint` repeats.
unfoldable pub bad_host : Text → Bool
bad_host s =
    byte_len s == 0
    || ltb 253 (byte_len s)
    || not (is_ascii s)
    || any (λ c. is_ascii_whitespace c || c == 0 || c == b'/' || c == b'\\') s

unfoldable pub bad_username : Text → Bool
bad_username s =
    byte_len s == 0 || ltb 255 (byte_len s) || any (λ c. c == 0 || c == 0x0d || c == 0x0a) s

-- A private key with an empty path.
abbrev pub lacks_path : AuthConfig → Bool
lacks_path (private_key [] reference) = true
lacks_path _ = false

unfoldable pub validate_profile : ConnectionProfile → Result ProfileValidationError (Unit {0})
validate_profile p = do
  fail_if (not (in_range 64 (length (trim p.name)))) ProfileValidationError.name
  fail_if (bad_host p.endpoint.host) ProfileValidationError.host
  fail_if (bad_username p.username) ProfileValidationError.username
  fail_if (p.endpoint.port == 0) ProfileValidationError.port
  fail_if (lacks_path p.auth) ProfileValidationError.private_key_path

-- "profile/", "/password" and "/private-key-passphrase".
abbrev profile_prefix : Text
profile_prefix = b'p' ∷ b'r' ∷ b'o' ∷ b'f' ∷ b'i' ∷ b'l' ∷ b'e' ∷ b'/' ∷ []

abbrev password_suffix : Text
password_suffix = b'/' ∷ b'p' ∷ b'a' ∷ b's' ∷ b's' ∷ b'w' ∷ b'o' ∷ b'r' ∷ b'd' ∷ []

abbrev passphrase_suffix : Text
passphrase_suffix =
    b'/' ∷ b'p' ∷ b'r' ∷ b'i' ∷ b'v' ∷ b'a' ∷ b't' ∷ b'e' ∷ b'-' ∷ b'k' ∷ b'e' ∷ b'y' ∷ b'-' ∷ b'p'
    ∷ b'a' ∷ b's' ∷ b's' ∷ b'p' ∷ b'h' ∷ b'r' ∷ b'a' ∷ b's' ∷ b'e' ∷ []

module _ ⦃texts : Texts⦄ where
  unfoldable pub password_ref : ProfileId → CredentialRef
  password_ref id = record { key = profile_prefix ++ texts.uuid_text id ++ password_suffix }

  unfoldable pub private_key_passphrase : ProfileId → CredentialRef
  private_key_passphrase id = record {
    key = profile_prefix ++ texts.uuid_text id ++ passphrase_suffix;
  }
