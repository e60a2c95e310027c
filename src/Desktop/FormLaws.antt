-- ===== src/Desktop/FormLaws.antt =====
-- Editing a stored profile and saving it again without a change.
use oxide_ssh.Prelude.{
  ℕ, zero, suc, ◌+◌, ◌-◌, ◌*◌, ◌/◌, ◌%◌, ◌≤◌, ◌<◌, Bool, true, false, not, ◌&&◌, [], ◌∷◌, Option,
  none, some, Result, ok, fail_if, ltb, ◌==◌, is_some, ◌>>◌, All, Bool-cases, length, ◌≡◌, refl, ap,
  ◌∙◌, inl, inr, arith,
}
use oxide_ssh.Model.Types.{Text, AuthConfig, ConnectionProfile}
use oxide_ssh.Model.Text.{trim, trim_end, is_whitespace}
use oxide_ssh.Model.Validate.{
  ProfileValidationError, validate_profile, in_range, bad_host, bad_username, lacks_path,
}
use oxide_ssh.Credentials.Types.{credential_reference}
use oxide_ssh.Desktop.Form.{
  is_digit, parse_digits, parse_u16, print_digits, print_number, edit, auth_fields, form_auth,
  is_agent_method, save_request, form_profile,
}

digit_fits :
    (value c : ℕ) (cs : Text)
    → is_digit c ≡ true
    → value * 10 + (c - b'0') ≤ 65535
    → parse_digits value (c ∷ cs) ≡ parse_digits (value * 10 + (c - b'0')) cs
digit_fits value c cs d h = ground arith

small_digit : (n : ℕ) → n < 10 → is_digit (b'0' + n) ≡ true
small_digit n h = ground arith

parse_print :
    (fuel n : ℕ) (tail : Text)
    → n < fuel
    → n ≤ 65535
    → parse_digits 0 (print_digits fuel n tail) ≡ parse_digits n tail
parse_print zero n tail h k = absurd (omega arith)
parse_print (suc fuel) n tail h k = elim (Bool-cases (ltb n 10)) [
  | inl small ↦
      let lt : n < 10 = ground arith in
      let value : 0 * 10 + (b'0' + n - b'0') ≡ n = omega arith in
      rw small (
        digit_fits 0 (b'0' + n) tail (small_digit n lt) (omega arith)
        ∙ ap (λ v. parse_digits v tail) value)
  | inr large ↦
      let ge : 10 ≤ n = ground arith in
      let last = b'0' + n % 10 in
      let value : n / 10 * 10 + (last - b'0') ≡ n = omega arith in
      rw large (
        parse_print fuel (n / 10) (last ∷ tail) (omega arith) (omega arith)
        ∙ digit_fits (n / 10) last tail (small_digit (n % 10) (omega arith)) (omega arith)
        ∙ ap (λ v. parse_digits v tail) value)
]

All-print :
    (fuel n : ℕ) (tail : Text)
    → All (λ c. is_digit c ≡ true) tail
    → All (λ c. is_digit c ≡ true) (print_digits fuel n tail)
All-print zero n tail h = h
All-print (suc fuel) n tail h = elim (Bool-cases (ltb n 10)) [
  | inl small ↦ let lt : n < 10 = ground arith in rw small (small_digit n lt, h)
  | inr large ↦
      rw large
        (All-print fuel (n / 10) ((b'0' + n % 10) ∷ tail) (small_digit (n % 10) (omega arith), h))
]

digit_is_dark : (c : ℕ) → is_digit c ≡ true → is_whitespace c ≡ false
digit_is_dark c h = ground arith

trim_end-digits : (s : Text) → All (λ c. is_digit c ≡ true) s → trim_end s ≡ s
trim_end-digits [] h = refl
trim_end-digits (c ∷ cs) h = rw (digit_is_dark c h.0) (ap (◌∷◌ c) (trim_end-digits cs h.1))

trim-digits : (s : Text) → All (λ c. is_digit c ≡ true) s → trim s ≡ s
trim-digits [] h = refl
trim-digits (c ∷ cs) h = rw (digit_is_dark c h.0) (trim_end-digits (c ∷ cs) h)

-- Digits that stand for a number other than 0 are read with no sign in front.
unsigned : (s : Text) (n : ℕ) → parse_digits 0 s ≡ some n → 0 < n → parse_u16 s ≡ some n
unsigned [] n h k = let zero_is : 0 ≡ n = some_inj h in absurd (omega (arith, zero_is))
  where
    some_inj : {a b : ℕ} → ◌≡◌ {A = Option ℕ} (some a) (some b) → a ≡ b
    some_inj h = cc
unsigned (c ∷ cs) n h k = elim (Bool-cases (c == b'+')) [
  | inl sign ↦ ground (arith, h)
  | inr digit ↦ rw digit h
]

port_read : (n : ℕ) → 0 < n → n ≤ 65535 → parse_u16 (trim (print_number n)) ≡ some n
unfolding print_number
port_read n h k =
    ap parse_u16 (trim-digits (print_digits (suc n) n []) (All-print (suc n) n [] tt))
    ∙ unsigned (print_digits (suc n) n []) n (parse_print (suc n) n [] (omega arith) k) h

auth_kept :
    (p : ConnectionProfile) (auth : AuthConfig)
    → p.auth ≡ auth
    → form_auth (auth_fields auth).0 (auth_fields auth).1 (some p) ≡ auth
auth_kept p (AuthConfig.password reference) h = rw h refl
auth_kept p (AuthConfig.private_key path reference) h = rw h refl
auth_kept p AuthConfig.agent h = refl

remembered :
    (auth : AuthConfig)
    → ((auth_fields auth).2 && not (is_agent_method (auth_fields auth).0))
      ≡ is_some (credential_reference auth)
unfolding credential_reference
remembered (AuthConfig.password none) = refl
remembered (AuthConfig.password (some r)) = refl
remembered (AuthConfig.private_key path none) = refl
remembered (AuthConfig.private_key path (some r)) = refl
remembered AuthConfig.agent = refl

fourth_test :
    {E : Type 0} (a b c d : Bool) (e f g h : E) (k : Result E (Unit {0}))
    → (fail_if a e >> (fail_if b f >> (fail_if c g >> (fail_if d h >> k)))) ≡ ok tt
    → d ≡ false
fourth_test a b c false e f g h k won = refl
fourth_test true b c true e f g h k won = cc
fourth_test false true c true e f g h k won = cc
fourth_test false false true true e f g h k won = cc
fourth_test false false false true e f g h k won = cc

port_is_set : (p : ConnectionProfile) → validate_profile p ≡ ok tt → 0 < p.endpoint.port
unfolding validate_profile
port_is_set p h =
    let e : (p.endpoint.port == 0) ≡ false =
      fourth_test (not (in_range 64 (length (trim p.name)))) (bad_host p.endpoint.host)
        (bad_username p.username) (p.endpoint.port == 0) ProfileValidationError.name
        ProfileValidationError.host ProfileValidationError.username ProfileValidationError.port
        (fail_if (lacks_path p.auth) ProfileValidationError.private_key_path) h in
    ground arith

-- No text of the profile has white space around it.
pub record IsTrimmed (p : ConnectionProfile) : Type 0 where
  pub name_trimmed : trim p.name ≡ p.name
  pub host_trimmed : trim p.endpoint.host ≡ p.endpoint.host
  pub username_trimmed : trim p.username ≡ p.username

profile_kept : (p : ConnectionProfile) → IsTrimmed p → form_profile (edit p) p.endpoint.port ≡ p
unfolding edit
profile_kept p t i = record {
  id = p.id;
  name = t.name_trimmed i;
  endpoint = record { host = t.host_trimmed i; port = p.endpoint.port };
  username = t.username_trimmed i;
  auth = auth_kept p p.auth refl i;
  tag_ids = p.tag_ids;
}

-- A stored profile that is edited and saved without a change comes back as it was: its port is printed
-- and read, its texts are trimmed, and its reference to a credential is found in the profile before.
-- The request remembers a credential exactly if the profile has one, and brings no secret. The
-- profile is valid, its texts have no white space around them, and its port is a u16.
pub save_request-edit :
    (p : ConnectionProfile)
    → validate_profile p ≡ ok tt
    → IsTrimmed p
    → p.endpoint.port ≤ 65535
    → save_request (edit p)
      ≡ ok (record {
        profile = p;
        previous = some p;
        secret = none;
        remember = is_some (credential_reference p.auth);
      })
unfolding save_request edit
save_request-edit p valid trimmed bound =
    let n = p.endpoint.port in
    let set = port_is_set p valid in
    let nonzero_port : (n == 0) ≡ false = ground (arith, set) in
    rw (port_read n set bound, nonzero_port, profile_kept p trimmed, valid, remembered p.auth) refl
