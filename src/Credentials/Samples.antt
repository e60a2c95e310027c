-- ===== src/Credentials/Samples.antt =====
-- Parameters for tests: a keyring that never fails, and a format for files that has room for one
-- profile.
use oxide_ssh.Prelude.{
  ℕ, Bool, true, false, ◌&&◌, List, [], ◌∷◌, ◌++◌, Option, none, some, ok, err, ok_or, ◌==◌,
  if◌then◌else◌, Bool-cases, ◌≡◌, refl, inl, inr, arith,
}
use oxide_ssh.Input.Keys.{Bytes}
use oxide_ssh.Model.Types.{
  Text, LocaleSetting, ThemeSetting, NewTabAction, add_connection, ConnectionProfile, Tag,
  CredentialRef, AuthConfig, password, private_key, agent,
}
use oxide_ssh.Model.Text.{text_eq, eq_of_text_eq, text_eq_refl}
use oxide_ssh.Model.Validate.{password_ref}
use oxide_ssh.Storage.Types.{AppConfig}
use oxide_ssh.Storage.Files.{Codec}
use oxide_ssh.Storage.FileLaws.{IsFaithful}
use oxide_ssh.Storage.Samples.{plain_texts, bare}
use oxide_ssh.Credentials.Keyring.{Keyring, no_entry}
use oxide_ssh.Credentials.KeyringLaws.{IsKeyring}
use oxide_ssh.Credentials.KeyringReads.{ReadsBack}

abbrev pub Drawer : Type 0
Drawer = List (Text × Text)

abbrev pub lookup : Drawer → Text → Option Text
lookup [] u = none
lookup ((v, p) ∷ rest) u = if text_eq v u then some p else lookup rest u

abbrev without : Drawer → Text → Drawer
without [] u = []
without ((v, p) ∷ rest) u = if text_eq v u then without rest u else (v, p) ∷ without rest u

instance unfoldable pub drawer : Keyring Drawer
drawer = record {
  new_entry = λ s u. ok tt;
  get_password = λ k s u. (k, ok_or (lookup k u) no_entry);
  set_password = λ k s u p. ((u, p) ∷ k, ok tt);
  delete_credential = λ k s u. (without k u, ok tt);
}

abbrev pub drawer_held : Drawer → Text → Text → Option Text
drawer_held k s u = lookup k u

lookup-without : (k : Drawer) (u : Text) → lookup (without k u) u ≡ none
lookup-without [] u = refl
lookup-without ((v, p) ∷ rest) u = elim (Bool-cases (text_eq v u)) [
  | inl here ↦ rw here (lookup-without rest u)
  | inr there ↦ rw there (rw there (lookup-without rest u))
]

keys_agree : (v u w : Text) → text_eq v u ≡ true → text_eq u w ≡ false → text_eq v w ≡ false
keys_agree v u w same other = rw (eq_of_text_eq v u same) other

lookup-without_other :
    (k : Drawer) (u w : Text) → text_eq u w ≡ false → lookup (without k u) w ≡ lookup k w
lookup-without_other [] u w other = refl
lookup-without_other ((v, p) ∷ rest) u w other = elim (Bool-cases (text_eq v u)) [
  | inl here ↦ rw (here, keys_agree v u w here other) (lookup-without_other rest u w other)
  | inr there ↦ rw (there, lookup-without_other rest u w other) refl
]

found : (o : Option Text) (p : Text) → ok_or o no_entry ≡ ok p → o ≡ some p
found none p h = cc
found (some q) p h = cc

missed : (o : Option Text) → ok_or o no_entry ≡ err no_entry → o ≡ none
missed none h = refl
missed (some q) h = cc

pub drawer-IsKeyring : IsKeyring drawer drawer_held
unfolding drawer
drawer-IsKeyring = record {
  get_keeps = λ k s u t v. refl;
  get_reads = λ k s u p h. found (lookup k u) p h;
  get_misses = λ k s u h. missed (lookup k u) h;
  set_writes = λ k s u p h. rw (text_eq_refl u) refl;
  set_others = λ k s u v p other. rw other refl;
  set_fails = λ k s u t v p e h. cc;
  delete_removes = λ k s u h. lookup-without k u;
  delete_misses = λ k s u h. lookup-without k u;
  delete_others = λ k s u v other. lookup-without_other k u v other;
  delete_fails = λ k s u t v e h. cc;
}

pub drawer-ReadsBack : ReadsBack drawer
unfolding drawer
drawer-ReadsBack = record {
  set_get = λ k s u p h. rw (text_eq_refl u) refl;
  delete_get = λ k s u h. rw (lookup-without k u) refl;
  missed_get = λ k s u h. rw (lookup-without k u) refl;
}

abbrev pub key_5 : CredentialRef
key_5 = password_ref 5

abbrev pub profile_5 : Option CredentialRef → ConnectionProfile
profile_5 reference = record {
  id = 5;
  name = b'n' ∷ [];
  endpoint = record { host = b'h' ∷ []; port = 22 };
  username = b'u' ∷ [];
  auth = password reference;
  tag_ids = [];
}

abbrev pub saved_5 : ConnectionProfile
saved_5 = profile_5 (some key_5)

abbrev is_key_5 : AuthConfig → Bool
is_key_5 (password (some r)) = text_eq r.key key_5.key
is_key_5 _ = false

abbrev is_untagged : List ℕ → Bool
is_untagged [] = true
is_untagged (t ∷ ts) = false

abbrev is_saved_5 : ConnectionProfile → Bool
is_saved_5 p =
    p.id == 5
    && text_eq p.name (b'n' ∷ [])
    && text_eq p.endpoint.host (b'h' ∷ [])
    && p.endpoint.port == 22
    && text_eq p.username (b'u' ∷ [])
    && is_key_5 p.auth
    && is_untagged p.tag_ids

eq_of_is_key_5 : (a : AuthConfig) → is_key_5 a ≡ true → a ≡ password (some key_5)
eq_of_is_key_5 (password (some r)) h =
    let e : r.key ≡ key_5.key = eq_of_text_eq r.key key_5.key h in rw e refl
eq_of_is_key_5 (password none) h = cc
eq_of_is_key_5 (private_key path r) h = cc
eq_of_is_key_5 agent h = cc

eq_of_is_untagged : (ts : List ℕ) → is_untagged ts ≡ true → ts ≡ []
eq_of_is_untagged [] h = refl
eq_of_is_untagged (t ∷ ts) h = cc

profile_eq :
    (x : ConnectionProfile) {i q : ℕ} {n h u : Text} {a : AuthConfig} {ts : List ℕ}
    → x.id ≡ i
    → x.name ≡ n
    → x.endpoint.host ≡ h
    → x.endpoint.port ≡ q
    → x.username ≡ u
    → x.auth ≡ a
    → x.tag_ids ≡ ts
    → x ≡ record {
      id = i;
      name = n;
      endpoint = record { host = h; port = q };
      username = u;
      auth = a;
      tag_ids = ts;
    }
profile_eq x a b c d e f g i = record {
  id = a i;
  name = b i;
  endpoint = record { host = c i; port = d i };
  username = e i;
  auth = f i;
  tag_ids = g i;
}

eq_of_is_saved_5 : (p : ConnectionProfile) → is_saved_5 p ≡ true → p ≡ saved_5
eq_of_is_saved_5 p h =
    profile_eq p (ground arith) (eq_of_text_eq p.name (b'n' ∷ []) (ground arith))
      (eq_of_text_eq p.endpoint.host (b'h' ∷ []) (ground arith)) (ground arith)
      (eq_of_text_eq p.username (b'u' ∷ []) (ground arith)) (eq_of_is_key_5 p.auth (ground arith))
      (eq_of_is_untagged p.tag_ids (ground arith))

-- Configurations with nothing but a schema version and at most that profile.
abbrev encode_profiles : ℕ → List ConnectionProfile → Option Bytes
encode_profiles v [] = some (v ∷ [])
encode_profiles v (p ∷ []) = if is_saved_5 p then some (v ∷ 1 ∷ []) else none
encode_profiles v _ = none

abbrev encode_parts :
    ℕ
    → LocaleSetting
    → ThemeSetting
    → NewTabAction
    → List ConnectionProfile
    → List Tag
    → Option Bytes
encode_parts v LocaleSetting.system ThemeSetting.system add_connection ps [] = encode_profiles v ps
encode_parts v l t n ps ts = none

abbrev pub with_5 : ℕ → AppConfig
with_5 v = record (bare v) { profiles = saved_5 ∷ [] }

abbrev decode_profiles : Bytes → Option AppConfig
decode_profiles (v ∷ b ∷ []) = some (bare v)
decode_profiles (v ∷ a ∷ b ∷ []) = some (with_5 v)
decode_profiles _ = none

abbrev probe_first : Bytes → Option ℕ
probe_first (v ∷ bs) = some v
probe_first [] = none

instance unfoldable pub profile_codec : Codec AppConfig
profile_codec = record {
  probe = probe_first;
  decode = decode_profiles;
  encode = λ c.
      encode_parts c.schema_version c.settings.locale c.settings.theme c.settings.new_tab_action
        c.profiles c.tags;
}

some_inj : {A : Type 0} {a b : A} → ◌≡◌ {A = Option A} (some a) (some b) → b ≡ a
some_inj h = cc

profiles_back :
    (v : ℕ) (ps : List ConnectionProfile) (bytes : Bytes)
    → encode_profiles v ps ≡ some bytes
    → decode_profiles (bytes ++ 0x0a ∷ []) ≡ some (record (bare v) { profiles = ps })
profiles_back v [] bytes h = rw (some_inj h) refl
profiles_back v (p ∷ []) bytes h = elim (Bool-cases (is_saved_5 p)) [
  | inr other ↦ ground arith
  | inl same ↦
      let k : bytes ≡ v ∷ 1 ∷ [] = some_inj (rw same at h) in
      let e : p ≡ saved_5 = eq_of_is_saved_5 p same in rw (k, e) refl
]
profiles_back v _ bytes h = cc

parts_back :
    (v : ℕ) (l : LocaleSetting) (t : ThemeSetting) (n : NewTabAction) (ps : List ConnectionProfile)
    (ts : List Tag) (bytes : Bytes)
    → encode_parts v l t n ps ts ≡ some bytes
    → decode_profiles (bytes ++ 0x0a ∷ [])
      ≡ some (record {
        schema_version = v;
        settings = record { locale = l; theme = t; new_tab_action = n };
        profiles = ps;
        tags = ts;
      })
parts_back v LocaleSetting.system ThemeSetting.system add_connection ps [] bytes h =
    profiles_back v ps bytes h
parts_back v l t n ps ts bytes h = cc

first_version :
    (a : AppConfig) (bytes : Bytes)
    → decode_profiles bytes ≡ some a
    → probe_first bytes ≡ some a.schema_version
first_version a (v ∷ b ∷ []) h = ground arith
first_version a (v ∷ b ∷ c ∷ []) h = ground arith
first_version a _ h = cc

pub profile-IsFaithful : IsFaithful profile_codec (λ c. c.schema_version)
unfolding profile_codec
profile-IsFaithful = record {
  reads_back = λ a bytes h.
      parts_back a.schema_version a.settings.locale a.settings.theme a.settings.new_tab_action
        a.profiles a.tags bytes h;
  probes = first_version;
}
