-- ===== src/Storage/Samples.antt =====
-- Parameters for tests: a format for files that has room for few contents, and a system on which
-- everything passes.
use oxide_ssh.Prelude.{
  ℕ, Bool, true, ◌&&◌, List, [], ◌∷◌, ◌++◌, Option, none, some, ◌==◌, if◌then◌else◌, Bool-cases,
  ◌≡◌, refl, sym, inl, inr, arith,
}
use oxide_ssh.Input.Keys.{Bytes}
use oxide_ssh.Model.Types.{
  Text, LocaleSetting, ThemeSetting, NewTabAction, add_connection, ConnectionProfile, Tag,
}
use oxide_ssh.Model.Text.{text_eq, eq_of_text_eq}
use oxide_ssh.Model.Validate.{Texts}
use oxide_ssh.Storage.Types.{AppConfig, KnownHosts, KnownHostEntry}
use oxide_ssh.Storage.Files.{Codec, Io}
use oxide_ssh.Storage.FileLaws.{IsFaithful}

instance unfoldable pub plain_texts : Texts
plain_texts = record { to_lowercase = λ s. s; parse_ip = λ s. none; uuid_text = λ id. id ∷ [] }

abbrev pub working : Io
working = record {
  exists_ok = true;
  read_ok = true;
  create_ok = true;
  replace_ok = true;
  sync_ok = true;
}

-- Configurations with nothing but a schema version.
abbrev pub bare : ℕ → AppConfig
bare v = record {
  schema_version = v;
  settings = record {
    locale = LocaleSetting.system;
    theme = ThemeSetting.system;
    new_tab_action = add_connection;
  };
  profiles = [];
  tags = [];
}

abbrev encode_parts :
    ℕ
    → LocaleSetting
    → ThemeSetting
    → NewTabAction
    → List ConnectionProfile
    → List Tag
    → Option Bytes
encode_parts v LocaleSetting.system ThemeSetting.system add_connection [] [] = some (v ∷ [])
encode_parts v l t n ps ts = none

abbrev decode_bare : Bytes → Option AppConfig
decode_bare (v ∷ b ∷ []) = some (bare v)
decode_bare _ = none

abbrev probe_first : Bytes → Option ℕ
probe_first (v ∷ bs) = some v
probe_first [] = none

instance unfoldable pub bare_codec : Codec AppConfig
bare_codec = record {
  probe = probe_first;
  decode = decode_bare;
  encode = λ c.
      encode_parts c.schema_version c.settings.locale c.settings.theme c.settings.new_tab_action
        c.profiles c.tags;
}

some_inj : {A : Type 0} {a b : A} → ◌≡◌ {A = Option A} (some a) (some b) → a ≡ b
some_inj h = cc

parts_back :
    (v : ℕ) (l : LocaleSetting) (t : ThemeSetting) (n : NewTabAction) (ps : List ConnectionProfile)
    (ts : List Tag) (bytes : Bytes)
    → encode_parts v l t n ps ts ≡ some bytes
    → decode_bare (bytes ++ 0x0a ∷ [])
      ≡ some (record {
        schema_version = v;
        settings = record { locale = l; theme = t; new_tab_action = n };
        profiles = ps;
        tags = ts;
      })
parts_back v LocaleSetting.system ThemeSetting.system add_connection [] [] bytes h =
    rw (sym (some_inj h)) refl
parts_back v l t n ps ts bytes h = cc

first_version :
    (a : AppConfig) (bytes : Bytes)
    → decode_bare bytes ≡ some a
    → probe_first bytes ≡ some a.schema_version
first_version a (v ∷ b ∷ []) h = ground arith
first_version a _ h = cc

pub bare-IsFaithful : IsFaithful bare_codec (λ c. c.schema_version)
unfolding bare_codec
bare-IsFaithful = record {
  reads_back = λ a bytes h.
      parts_back a.schema_version a.settings.locale a.settings.theme a.settings.new_tab_action
        a.profiles a.tags bytes h;
  probes = first_version;
}

-- Files that know one host.
abbrev pub host_a : KnownHostEntry
host_a = record {
  host = b'a' ∷ [];
  port = 22;
  algorithm = b'e' ∷ [];
  public_key = b'k' ∷ [];
  fingerprint_sha256 = b'f' ∷ [];
  accepted_at_unix = 7;
}

abbrev one_host : KnownHosts
one_host = record { schema_version = 1; hosts = host_a ∷ [] }

abbrev is_host_a : KnownHostEntry → Bool
is_host_a x =
    text_eq x.host host_a.host
    && x.port == 22
    && text_eq x.algorithm host_a.algorithm
    && text_eq x.public_key host_a.public_key
    && text_eq x.fingerprint_sha256 host_a.fingerprint_sha256
    && x.accepted_at_unix == 7

entry_eq :
    (x : KnownHostEntry) {h a k f : Text} {p t : ℕ}
    → x.host ≡ h
    → x.port ≡ p
    → x.algorithm ≡ a
    → x.public_key ≡ k
    → x.fingerprint_sha256 ≡ f
    → x.accepted_at_unix ≡ t
    → x ≡ record {
      host = h;
      port = p;
      algorithm = a;
      public_key = k;
      fingerprint_sha256 = f;
      accepted_at_unix = t;
    }
entry_eq x a b c d e f i = record {
  host = a i;
  port = b i;
  algorithm = c i;
  public_key = d i;
  fingerprint_sha256 = e i;
  accepted_at_unix = f i;
}

host_a_only : (x : KnownHostEntry) → is_host_a x ≡ true → x ≡ host_a
host_a_only x h =
    let a : x.host ≡ host_a.host = eq_of_text_eq x.host host_a.host (ground arith) in
    let b : x.port ≡ 22 = ground arith in
    let c : x.algorithm ≡ host_a.algorithm =
      eq_of_text_eq x.algorithm host_a.algorithm (ground arith) in
    let d : x.public_key ≡ host_a.public_key =
      eq_of_text_eq x.public_key host_a.public_key (ground arith) in
    let e : x.fingerprint_sha256 ≡ host_a.fingerprint_sha256 =
      eq_of_text_eq x.fingerprint_sha256 host_a.fingerprint_sha256 (ground arith) in
    let f : x.accepted_at_unix ≡ 7 = ground arith in entry_eq x a b c d e f

abbrev encode_hosts : ℕ → List KnownHostEntry → Option Bytes
encode_hosts v (x ∷ []) = if is_host_a x && v == 1 then some (v ∷ []) else none
encode_hosts v _ = none

abbrev decode_hosts : Bytes → Option KnownHosts
decode_hosts (v ∷ b ∷ []) = if v == 1 then some one_host else none
decode_hosts _ = none

instance unfoldable pub host_codec : Codec KnownHosts
host_codec = record {
  probe = probe_first;
  decode = decode_hosts;
  encode = λ k. encode_hosts k.schema_version k.hosts;
}

hosts_back :
    (v : ℕ) (xs : List KnownHostEntry) (bytes : Bytes)
    → encode_hosts v xs ≡ some bytes
    → decode_hosts (bytes ++ 0x0a ∷ []) ≡ some (record { schema_version = v; hosts = xs })
hosts_back v (x ∷ []) bytes h = elim (Bool-cases (is_host_a x && v == 1)) [
  | inr other ↦ ground arith
  | inl same ↦
      let e : x ≡ host_a = host_a_only x (ground arith) in
      let w : v ≡ 1 = ground arith in
      let k : bytes ≡ v ∷ [] = sym (some_inj (rw same at h)) in rw (k, w, e) refl
]
hosts_back v _ bytes h = cc

hosts_version :
    (a : KnownHosts) (bytes : Bytes)
    → decode_hosts bytes ≡ some a
    → probe_first bytes ≡ some a.schema_version
hosts_version a (v ∷ b ∷ []) h = elim (Bool-cases (v == 1)) [
  | inl one ↦
      let k : one_host ≡ a = some_inj (rw one at h) in
      let w : v ≡ 1 = ground arith in rw (sym k, w) refl
  | inr other ↦ ground arith
]
hosts_version a _ h = cc

pub hosts-IsFaithful : IsFaithful host_codec (λ k. k.schema_version)
unfolding host_codec
hosts-IsFaithful = record {
  reads_back = λ a bytes h. hosts_back a.schema_version a.hosts bytes h;
  probes = hosts_version;
}
