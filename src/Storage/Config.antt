-- ===== src/Storage/Config.antt =====
-- crates/oxide-ssh-core/src/storage.rs: `canonicalize_endpoint`, `validate_config` and
-- `prune_dangling_tag_refs`. A hash set is the list of what was inserted.
use oxide_ssh.Prelude.{
  Bool, false, not, List, [], ◌∷◌, Option, none, some, Result, ok, err, ◌==◌, if◌then◌else◌, any,
  map, retain, fail_if, map_err, ◌>>=◌, ◌>>◌,
}
use oxide_ssh.Model.Types.{
  Uuid, Text, Tag, TagId, ProfileId, CredentialRef, Endpoint, AuthConfig, password, private_key,
  agent, ConnectionProfile,
}
use oxide_ssh.Model.Text.{trim, text_eq, strip_prefix, strip_suffix, to_ascii_lowercase}
use oxide_ssh.Model.Validate.{
  Texts, bad_host, validate_tag, validate_profile, password_ref, private_key_passphrase,
}
use oxide_ssh.Storage.Types.{
  AppConfig, current_schema, StorageError, unsupported_schema, invalid_endpoint, duplicate_profile,
  duplicate_tag, duplicate_tag_name, unknown_tag_ref, invalid_credential_ref, invalid_profile,
  invalid_tag,
}

-- `set.contains(&id)`.
abbrev pub has_uuid : Uuid → List Uuid → Bool
has_uuid id seen = any (λ x. x == id) seen

abbrev pub has_text : Text → List Text → Bool
has_text s seen = any (λ x. text_eq x s) seen

-- `unwrap_or`.
abbrev pub unwrap_or : Option Text → Text → Text
unwrap_or none d = d
unwrap_or (some s) d = s

-- `strip_prefix('[').and_then(|host| host.strip_suffix(']'))`.
abbrev pub strip_brackets : Text → Option Text
strip_brackets s = elim (strip_prefix b'[' s) [ none ↦ none | some t ↦ strip_suffix b']' t ]

unfoldable pub unbracketed : Text → Text
unbracketed s = unwrap_or (strip_brackets s) s

-- The order of the arms in `validate_config`: `None` needs no test.
abbrev pub wrong_ref : Option CredentialRef → CredentialRef → Bool
wrong_ref none expected = false
wrong_ref (some r) expected = not (text_eq r.key expected.key)

-- The `for` loop over a profile's tags.
unfoldable pub check_refs : ProfileId → List TagId → List TagId → Result StorageError (Unit {0})
check_refs profile [] known = ok tt
check_refs profile (t ∷ ts) known =
    let rest = check_refs profile ts known in
    if not (has_uuid t known) then err (unknown_tag_ref profile t) else rest

-- The tags of a profile that are registered stay.
unfoldable pub prune_profile : List TagId → ConnectionProfile → ConnectionProfile
prune_profile valid p = record p { tag_ids = retain (λ id. has_uuid id valid) p.tag_ids }

unfoldable pub prune_dangling_tag_refs : AppConfig → AppConfig
unfolding prune_profile
prune_dangling_tag_refs c = record c {
  profiles = map (prune_profile (map (λ t. t.id) c.tags)) c.profiles;
}

module _ ⦃texts : Texts⦄ where
  -- The text of the address where the host is one, and else the host in ASCII lower case.
  abbrev pub canonical_host : Text → Text
  canonical_host s = unwrap_or (texts.parse_ip s) (to_ascii_lowercase s)

  unfoldable pub canonicalize_endpoint : Endpoint → Result StorageError Endpoint
  unfolding unbracketed
  canonicalize_endpoint e = do
    fail_if (e.port == 0) invalid_endpoint
    fail_if (bad_host (unbracketed e.host)) invalid_endpoint
    ok (record { host = canonical_host (unbracketed e.host); port = e.port })

  abbrev pub name_key : Tag → Text
  name_key t = texts.to_lowercase (trim t.name)

  -- The `for` loop over the tags; it ends with the identifiers that it has seen.
  unfoldable pub check_tags : List Tag → List TagId → List Text → Result StorageError (List TagId)
  check_tags [] ids names = ok ids
  check_tags (t ∷ ts) ids names = do
    fail_if (has_uuid t.id ids) (duplicate_tag t.id)
    map_err invalid_tag (validate_tag t)
    fail_if (has_text (name_key t) names) (duplicate_tag_name t.name)
    check_tags ts (t.id ∷ ids) (name_key t ∷ names)

  -- The `match` on the way to authenticate.
  abbrev pub has_wrong_ref : ProfileId → AuthConfig → Bool
  has_wrong_ref id (password reference) = wrong_ref reference (password_ref id)
  has_wrong_ref id (private_key path reference) = wrong_ref reference (private_key_passphrase id)
  has_wrong_ref id agent = false

  unfoldable pub check_profile : ConnectionProfile → List TagId → Result StorageError (Unit {0})
  unfolding check_refs
  check_profile p known = do
    check_refs p.id p.tag_ids known
    map_err invalid_profile (validate_profile p)
    fail_if (has_wrong_ref p.id p.auth) (invalid_credential_ref p.id)

  -- The `for` loop over the profiles.
  unfoldable pub check_profiles :
      List ConnectionProfile → List TagId → List ProfileId → Result StorageError (Unit {0})
  check_profiles [] known seen = ok tt
  check_profiles (p ∷ ps) known seen = do
    fail_if (has_uuid p.id seen) (duplicate_profile p.id)
    check_profile p known
    check_profiles ps known (p.id ∷ seen)

  unfoldable pub validate_config : AppConfig → Result StorageError (Unit {0})
  validate_config c = do
    fail_if (not (c.schema_version == current_schema)) (unsupported_schema c.schema_version)
    ids ← check_tags c.tags [] []
    check_profiles c.profiles ids []
