-- ===== src/Storage/Examples.antt =====
-- Runs of the store at concrete inputs.
use oxide_ssh.Prelude.{true, false, [], ◌∷◌, none, some, ok, err, ◌≡◌, refl, ◌⊎◌, fail_if, ◌↔◌}
use oxide_ssh.Model.Validate.{Texts}
use oxide_ssh.Storage.Types.{
  AppConfig, default_config, KnownHosts, KnownHostEntry, endpoint_of, StorageError, io,
}
use oxide_ssh.Storage.Config.{validate_config}
use oxide_ssh.Storage.Files.{Codec, Io, read_versioned}
use oxide_ssh.Storage.Store.{
  AppStore, load_config, save_config, update_config, known_host, accept_host_key, same_key,
}
use oxide_ssh.Storage.ConfigLaws.{IsSound, validate_config-IsSound}
use oxide_ssh.Storage.StoreLaws.{update_config-cases, load_config-save_config}
use oxide_ssh.Storage.TrustLaws.{known_host-accept_host_key}
use oxide_ssh.Storage.Samples.{
  plain_texts, working, bare, bare_codec, bare-IsFaithful, host_a, host_codec, hosts-IsFaithful,
}

abbrev fresh : AppStore
fresh = record { config = none; known_hosts = none }

-- The same host with another key.
abbrev other_key : KnownHostEntry
other_key = record host_a { public_key = b'z' ∷ [] }

accepted : (accept_host_key working fresh host_a).1 ≡ ok tt
unfolding accept_host_key read_versioned oxide_ssh.Storage.Config.canonicalize_endpoint
    oxide_ssh.Model.Validate.bad_host oxide_ssh.Storage.Store.accept_entry
    oxide_ssh.Storage.Types.default_known_hosts oxide_ssh.Storage.Files.atomic_write host_codec
    plain_texts
accepted = refl

conflicting :
    (accept_host_key working (accept_host_key working fresh host_a).0 other_key).1
    ≡ err StorageError.host_key_conflict
unfolding accept_host_key read_versioned oxide_ssh.Storage.Config.canonicalize_endpoint
    oxide_ssh.Model.Validate.bad_host oxide_ssh.Storage.Store.accept_entry
    oxide_ssh.Storage.Types.default_known_hosts oxide_ssh.Storage.Files.atomic_write host_codec
    plain_texts
conflicting = refl

abbrev knowing : AppStore
knowing = record { config = none; known_hosts = some (1 ∷ 0x0a ∷ []) }

known : known_host working knowing (endpoint_of host_a) ≡ ok (some host_a)
unfolding known_host oxide_ssh.Storage.Config.canonicalize_endpoint
    oxide_ssh.Model.Validate.bad_host read_versioned host_codec plain_texts
known = refl

known_host-accept_host_key_example :
    known_host working (accept_host_key working knowing other_key).0 (endpoint_of host_a)
    ≡ ok (some host_a)
known_host-accept_host_key_example =
    known_host-accept_host_key hosts-IsFaithful working working working knowing other_key
      (endpoint_of host_a) known refl

saved : (save_config working fresh (bare 1)).1 ≡ ok tt
unfolding save_config oxide_ssh.Storage.Files.guard_existing validate_config
    oxide_ssh.Storage.Config.check_tags oxide_ssh.Storage.Config.check_profiles
    oxide_ssh.Storage.Files.atomic_write bare_codec
saved = refl

load_config-save_config_example :
    load_config working (save_config working fresh (bare 1)).0 ≡ ok (bare 1)
load_config-save_config_example =
    load_config-save_config bare-IsFaithful working working fresh (bare 1) saved refl

loads : load_config working (record fresh { config = some (1 ∷ 0x0a ∷ []) }) ≡ ok (bare 1)
unfolding load_config read_versioned bare_codec validate_config
    oxide_ssh.Storage.Config.prune_dangling_tag_refs oxide_ssh.Storage.Config.check_tags
    oxide_ssh.Storage.Config.check_profiles
loads = refl

validate_config-IsSound_example : (validate_config (bare 1) ≡ ok tt) ↔ IsSound (bare 1)
validate_config-IsSound_example = validate_config-IsSound (bare 1)

update_config-cases_example :
    let (after, answer) = update_config working fresh (λ c. bare 1) in
    ((after ≡ fresh) × (e : StorageError) × (answer ≡ err e))
    ⊎ ((raw : AppConfig) × (read_versioned working fresh.config default_config ≡ ok raw)
        × ((next : Io) → next.read_ok ≡ true → load_config next after ≡ ok (bare 1))
        × (answer ≡ fail_if false io))
update_config-cases_example = update_config-cases bare-IsFaithful working fresh (λ c. bare 1)
