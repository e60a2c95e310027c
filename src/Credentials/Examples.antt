-- ===== src/Credentials/Examples.antt =====
-- The credential transactions at concrete profiles: tests and witnesses.
use oxide_ssh.Prelude.{
  true, false, [], ◌∷◌, Option, none, some, ok, err, ◌≡◌, refl, ap, find, All, not,
}
use oxide_ssh.Model.Types.{Text, CredentialRef, default_settings}
use oxide_ssh.Storage.Types.{io, default_config}
use oxide_ssh.Storage.Files.{Io, read_versioned, parse, atomic_write}
use oxide_ssh.Storage.Config.{
  validate_config, check_profile, check_profiles, check_refs, check_tags,
}
use oxide_ssh.Model.Validate.{
  validate_profile, bad_host, bad_username, password_ref, private_key_passphrase, validate_tag,
}
use oxide_ssh.Storage.Store.{update_config, load_config}
use oxide_ssh.Storage.Samples.{working, plain_texts}
use oxide_ssh.Storage.Types.{AppConfig}
use oxide_ssh.Credentials.Types.{
  expected_reference, set_credential_reference, CredentialStore, IsCredentialStore,
  SaveProfileRequest, SaveProfileOutcome, storage, rollback_failed, credential_reference,
}
use oxide_ssh.Credentials.Keyring.{
  get, put, delete, entry, map_keyring_error, system_credential_store,
}
use oxide_ssh.Credentials.KeyringLaws.{held_by, system_credential_store-IsCredentialStore}
use oxide_ssh.Credentials.Samples.{
  Drawer, drawer, drawer_held, drawer-IsKeyring, key_5, profile_5, saved_5, profile_codec,
  profile-IsFaithful,
}
use oxide_ssh.Credentials.Steps.{
  write_desired, remove_old, restore_deleted, rollback_written, undo, store_profile, drop_profile,
  delete_credential, has_profile_id, desired_reference, secret_left, reference_to_remove,
  saved_profile, connect_secret,
}
use oxide_ssh.Credentials.Coordinator.{
  save_checked, save_credentials, Stores, save_profile, delete_profile,
}
use oxide_ssh.Credentials.StepLaws.{Holds}
use oxide_ssh.Credentials.SaveLaws.{save_profile_fails}
use oxide_ssh.Credentials.Stored.{save_profile_lem}
use oxide_ssh.Credentials.DeleteLaws.{delete_profile_fails, delete_profile_lem}

instance unfoldable desk : CredentialStore Drawer
desk = system_credential_store

abbrev held : Drawer → CredentialRef → Option Text
held = held_by drawer_held

stored_anew : (put ⦃ring = drawer⦄ [] key_5 (b's' ∷ [])).1 ≡ ok tt
unfolding put drawer entry password_ref
stored_anew = refl

desk-IsCredentialStore : IsCredentialStore desk held
unfolding desk
desk-IsCredentialStore =
    system_credential_store-IsCredentialStore drawer drawer_held drawer-IsKeyring

-- An empty keyring beside no files, and a request to save a new profile with its password.
abbrev empty : Stores Drawer
empty = record { credential_store = []; app_store = record { config = none; known_hosts = none } }

abbrev request : SaveProfileRequest
request = record {
  profile = profile_5 none;
  previous = none;
  secret = some (b's' ∷ []);
  remember = true;
}

abbrev outcome : SaveProfileOutcome
outcome = record { profile = saved_5; connect_secret = none }

-- The same profile with its secret in the keyring and its entry in the file.
abbrev filled : Stores Drawer
filled = record {
  credential_store = (key_5.key, b's' ∷ []) ∷ [];
  app_store = record { config = some (1 ∷ 1 ∷ 0x0a ∷ []); known_hosts = none };
}

abbrev stuck : Io
stuck = record working { create_ok = false }

saves : (save_profile working empty request) ≡ (filled, ok outcome)
unfolding save_profile delete_profile save_checked save_credentials write_desired remove_old
    restore_deleted rollback_written undo store_profile drop_profile delete_credential
    expected_reference credential_reference set_credential_reference validate_profile bad_host
    bad_username desk system_credential_store get put delete entry map_keyring_error password_ref
    private_key_passphrase validate_tag drawer plain_texts profile_codec update_config
    read_versioned parse atomic_write validate_config check_profile check_profiles check_refs
    check_tags default_config default_settings
saves = refl

rolls_back : save_profile stuck empty request ≡ (empty, err (storage io))
unfolding save_profile delete_profile save_checked save_credentials write_desired remove_old
    restore_deleted rollback_written undo store_profile drop_profile delete_credential
    expected_reference credential_reference set_credential_reference validate_profile bad_host
    bad_username desk system_credential_store get put delete entry map_keyring_error password_ref
    private_key_passphrase validate_tag drawer plain_texts profile_codec update_config
    read_versioned parse atomic_write validate_config check_profile check_profiles check_refs
    check_tags default_config default_settings
rolls_back = refl

deletes : delete_profile working filled saved_5 ≡ (
  record {
    credential_store = [];
    app_store = record { config = some (1 ∷ 0x0a ∷ []); known_hosts = none };
  },
  ok tt,
)
unfolding save_profile delete_profile save_checked save_credentials write_desired remove_old
    restore_deleted rollback_written undo store_profile drop_profile delete_credential
    expected_reference credential_reference set_credential_reference validate_profile bad_host
    bad_username desk system_credential_store get put delete entry map_keyring_error password_ref
    private_key_passphrase validate_tag drawer plain_texts profile_codec update_config
    read_versioned parse atomic_write validate_config check_profile check_profiles check_refs
    check_tags default_config default_settings
deletes = refl

restores : (delete_profile stuck filled saved_5) ≡ (filled, err (storage io))
unfolding save_profile delete_profile save_checked save_credentials write_desired remove_old
    restore_deleted rollback_written undo store_profile drop_profile delete_credential
    expected_reference credential_reference set_credential_reference validate_profile bad_host
    bad_username desk system_credential_store get put delete entry map_keyring_error password_ref
    private_key_passphrase validate_tag drawer plain_texts profile_codec update_config
    read_versioned parse atomic_write validate_config check_profile check_profiles check_refs
    check_tags default_config default_settings
restores = refl

fails_plainly : ¬ (storage io ≡ rollback_failed)
fails_plainly h = cc

first_of : {A B : Type 0} {x : A × B} {a : A} {b : B} → x ≡ (a, b) → x.1 ≡ b
first_of h = ap (λ x. x.1) h

nothing_given_up : (o : CredentialRef) → ¬ (reference_to_remove request ≡ some o)
nothing_given_up o h = cc

save_profile_fails_example :
    ((q : CredentialRef)
      → held (save_profile stuck empty request).0.credential_store q
        ≡ held empty.credential_store q)
    × ((save_profile stuck empty request).0.app_store ≡ empty.app_store)
save_profile_fails_example =
    save_profile_fails held desk-IsCredentialStore profile-IsFaithful stuck empty request
      (storage io) refl (λ k o h e x. nothing_given_up o h) (first_of rolls_back) fails_plainly

save_profile_lem_example :
    let w' = (save_profile working empty request).0 in
    (c : AppConfig) × (load_config working w'.app_store ≡ ok c)
    × (find (has_profile_id 5) c.profiles ≡ some saved_5)
    × (outcome
        ≡ record { profile = saved_profile request; connect_secret = connect_secret request })
    × Holds held w'.credential_store (desired_reference request) (secret_left request)
    × ((o : CredentialRef)
        → reference_to_remove request ≡ some o
        → held w'.credential_store o ≡ none)
save_profile_lem_example =
    save_profile_lem held desk-IsCredentialStore profile-IsFaithful working working empty request
      outcome (first_of saves) refl

delete_profile_fails_example :
    held (delete_profile stuck filled saved_5).0.credential_store key_5
    ≡ held filled.credential_store key_5
delete_profile_fails_example =
    delete_profile_fails held desk-IsCredentialStore stuck filled saved_5 (storage io)
      (first_of restores) fails_plainly key_5

delete_profile_lem_example :
    let w' = (delete_profile working filled saved_5).0 in
    (c : AppConfig) × (load_config working w'.app_store ≡ ok c)
    × All (λ x. not (has_profile_id 5 x) ≡ true) c.profiles
    × ((o : CredentialRef)
        → credential_reference saved_5.auth ≡ some o
        → held w'.credential_store o ≡ none)
delete_profile_lem_example =
    delete_profile_lem held desk-IsCredentialStore profile-IsFaithful working working filled saved_5
      (first_of deletes) refl
