-- ===== src/Credentials/Steps.antt =====
-- crates/oxide-ssh-desktop/src/credentials.rs: what `ProfileCredentialCoordinator` does to the
-- credential store. Each step takes the state of the store and returns it as the step leaves it.
use oxide_ssh.Prelude.{
  Bool, true, false, not, ◌&&◌, List, [], ◌∷◌, ◌++◌, Option, none, some, Result, ok, err, ◌==◌,
  if◌then◌else◌, is_some_and, any, length, retain, update_first,
}
use oxide_ssh.Model.Types.{Text, CredentialRef, AuthConfig, agent, ConnectionProfile, ProfileId}
use oxide_ssh.Model.Validate.{Texts}
use oxide_ssh.Storage.Types.{AppConfig, StorageError}
use oxide_ssh.Credentials.Types.{
  CredentialError, CredentialStore, ref_eq, SaveProfileRequest, CredentialTransactionError,
  credential, missing_secret, rollback_failed, credential_reference, expected_reference,
  set_credential_reference,
}

-- A credential that was written or deleted, with the secret that stood there before.
abbrev pub Credential : Type 0
Credential = CredentialRef × Option Text

abbrev pub or_else {ℓ} : {A : Type ℓ} → Option A → Option A → Option A
or_else none b = b
or_else (some a) b = some a

abbrev pub auth_reference : Option ConnectionProfile → Option CredentialRef
auth_reference none = none
auth_reference (some p) = credential_reference p.auth

abbrev pub is_agent : AuthConfig → Bool
is_agent agent = true
is_agent _ = false

abbrev pub mismatched : SaveProfileRequest → Bool
mismatched r = is_some_and r.previous (λ p. not (p.id == r.profile.id))

abbrev pub takes_secret : SaveProfileRequest → Bool
takes_secret r = not r.remember && not (is_agent r.profile.auth)

abbrev pub connect_secret : SaveProfileRequest → Option Text
connect_secret r = if takes_secret r then r.secret else none

-- The secret that the request still has after that.
abbrev pub secret_left : SaveProfileRequest → Option Text
secret_left r = if takes_secret r then none else r.secret

abbrev pub retains : SaveProfileRequest → CredentialRef → Bool
retains r reference =
    is_some_and (or_else (credential_reference r.profile.auth) (auth_reference r.previous))
      (λ existing. ref_eq existing reference)

abbrev pub different : Option CredentialRef → Option CredentialRef → Option CredentialRef
different none desired = none
different (some old) none = some old
different (some old) (some new) = if ref_eq new old then none else some old

abbrev pub has_profile_id : ProfileId → ConnectionProfile → Bool
has_profile_id id p = p.id == id

-- The closure of `save_profile` on the configuration.
abbrev pub put_profile : ConnectionProfile → List ConnectionProfile → List ConnectionProfile
put_profile p profiles =
    if any (has_profile_id p.id) profiles
    then update_first (has_profile_id p.id) (λ old. p) profiles
    else profiles ++ p ∷ []

unfoldable pub store_profile : ConnectionProfile → AppConfig → AppConfig
store_profile p config = record config { profiles = put_profile p config.profiles }

-- The closure of `delete_profile`.
unfoldable pub drop_profile : ProfileId → AppConfig → AppConfig
drop_profile id config = record config {
  profiles = retain (λ p. not (has_profile_id id p)) config.profiles;
}

-- Whether the closure of `delete_profile` ran and removed a profile.
abbrev pub found_in : ProfileId → Result StorageError AppConfig → Bool
found_in id (err e) = false
found_in id (ok config) = not (length (drop_profile id config).profiles == length config.profiles)

module _ ⦃texts : Texts⦄ where
  abbrev pub desired_reference : SaveProfileRequest → Option CredentialRef
  desired_reference r = if r.remember then expected_reference r.profile.id r.profile.auth else none

  abbrev pub reference_to_remove : SaveProfileRequest → Option CredentialRef
  reference_to_remove r = different (auth_reference r.previous) (desired_reference r)

  abbrev pub saved_profile : SaveProfileRequest → ConnectionProfile
  saved_profile r = record r.profile {
    auth = set_credential_reference r.profile.auth (desired_reference r);
  }

module _ {K : Type 0} where
  -- `?` on a step's answer.
  abbrev pub onward :
      {A B : Type 0}
      → K × Result CredentialTransactionError A
      → (K → A → K × Result CredentialTransactionError B)
      → K × Result CredentialTransactionError B
  onward (k, ok a) f = f k a
  onward (k, err e) f = (k, err e)

  abbrev pub lifted :
      {A : Type 0} → K × Result CredentialError A → K × Result CredentialTransactionError A
  lifted (k, ok a) = (k, ok a)
  lifted (k, err e) = (k, err (credential e))

  abbrev pub succeeded : K × Result CredentialError (Unit {0}) → K × Bool
  succeeded (k, ok u) = (k, true)
  succeeded (k, err e) = (k, false)

  module _ ⦃keys : CredentialStore K⦄ where
    unfoldable pub rollback_written : K → Option Credential → K × Bool
    rollback_written k none = (k, true)
    rollback_written k (some (reference, some secret)) = succeeded (keys.put k reference secret)
    rollback_written k (some (reference, none)) = succeeded (keys.delete k reference)

    unfoldable pub restore_deleted : K → Option Credential → K × Bool
    restore_deleted k none = (k, true)
    restore_deleted k (some (reference, none)) = (k, true)
    restore_deleted k (some (reference, some secret)) = succeeded (keys.put k reference secret)

    abbrev pub put_done :
        CredentialRef
        → Option Text
        → K × Result CredentialError (Unit {0})
        → K × Result CredentialTransactionError (Option Credential)
    put_done reference previous (k, ok u) = (k, ok (some (reference, previous)))
    put_done reference previous (k, err e) = (k, err (credential e))

    abbrev pub put_read :
        CredentialRef
        → Text
        → K × Result CredentialError (Option Text)
        → K × Result CredentialTransactionError (Option Credential)
    put_read reference secret (k, ok previous) =
        put_done reference previous (keys.put k reference secret)
    put_read reference secret (k, err e) = (k, err (credential e))

    abbrev pub retained_read :
        K × Result CredentialError (Option Text)
        → K × Result CredentialTransactionError (Option Credential)
    retained_read (k, ok none) = (k, err missing_secret)
    retained_read (k, ok (some secret)) = (k, ok none)
    retained_read (k, err e) = (k, err (credential e))

    -- The block on `desired_reference`: the reference, and the secret that the request still has.
    unfoldable pub write_desired :
        SaveProfileRequest
        → K
        → Option CredentialRef
        → Option Text
        → K × Result CredentialTransactionError (Option Credential)
    write_desired r k none secret = (k, ok none)
    write_desired r k (some reference) (some secret) =
        put_read reference secret (keys.get k reference)
    write_desired r k (some reference) none =
        if not (retains r reference)
        then (k, err missing_secret)
        else retained_read (keys.get k reference)

    abbrev pub rolled_back :
        CredentialTransactionError
        → K × Bool
        → K × Result CredentialTransactionError (Option Credential)
    rolled_back e (k, true) = (k, err e)
    rolled_back e (k, false) = (k, err rollback_failed)

    abbrev pub delete_done :
        Option Credential
        → CredentialRef
        → Option Text
        → K × Result CredentialError (Unit {0})
        → K × Result CredentialTransactionError (Option Credential)
    delete_done written reference previous (k, ok u) = (k, ok (some (reference, previous)))
    delete_done written reference previous (k, err e) =
        rolled_back (credential e) (rollback_written k written)

    abbrev pub delete_previous :
        Option Credential
        → CredentialRef
        → K × Result CredentialError (Option Text)
        → K × Result CredentialTransactionError (Option Credential)
    delete_previous written reference (k, ok previous) =
        delete_done written reference previous (keys.delete k reference)
    delete_previous written reference (k, err e) = (k, err (credential e))

    -- The block on `reference_to_remove`.
    unfoldable pub remove_old :
        K
        → Option Credential
        → Option CredentialRef
        → K × Result CredentialTransactionError (Option Credential)
    remove_old k written none = (k, ok none)
    remove_old k written (some reference) = delete_previous written reference (keys.get k reference)

    -- Both restorations, whichever of them fails.
    unfoldable pub undo : K → Option Credential → Option Credential → K × Bool
    undo k deleted written =
        let (k1, restored_deleted) = restore_deleted k deleted in
        let (k2, restored_written) = rollback_written k1 written in
        (k2, restored_deleted && restored_written)

    -- `delete_profile` up to the update.
    unfoldable pub delete_credential :
        K → Option CredentialRef → K × Result CredentialTransactionError (Option Credential)
    delete_credential k none = (k, ok none)
    delete_credential k (some reference) = onward (lifted (keys.get k reference)) (λ k1 previous.
        onward (lifted (keys.delete k1 reference)) (λ k2 u. (k2, ok (some (reference, previous)))))
