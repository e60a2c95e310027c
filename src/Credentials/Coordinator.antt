-- ===== src/Credentials/Coordinator.antt =====
-- crates/oxide-ssh-desktop/src/credentials.rs: `ProfileCredentialCoordinator`. Each function takes the
-- states of the credential store and of the files and returns them as the call leaves them.
use oxide_ssh.Prelude.{Bool, true, false, not, Option, Result, ok, err, if◌then◌else◌}
use oxide_ssh.Model.Types.{ConnectionProfile}
use oxide_ssh.Model.Validate.{Texts, ProfileValidationError, validate_profile}
use oxide_ssh.Storage.Types.{AppConfig, StorageError, default_config}
use oxide_ssh.Storage.Files.{Codec, Io, read_versioned}
use oxide_ssh.Storage.Store.{AppStore, update_config}
use oxide_ssh.Credentials.Types.{
  CredentialStore, SaveProfileRequest, SaveProfileOutcome, CredentialTransactionError, storage,
  invalid_profile, profile_mismatch, profile_not_found, rollback_failed, credential_reference,
}
use oxide_ssh.Credentials.Steps.{
  Credential, saved_profile, desired_reference, secret_left, connect_secret, reference_to_remove,
  mismatched, store_profile, drop_profile, found_in, onward, write_desired, remove_old, undo,
  restore_deleted, delete_credential,
}

-- The two stores of the coordinator.
pub record Stores (K : Type 0) : Type 0 where
  pub credential_store : K
  pub app_store : AppStore

module _ {K : Type 0} ⦃keys : CredentialStore K⦄ where
  abbrev pub undone :
      {A : Type 0}
      → AppStore
      → CredentialTransactionError
      → K × Bool
      → Stores K × Result CredentialTransactionError A
  undone s e (k, true) = (record { credential_store = k; app_store = s }, err e)
  undone s e (k, false) = (record { credential_store = k; app_store = s }, err rollback_failed)

  -- The answer to `update_config`, with what is undone when it failed.
  abbrev pub committed :
      {A : Type 0}
      → K
      → Option Credential
      → Option Credential
      → A
      → AppStore × Result StorageError (Unit {0})
      → Stores K × Result CredentialTransactionError A
  committed k deleted written outcome (s, ok u) =
      (record { credential_store = k; app_store = s }, ok outcome)
  committed k deleted written outcome (s, err e) = undone s (storage e) (undo k deleted written)

  -- The credentials' part of a transaction, in front of the update.
  abbrev pub prepared :
      {A B : Type 0}
      → AppStore
      → K × Result CredentialTransactionError A
      → (K → A → Stores K × Result CredentialTransactionError B)
      → Stores K × Result CredentialTransactionError B
  prepared s (k, ok a) f = f k a
  prepared s (k, err e) f = (record { credential_store = k; app_store = s }, err e)

  module _ ⦃texts : Texts⦄ where
    -- The function from the first access to the credential store on.
    unfoldable pub save_credentials :
        K
        → SaveProfileRequest
        → K × Result CredentialTransactionError (Option Credential × Option Credential)
    save_credentials k r =
        onward (write_desired r k (desired_reference r) (secret_left r)) (λ k1 written.
          onward (remove_old k1 written (reference_to_remove r))
            (λ k2 deleted. (k2, ok (written, deleted))))

  module _ ⦃texts : Texts⦄ ⦃configs : Codec AppConfig⦄ where
    unfoldable pub save_checked :
        Io
        → Stores K
        → SaveProfileRequest
        → Stores K × Result CredentialTransactionError SaveProfileOutcome
    save_checked sys w r =
        prepared w.app_store (save_credentials w.credential_store r) (λ k changed.
          committed k changed.1 changed.0
            (record { profile = saved_profile r; connect_secret = connect_secret r })
            (update_config sys w.app_store (store_profile (saved_profile r))))

    abbrev pub save_validated :
        Io
        → Stores K
        → SaveProfileRequest
        → Result ProfileValidationError (Unit {0})
        → Stores K × Result CredentialTransactionError SaveProfileOutcome
    save_validated sys w r (err e) = (w, err (invalid_profile e))
    save_validated sys w r (ok u) =
        if mismatched r then (w, err profile_mismatch) else save_checked sys w r

    unfoldable pub save_profile :
        Io
        → Stores K
        → SaveProfileRequest
        → Stores K × Result CredentialTransactionError SaveProfileOutcome
    save_profile sys w r = save_validated sys w r (validate_profile r.profile)

    -- The answer to the update of `delete_profile`.
    abbrev pub dropped :
        K
        → Option Credential
        → Bool
        → AppStore × Result StorageError (Unit {0})
        → Stores K × Result CredentialTransactionError (Unit {0})
    dropped k deleted found (s, err e) = undone s (storage e) (restore_deleted k deleted)
    dropped k deleted found (s, ok u) =
        if not found
        then undone s profile_not_found (restore_deleted k deleted)
        else (record { credential_store = k; app_store = s }, ok tt)

    unfoldable pub delete_profile :
        Io → Stores K → ConnectionProfile → Stores K × Result CredentialTransactionError (Unit {0})
    delete_profile sys w p =
        prepared w.app_store (delete_credential w.credential_store (credential_reference p.auth))
          (λ k deleted.
            dropped k deleted (found_in p.id (read_versioned sys w.app_store.config default_config))
              (update_config sys w.app_store (drop_profile p.id)))
