-- ===== src/Credentials/SaveLaws.antt =====
-- `save_profile`: what a failure leaves, and what a success leaves.
use oxide_ssh.Prelude.{
  Bool, true, false, not, Option, Result, ok, err, Bool-cases, ◌≡◌, refl, ◌∙◌, inl, inr, ◌⊎◌,
  fail_if,
}
use oxide_ssh.Model.Types.{Text, CredentialRef}
use oxide_ssh.Model.Validate.{Texts, ProfileValidationError, validate_profile}
use oxide_ssh.Storage.Types.{AppConfig, StorageError, io}
use oxide_ssh.Storage.Files.{Codec, Io}
use oxide_ssh.Storage.FileLaws.{IsFaithful}
use oxide_ssh.Storage.Store.{AppStore, update_config}
use oxide_ssh.Storage.StoreLaws.{update_config-cases}
use oxide_ssh.Credentials.Types.{
  CredentialStore, IsCredentialStore, CredentialTransactionError, rollback_failed, storage,
  SaveProfileRequest, SaveProfileOutcome,
}
use oxide_ssh.Credentials.Steps.{
  Credential, desired_reference, secret_left, reference_to_remove, write_desired, remove_old, undo,
  mismatched, saved_profile, store_profile, connect_secret, onward,
}
use oxide_ssh.Credentials.Coordinator.{
  Stores, undone, committed, prepared, save_credentials, save_checked, save_validated, save_profile,
}
use oxide_ssh.Credentials.Rollback.{Same, Wrote, Deleted, undo_lem}
use oxide_ssh.Credentials.StepLaws.{
  IsReadable, Holds, Written, Gone, Removed, Holds-Gone, write_desired_lem, remove_old_lem,
  different-apart,
}

err_inj :
    {A : Type 0} {e f : CredentialTransactionError}
    → ◌≡◌ {A = Result CredentialTransactionError A} (err e) (err f)
    → f ≡ e
err_inj h = cc

module _ (K : Type 0) ⦃keys : CredentialStore K⦄ ⦃texts : Texts⦄ where
  -- The credential that the request gives up can be read, whatever was written before.
  abbrev pub OldIsReadable : SaveProfileRequest → Type 0
  OldIsReadable r = (k : K) → IsReadable k (reference_to_remove r)

module _ {K : Type 0} (held : K → CredentialRef → Option Text) ⦃keys : CredentialStore K⦄
    ⦃texts : Texts⦄ where
  abbrev pub Changed :
      K
      → SaveProfileRequest
      → K × Result CredentialTransactionError (Option Credential × Option Credential)
      → Type 0
  Changed k r (k2, err e) = OldIsReadable K r → (e ≡ rollback_failed) ⊎ Same held k k2
  Changed k r (k2, ok (w, d)) =
      (k1 : K) × Wrote held k k1 w
      × Deleted held k1 k2 d
      × Holds held k2 (desired_reference r) (secret_left r)
      × Gone held k1 k2 (reference_to_remove r)

  module _ (law : IsCredentialStore keys held) where
    after_removal :
        (k k1 : K) (r : SaveProfileRequest) (w : Option Credential)
        (x : K × Result CredentialTransactionError (Option Credential))
        → Wrote held k k1 w
        → Holds held k1 (desired_reference r) (secret_left r)
        → Removed held k k1 (reference_to_remove r) x
        → Changed k r (onward x (λ k2 deleted. (k2, ok (w, deleted))))
    after_removal k k1 r w (k2, err e) wrote holds removed = λ readable. removed (readable k1)
    after_removal k k1 r w (k2, ok d) wrote holds removed = (
      k1,
      wrote,
      removed.0,
      Holds-Gone held k1 k2 (reference_to_remove r) (desired_reference r) (secret_left r) holds
          removed.1 (different-apart _ (desired_reference r)),
      removed.1,
    )

    after_write :
        (k : K) (r : SaveProfileRequest)
        (x : K × Result CredentialTransactionError (Option Credential))
        → Written held k (desired_reference r) (secret_left r) x
        → Changed k r (
            onward x (λ k1 written.
              onward
                (remove_old k1 written (reference_to_remove r))
                (λ k2 deleted. (k2, ok (written, deleted)))))
    after_write k r (k1, err e) written = λ readable. inr written
    after_write k r (k1, ok w) written =
        after_removal k k1 r w (remove_old k1 w (reference_to_remove r)) written.0 written.1
          (remove_old_lem held law k k1 w (reference_to_remove r) written.0)

    pub save_credentials_lem : (k : K) (r : SaveProfileRequest) → Changed k r (save_credentials k r)
    unfolding save_credentials
    save_credentials_lem k r =
        after_write k r (write_desired r k (desired_reference r) (secret_left r))
          (write_desired_lem held law r k (desired_reference r) (secret_left r))

    -- Neither store changed.
    abbrev Unchanged : Stores K → Stores K → Type 0
    Unchanged w w' = Same held w.credential_store w'.credential_store × (w'.app_store ≡ w.app_store)

    undone-Same :
        (w : Stores K) (e f : CredentialTransactionError) (s : AppStore) (x : K × Bool)
        → s ≡ w.app_store
        → (x.1 ≡ true → Same held w.credential_store x.0)
        → (undone {A = SaveProfileOutcome} s e x).1 ≡ err f
        → ¬ (f ≡ rollback_failed)
        → Unchanged w (undone {A = SaveProfileOutcome} s e x).0
    undone-Same w e f s (k, true) same back h other = (back refl, same)
    undone-Same w e f s (k, false) same back h other = absurd (other (err_inj h))

    commit_fails :
        (w : Stores K) (r : SaveProfileRequest) (k2 : K) (written deleted : Option Credential)
        (outcome : SaveProfileOutcome) (s : AppStore) (answer : Result StorageError (Unit {0}))
        (f : CredentialTransactionError)
        → Changed w.credential_store r (k2, ok (written, deleted))
        → ((e : StorageError) → answer ≡ err e → s ≡ w.app_store)
        → (committed k2 deleted written outcome (s, answer)).1 ≡ err f
        → ¬ (f ≡ rollback_failed)
        → Unchanged w (committed k2 deleted written outcome (s, answer)).0
    commit_fails w r k2 written deleted outcome s (ok u) f changed same h other = cc
    commit_fails w r k2 written deleted outcome s (err e) f changed same h other =
        undone-Same w (storage e) f s (undo k2 deleted written) (same e refl)
          (undo_lem held law w.credential_store changed.0 k2 written deleted changed.1 changed.2) h
          other

    checked_fails :
        (w : Stores K) (r : SaveProfileRequest)
        (x : K × Result CredentialTransactionError (Option Credential × Option Credential))
        (outcome : SaveProfileOutcome) (answer : AppStore × Result StorageError (Unit {0}))
        (f : CredentialTransactionError)
        → Changed w.credential_store r x
        → OldIsReadable K r
        → ((e : StorageError) → answer.1 ≡ err e → answer.0 ≡ w.app_store)
        → (prepared w.app_store x (λ k changed. committed k changed.1 changed.0 outcome answer)).1
          ≡ err f
        → ¬ (f ≡ rollback_failed)
        → Unchanged w
            (prepared w.app_store x (λ k changed. committed k changed.1 changed.0 outcome answer)).0
    checked_fails w r (k, err e) outcome answer f changed readable same h other =
        elim (changed readable) [
          | inl rf ↦ absurd (other (err_inj h ∙ rf))
          | inr back ↦ (back, refl)
        ]
    checked_fails w r (k, ok (written, deleted)) outcome (s, answer) f changed readable same h
          other =
        commit_fails w r k written deleted outcome s answer f changed same h other

    module _ ⦃configs : Codec AppConfig⦄
        (faithful : IsFaithful configs (λ c. c.schema_version)) where
      pub update_fails :
          (sys : Io) (s : AppStore) (update : AppConfig → AppConfig) (e : StorageError)
          → sys.sync_ok ≡ true
          → (update_config sys s update).1 ≡ err e
          → (update_config sys s update).0 ≡ s
      update_fails sys s update e synced h = elim (update_config-cases faithful sys s update) [
        | inl old ↦ old.0
        | inr (raw, read, back, answer) ↦
            let fine : fail_if (not sys.sync_ok) io ≡ ok tt = rw synced refl in cc
      ]

      validated_fails :
          (sys : Io) (w : Stores K) (r : SaveProfileRequest)
          (v : Result ProfileValidationError (Unit {0})) (f : CredentialTransactionError)
          → sys.sync_ok ≡ true
          → OldIsReadable K r
          → (save_validated sys w r v).1 ≡ err f
          → ¬ (f ≡ rollback_failed)
          → Unchanged w (save_validated sys w r v).0
      unfolding save_checked
      validated_fails sys w r (err e) f synced readable h other = ((λ q. refl), refl)
      validated_fails sys w r (ok u) f synced readable h other = elim (Bool-cases (mismatched r)) [
        | inl bad ↦ rw bad ((λ q. refl), refl)
        | inr fine ↦ rw fine (
            checked_fails w r (save_credentials w.credential_store r)
              (record { profile = saved_profile r; connect_secret = connect_secret r })
              (update_config sys w.app_store (store_profile (saved_profile r))) f
              (save_credentials_lem w.credential_store r) readable
              (λ e k. update_fails sys w.app_store (store_profile (saved_profile r)) e synced k)
              (rw fine at h) other)
      ]

      -- A save that fails, for any reason but that its own undoing failed, leaves every secret and
      -- both files as they were. The credential that the request gives up can be read, the directory
      -- of the files can be brought to the disk, and the format of the file reads back what it
      -- writes.
      pub save_profile_fails :
          (sys : Io) (w : Stores K) (r : SaveProfileRequest) (f : CredentialTransactionError)
          → sys.sync_ok ≡ true
          → OldIsReadable K r
          → (save_profile sys w r).1 ≡ err f
          → ¬ (f ≡ rollback_failed)
          → ((q : CredentialRef)
              → held (save_profile sys w r).0.credential_store q ≡ held w.credential_store q)
            × ((save_profile sys w r).0.app_store ≡ w.app_store)
      unfolding save_profile
      save_profile_fails sys w r f synced readable h other =
          validated_fails sys w r (validate_profile r.profile) f synced readable h other
