-- ===== src/Credentials/Stored.antt =====
-- `save_profile`: what a success leaves in the configuration and in the credential store.
use oxide_ssh.Prelude.{
  Bool, true, false, List, [], ◌∷◌, ◌++◌, Option, none, some, Result, ok, err, Bool-cases, ◌≡◌,
  refl, sym, ap, ◌∙◌, inl, inr, arith, find, any, update_first, ◌==◌, ==_refl,
}
use oxide_ssh.Model.Types.{Text, CredentialRef, ConnectionProfile}
use oxide_ssh.Model.Validate.{Texts, ProfileValidationError, validate_profile}
use oxide_ssh.Storage.Types.{AppConfig, StorageError}
use oxide_ssh.Storage.Files.{Codec, Io}
use oxide_ssh.Storage.FileLaws.{IsFaithful}
use oxide_ssh.Storage.Store.{AppStore, update_config, load_config}
use oxide_ssh.Storage.StoreLaws.{update_config-cases}
use oxide_ssh.Credentials.Types.{
  CredentialStore, IsCredentialStore, CredentialTransactionError, storage, SaveProfileRequest,
  SaveProfileOutcome,
}
use oxide_ssh.Credentials.Steps.{
  Credential, desired_reference, secret_left, reference_to_remove, undo, mismatched, saved_profile,
  store_profile, connect_secret, has_profile_id, put_profile,
}
use oxide_ssh.Credentials.Coordinator.{
  Stores, undone, committed, prepared, save_credentials, save_checked, save_validated, save_profile,
}
use oxide_ssh.Credentials.StepLaws.{Holds, Gone}
use oxide_ssh.Credentials.SaveLaws.{Changed, save_credentials_lem}

ok_inj : {A E : Type 0} {a b : A} → ◌≡◌ {A = Result E A} (ok a) (ok b) → b ≡ a
ok_inj h = cc

find_updated :
    (p : ConnectionProfile) (ps : List ConnectionProfile)
    → any (has_profile_id p.id) ps ≡ true
    → find (has_profile_id p.id) (update_first (has_profile_id p.id) (λ old. p) ps) ≡ some p
find_updated p [] h = cc
find_updated p (x ∷ xs) h = elim (Bool-cases (x.id == p.id)) [
  | inl here ↦ rw (here, ==_refl p.id) refl
  | inr there ↦ rw (there, find_updated p xs (rw there at h)) (rw there refl)
]

find_pushed :
    (p : ConnectionProfile) (ps : List ConnectionProfile)
    → any (has_profile_id p.id) ps ≡ false
    → find (has_profile_id p.id) (ps ++ p ∷ []) ≡ some p
find_pushed p [] h = rw (==_refl p.id) refl
find_pushed p (x ∷ xs) h = elim (Bool-cases (x.id == p.id)) [
  | inl here ↦ ground arith
  | inr there ↦ rw there (find_pushed p xs (rw there at h))
]

find-put_profile :
    (p : ConnectionProfile) (ps : List ConnectionProfile)
    → find (has_profile_id p.id) (put_profile p ps) ≡ some p
find-put_profile p ps = elim (Bool-cases (any (has_profile_id p.id) ps)) [
  | inl known ↦ rw known (find_updated p ps known)
  | inr new ↦ rw new (find_pushed p ps new)
]

module _ {K : Type 0} (held : K → CredentialRef → Option Text) ⦃keys : CredentialStore K⦄
    ⦃texts : Texts⦄ where
  pub undone_fails :
      {A : Type 0} (s : AppStore) (e : CredentialTransactionError) (x : K × Bool) {a : A}
      → ¬ ((undone s e x).1 ≡ ok a)
  undone_fails s e (k, true) h = cc
  undone_fails s e (k, false) h = cc

  commit_saves :
      (k k2 : K) (r : SaveProfileRequest) (written deleted : Option Credential)
      (outcome : SaveProfileOutcome) (s : AppStore) (answer : Result StorageError (Unit {0}))
      {got : SaveProfileOutcome}
      → (committed k2 deleted written outcome (s, answer)).1 ≡ ok got
      → (answer ≡ ok tt)
        × (got ≡ outcome)
        × ((committed k2 deleted written outcome (s, answer)).0
            ≡ record { credential_store = k2; app_store = s })
  commit_saves k k2 r written deleted outcome s (ok u) h = (refl, ok_inj h, refl)
  commit_saves k k2 r written deleted outcome s (err e) h =
      absurd (undone_fails s (storage e) (undo k2 deleted written) h)

  pub gone :
      (k k' : K) (old : Option CredentialRef)
      → Gone held k k' old
      → (o : CredentialRef) → old ≡ some o
      → held k' o ≡ none
  gone k k' none g o h = cc
  gone k k' (some p) g o h = ap (held k') (sym (some_inj h)) ∙ g.0
    where
      some_inj : {a b : CredentialRef} → ◌≡◌ {A = Option CredentialRef} (some a) (some b) → a ≡ b
      some_inj h = cc

  -- The two stores after a success: what the update answered, and the credentials.
  abbrev Saved :
      SaveProfileRequest
      → SaveProfileOutcome
      → SaveProfileOutcome
      → AppStore × Result StorageError (Unit {0})
      → Stores K
      → Type 0
  Saved r got outcome answer w' =
      (answer.1 ≡ ok tt)
      × (got ≡ outcome)
      × (w'.app_store ≡ answer.0)
      × Holds held w'.credential_store (desired_reference r) (secret_left r)
      × ((o : CredentialRef) → reference_to_remove r ≡ some o → held w'.credential_store o ≡ none)

  checked_saves :
      (w : Stores K) (r : SaveProfileRequest)
      (x : K × Result CredentialTransactionError (Option Credential × Option Credential))
      (outcome got : SaveProfileOutcome) (answer : AppStore × Result StorageError (Unit {0}))
      → Changed held w.credential_store r x
      → (prepared w.app_store x (λ k changed. committed k changed.1 changed.0 outcome answer)).1
        ≡ ok got
      → Saved r got outcome answer
          (prepared w.app_store x (λ k changed. committed k changed.1 changed.0 outcome answer)).0
  checked_saves w r (k, err e) outcome got answer changed h = cc
  checked_saves w r (k, ok (written, deleted)) outcome got (s, answer) changed h =
      let (fine, same, after) =
        commit_saves w.credential_store k r written deleted outcome s answer h in
      let (k1, wrote, deleted', holds, g) = changed in
      (fine, same, rw after refl, rw after holds, rw after (gone k1 k (reference_to_remove r) g))

  module _ ⦃configs : Codec AppConfig⦄ (law : IsCredentialStore keys held) where
    validated_saves :
        (sys : Io) (w : Stores K) (r : SaveProfileRequest)
        (v : Result ProfileValidationError (Unit {0})) (got : SaveProfileOutcome)
        → (save_validated sys w r v).1 ≡ ok got
        → Saved r got
            (record { profile = saved_profile r; connect_secret = connect_secret r })
            (update_config sys w.app_store (store_profile (saved_profile r)))
            (save_validated sys w r v).0
    unfolding save_checked
    validated_saves sys w r (err e) got h = cc
    validated_saves sys w r (ok u) got h = elim (Bool-cases (mismatched r)) [
      | inl bad ↦ absurd (err_is_no_ok (rw bad at h))
      | inr fine ↦ rw fine (
          checked_saves w r (save_credentials w.credential_store r) _ got _
            (save_credentials_lem held law w.credential_store r) (rw fine at h))
    ]
      where
        err_is_no_ok :
            {A : Type 0} {a : A} {e : CredentialTransactionError}
            → ¬ (◌≡◌ {A = Result CredentialTransactionError A} (err e) (ok a))
        err_is_no_ok h = cc

    -- A save that succeeds: the next load that can read the file gives a configuration that holds the
    -- answered profile under the request's identifier; the answer is the request's profile with the
    -- wanted reference, beside the secret to connect with; the wanted reference holds a secret, the
    -- request's own if it brought one; and the reference that was given up holds none. The format of
    -- the file reads back what it writes.
    pub save_profile_lem :
        (faithful : IsFaithful configs (λ c. c.schema_version)) (sys next : Io) (w : Stores K)
        (r : SaveProfileRequest) (got : SaveProfileOutcome)
        → (save_profile sys w r).1 ≡ ok got
        → next.read_ok ≡ true
        → let w' = (save_profile sys w r).0 in
          (c : AppConfig) × (load_config next w'.app_store ≡ ok c)
          × (find (has_profile_id r.profile.id) c.profiles ≡ some got.profile)
          × (got ≡ record { profile = saved_profile r; connect_secret = connect_secret r })
          × Holds held w'.credential_store (desired_reference r) (secret_left r)
          × ((o : CredentialRef)
              → reference_to_remove r ≡ some o
              → held w'.credential_store o ≡ none)
    unfolding save_profile store_profile
    save_profile_lem faithful sys next w r got h readable =
        let (won, same, file, holds, g) =
          validated_saves sys w r (validate_profile r.profile) got h in
        elim (update_config-cases faithful sys w.app_store (store_profile (saved_profile r))) [
          | inl (kept, e, failed) ↦ cc
          | inr (raw, read, back, answer) ↦ (
            store_profile (saved_profile r) raw,
            ap (load_config next) file ∙ back next readable,
            find-put_profile (saved_profile r) raw.profiles
                ∙ ap (λ (x : SaveProfileOutcome). some x.profile) (sym same),
            same,
            holds,
            g,
          )
        ]
