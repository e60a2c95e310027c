-- ===== src/Credentials/DeleteLaws.antt =====
-- `delete_profile`: what a failure leaves, and what a success leaves.
use oxide_ssh.Prelude.{
  Bool, true, false, not, Option, none, some, Result, ok, err, ◌≡◌, refl, ap, ◌∙◌, inl, inr, All,
  All-retain_test,
}
use oxide_ssh.Model.Types.{Text, CredentialRef, ConnectionProfile}
use oxide_ssh.Model.Validate.{Texts}
use oxide_ssh.Storage.Types.{AppConfig, StorageError, default_config}
use oxide_ssh.Storage.Files.{Codec, Io, read_versioned}
use oxide_ssh.Storage.FileLaws.{IsFaithful}
use oxide_ssh.Storage.Store.{AppStore, update_config, load_config}
use oxide_ssh.Storage.StoreLaws.{update_config-cases}
use oxide_ssh.Credentials.Types.{
  CredentialError, CredentialStore, IsCredentialStore, CredentialTransactionError, rollback_failed,
  profile_not_found, storage, credential_reference,
}
use oxide_ssh.Credentials.Steps.{
  Credential, restore_deleted, delete_credential, lifted, onward, has_profile_id, drop_profile,
  found_in,
}
use oxide_ssh.Credentials.Coordinator.{Stores, undone, prepared, dropped, delete_profile}
use oxide_ssh.Credentials.Rollback.{Same, Others, Deleted, restore_deleted_lem}
use oxide_ssh.Credentials.StepLaws.{Gone}
use oxide_ssh.Credentials.Stored.{gone, undone_fails}

module _ {K : Type 0} (held : K → CredentialRef → Option Text) ⦃keys : CredentialStore K⦄ where
  abbrev Cleared :
      K → Option CredentialRef → K × Result CredentialTransactionError (Option Credential) → Type 0
  Cleared k old (k2, err e) = Same held k k2
  Cleared k old (k2, ok d) = Deleted held k k2 d × Gone held k k2 old

  delete_answered :
      (k k2 : K) (r : CredentialRef) (v : Option Text) (answer : Result CredentialError (Unit {0}))
      → held k r ≡ v
      → Others held r k k2
      → (answer ≡ ok tt → held k2 r ≡ none)
      → ((e : CredentialError) → answer ≡ err e → Same held k k2)
      → Cleared k (some r) (onward (lifted (k2, answer)) (λ l u. (l, ok (some (r, v)))))
  delete_answered k k2 r v (ok u) old others new failed =
      ((old, new refl, others), (new refl, others))
  delete_answered k k2 r v (err e) old others new failed = failed e refl

  module _ (law : IsCredentialStore keys held) where
    get_answered :
        (k k1 : K) (r : CredentialRef) (answer : Result CredentialError (Option Text))
        → Same held k k1
        → ((v : Option Text) → answer ≡ ok v → held k r ≡ v)
        → Cleared k (some r) (
            onward
              (lifted (k1, answer))
              (λ l v. onward (lifted (keys.delete l r)) (λ l2 u. (l2, ok (some (r, v))))))
    get_answered k k1 r (err e) same read = same
    get_answered k k1 r (ok v) same read =
        delete_answered k (keys.delete k1 r).0 r v (keys.delete k1 r).1 (read v refl)
          (λ q d. law.delete_others k1 r q d ∙ same q) (law.delete_removes k1 r)
          (λ e f q. law.delete_fails k1 r q e f ∙ same q)

    delete_credential_lem :
        (k : K) (old : Option CredentialRef) → Cleared k old (delete_credential k old)
    unfolding delete_credential
    delete_credential_lem k none = ((λ q. refl), λ q. refl)
    delete_credential_lem k (some r) =
        get_answered k (keys.get k r).0 r (keys.get k r).1 (law.get_keeps k r) (law.get_reads k r)

    undone-Same :
        (k : K) (e f : CredentialTransactionError) (s : AppStore) (x : K × Bool)
        → (x.1 ≡ true → Same held k x.0)
        → (undone {A = Unit {0}} s e x).1 ≡ err f
        → ¬ (f ≡ rollback_failed)
        → Same held k (undone {A = Unit {0}} s e x).0.credential_store
    undone-Same k e f s (l, true) back h other = back refl
    undone-Same k e f s (l, false) back h other = absurd (other (err_inj h))
      where
        err_inj :
            {a b : CredentialTransactionError}
            → ◌≡◌ {A = Result CredentialTransactionError (Unit {0})} (err a) (err b)
            → b ≡ a
        err_inj h = cc

    module _ ⦃texts : Texts⦄ ⦃configs : Codec AppConfig⦄ where
      dropped-Same :
          (k l : K) (d : Option Credential) (found : Bool) (s : AppStore)
          (answer : Result StorageError (Unit {0})) (f : CredentialTransactionError)
          → Deleted held k l d
          → (dropped l d found (s, answer)).1 ≡ err f
          → ¬ (f ≡ rollback_failed)
          → Same held k (dropped l d found (s, answer)).0.credential_store
      dropped-Same k l d found s (err e) f deleted h other =
          undone-Same k (storage e) f s (restore_deleted l d)
            (restore_deleted_lem held law k l d deleted) h other
      dropped-Same k l d false s (ok u) f deleted h other =
          undone-Same k profile_not_found f s (restore_deleted l d)
            (restore_deleted_lem held law k l d deleted) h other
      dropped-Same k l d true s (ok u) f deleted h other = cc

      delete_fails :
          (w : Stores K) (old : Option CredentialRef)
          (x : K × Result CredentialTransactionError (Option Credential)) (found : Bool)
          (answer : AppStore × Result StorageError (Unit {0})) (f : CredentialTransactionError)
          → Cleared w.credential_store old x
          → (prepared w.app_store x (λ k d. dropped k d found answer)).1 ≡ err f
          → ¬ (f ≡ rollback_failed)
          → Same held w.credential_store
              (prepared w.app_store x (λ k d. dropped k d found answer)).0.credential_store
      delete_fails w old (k, err e) found answer f cleared h other = cleared
      delete_fails w old (k, ok d) found (s, answer) f cleared h other =
          dropped-Same w.credential_store k d found s answer f cleared.0 h other

      -- A deletion that fails, for any reason but that its own undoing failed, leaves every secret as
      -- it was.
      pub delete_profile_fails :
          (sys : Io) (w : Stores K) (p : ConnectionProfile) (f : CredentialTransactionError)
          → (delete_profile sys w p).1 ≡ err f
          → ¬ (f ≡ rollback_failed)
          → (q : CredentialRef)
          → held (delete_profile sys w p).0.credential_store q ≡ held w.credential_store q
      unfolding delete_profile
      delete_profile_fails sys w p f h other =
          delete_fails w (credential_reference p.auth)
            (delete_credential w.credential_store (credential_reference p.auth))
            (found_in p.id (read_versioned sys w.app_store.config default_config))
            (update_config sys w.app_store (drop_profile p.id)) f
            (delete_credential_lem w.credential_store (credential_reference p.auth)) h other

      abbrev Dropped :
          Option CredentialRef → AppStore × Result StorageError (Unit {0}) → Stores K → Type 0
      Dropped old answer w' =
          (answer.1 ≡ ok tt)
          × (w'.app_store ≡ answer.0)
          × ((o : CredentialRef) → old ≡ some o → held w'.credential_store o ≡ none)

      delete_succeeds :
          (w : Stores K) (old : Option CredentialRef)
          (x : K × Result CredentialTransactionError (Option Credential)) (found : Bool)
          (answer : AppStore × Result StorageError (Unit {0}))
          → Cleared w.credential_store old x
          → (prepared w.app_store x (λ k d. dropped k d found answer)).1 ≡ ok tt
          → Dropped old answer (prepared w.app_store x (λ k d. dropped k d found answer)).0
      delete_succeeds w old (k, err e) found answer cleared h = cc
      delete_succeeds w old (k, ok d) found (s, err e) cleared h =
          absurd (undone_fails held s (storage e) (restore_deleted k d) h)
      delete_succeeds w old (k, ok d) false (s, ok u) cleared h =
          absurd (undone_fails held s profile_not_found (restore_deleted k d) h)
      delete_succeeds w old (k, ok d) true (s, ok u) cleared h =
          (refl, refl, gone held w.credential_store k old cleared.1)

      -- After a deletion that succeeds, the next load that can read the file gives a configuration in
      -- which no profile has the identifier, and the profile's reference holds no secret. The format of
      -- the file reads back what it writes.
      pub delete_profile_lem :
          (faithful : IsFaithful configs (λ c. c.schema_version)) (sys next : Io) (w : Stores K)
          (p : ConnectionProfile)
          → (delete_profile sys w p).1 ≡ ok tt
          → next.read_ok ≡ true
          → let w' = (delete_profile sys w p).0 in
            (c : AppConfig) × (load_config next w'.app_store ≡ ok c)
            × All (λ x. not (has_profile_id p.id x) ≡ true) c.profiles
            × ((o : CredentialRef)
                → credential_reference p.auth ≡ some o
                → held w'.credential_store o ≡ none)
      unfolding delete_profile drop_profile
      delete_profile_lem faithful sys next w p h readable =
          let (won, file, g) =
            delete_succeeds w (credential_reference p.auth)
              (delete_credential w.credential_store (credential_reference p.auth))
              (found_in p.id (read_versioned sys w.app_store.config default_config))
              (update_config sys w.app_store (drop_profile p.id))
              (delete_credential_lem w.credential_store (credential_reference p.auth)) h in
          elim (update_config-cases faithful sys w.app_store (drop_profile p.id)) [
            | inl (kept, e, failed) ↦ cc
            | inr (raw, read, back, answer) ↦ (
              drop_profile p.id raw,
              ap (load_config next) file ∙ back next readable,
              All-retain_test (λ x. not (has_profile_id p.id x)) raw.profiles,
              g,
            )
          ]
