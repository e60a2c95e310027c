-- ===== src/Credentials/StepLaws.antt =====
-- The steps of `save_profile` on the credential store: what each leaves, on every branch.
use oxide_ssh.Prelude.{
  Bool, true, false, Option, none, some, Result, ok, err, Bool-cases, ◌≡◌, refl, sym, ap, ◌∙◌, inl,
  inr, ◌⊎◌,
}
use oxide_ssh.Model.Types.{Text, CredentialRef}
use oxide_ssh.Model.Text.{text_eq_refl}
use oxide_ssh.Credentials.Types.{
  CredentialError, CredentialStore, IsCredentialStore, ref_eq, eq_of_ref_eq,
  CredentialTransactionError, rollback_failed, credential, SaveProfileRequest,
}
use oxide_ssh.Credentials.Steps.{
  Credential, rollback_written, put_done, put_read, retained_read, retains, write_desired,
  rolled_back, delete_done, delete_previous, remove_old, different,
}
use oxide_ssh.Credentials.Rollback.{Same, Others, Wrote, Deleted, Wrote-Same, rollback_written_lem}

module _ {K : Type 0} ⦃keys : CredentialStore K⦄ where
  -- The credential can be read.
  abbrev pub IsReadable : K → Option CredentialRef → Type 0
  IsReadable k old =
      (o : CredentialRef) → old ≡ some o → (e : CredentialError) → ¬ ((keys.get k o).1 ≡ err e)

module _ {K : Type 0} (held : K → CredentialRef → Option Text) where
  -- The secret is the one that was given, if one was.
  abbrev pub Uses : Option Text → Text → Type 0
  Uses none s = Unit
  Uses (some t) s = t ≡ s

  abbrev pub Holds : K → Option CredentialRef → Option Text → Type 0
  Holds k none secret = Unit
  Holds k (some r) secret = (s : Text) × (held k r ≡ some s) × Uses secret s

  abbrev pub Written :
      K
      → Option CredentialRef
      → Option Text
      → K × Result CredentialTransactionError (Option Credential)
      → Type 0
  Written k desired secret (k', err e) = Same held k k'
  Written k desired secret (k', ok w) = Wrote held k k' w × Holds k' desired secret

  abbrev pub Gone : K → K → Option CredentialRef → Type 0
  Gone k k' none = Same held k k'
  Gone k k' (some r) = (held k' r ≡ none) × Others held r k k'

  Gone-keeps :
      (k k' : K) (old : Option CredentialRef) (r : CredentialRef)
      → Gone k k' old
      → ((o : CredentialRef) → old ≡ some o → ref_eq o r ≡ false)
      → held k' r ≡ held k r
  Gone-keeps k k' none r g apart = g r
  Gone-keeps k k' (some o) r g apart = g.1 r (apart o refl)

  pub Holds-Gone :
      (k k' : K) (old desired : Option CredentialRef) (secret : Option Text)
      → Holds k desired secret
      → Gone k k' old
      → ((o r : CredentialRef) → old ≡ some o → desired ≡ some r → ref_eq o r ≡ false)
      → Holds k' desired secret
  Holds-Gone k k' old none secret h g apart = tt
  Holds-Gone k k' old (some r) secret h g apart =
      (h.0, Gone-keeps k k' old r g (λ o e. apart o r e refl) ∙ h.1, h.2)

  module _ ⦃keys : CredentialStore K⦄ where
    -- After a removal from the second state, where the first is the one that a failure goes back to.
    abbrev pub Removed :
        K
        → K
        → Option CredentialRef
        → K × Result CredentialTransactionError (Option Credential)
        → Type 0
    Removed k k1 old (k2, err e) = IsReadable k1 old → (e ≡ rollback_failed) ⊎ Same held k k2
    Removed k k1 old (k2, ok d) = Deleted held k1 k2 d × Gone k1 k2 old

  module _ ⦃keys : CredentialStore K⦄ (law : IsCredentialStore keys held) where
    put_done_lem :
        (k k' : K) (r : CredentialRef) (s : Text) (v : Option Text)
        (answer : Result CredentialError (Unit {0}))
        → held k r ≡ v
        → Others held r k k'
        → (answer ≡ ok tt → held k' r ≡ some s)
        → ((e : CredentialError) → answer ≡ err e → Same held k k')
        → Written k (some r) (some s) (put_done r v (k', answer))
    put_done_lem k k' r s v (ok u) old others new failed = ((old, others), (s, new refl, refl))
    put_done_lem k k' r s v (err e) old others new failed = failed e refl

    put_read_lem :
        (k k' : K) (r : CredentialRef) (s : Text) (answer : Result CredentialError (Option Text))
        → Same held k k'
        → ((v : Option Text) → answer ≡ ok v → held k r ≡ v)
        → Written k (some r) (some s) (put_read r s (k', answer))
    put_read_lem k k' r s (err e) same read = same
    put_read_lem k k' r s (ok v) same read =
        put_done_lem k (keys.put k' r s).0 r s v (keys.put k' r s).1 (read v refl)
          (λ q d. law.put_others k' r q s d ∙ same q) (law.put_writes k' r s)
          (λ e f q. law.put_fails k' r q s e f ∙ same q)

    retained_lem :
        (k k' : K) (r : CredentialRef) (answer : Result CredentialError (Option Text))
        → Same held k k'
        → ((v : Option Text) → answer ≡ ok v → held k r ≡ v)
        → Written k (some r) none (retained_read (k', answer))
    retained_lem k k' r (err e) same read = same
    retained_lem k k' r (ok none) same read = same
    retained_lem k k' r (ok (some s)) same read = (same, (s, same r ∙ read (some s) refl, tt))

    pub write_desired_lem :
        (q : SaveProfileRequest) (k : K) (desired : Option CredentialRef) (secret : Option Text)
        → Written k desired secret (write_desired q k desired secret)
    unfolding write_desired
    write_desired_lem q k none secret = ((λ r. refl), tt)
    write_desired_lem q k (some r) (some s) =
        put_read_lem k (keys.get k r).0 r s (keys.get k r).1 (law.get_keeps k r) (law.get_reads k r)
    write_desired_lem q k (some r) none = elim (Bool-cases (retains q r)) [
      | inl kept ↦ rw kept (
          retained_lem k (keys.get k r).0 r (keys.get k r).1 (law.get_keeps k r)
            (law.get_reads k r))
      | inr other ↦ rw other (λ p. refl)
    ]

    rolled :
        (k k1 : K) (e : CredentialTransactionError) (old : Option CredentialRef) (x : K × Bool)
        → (x.1 ≡ true → Same held k x.0)
        → Removed k k1 old (rolled_back e x)
    rolled k k1 e old (k2, true) back = λ r. inr (back refl)
    rolled k k1 e old (k2, false) back = λ r. inl refl

    delete_done_lem :
        (k k1 k2 : K) (w : Option Credential) (r : CredentialRef) (v : Option Text)
        (answer : Result CredentialError (Unit {0}))
        → Wrote held k k1 w
        → held k1 r ≡ v
        → Others held r k1 k2
        → (answer ≡ ok tt → held k2 r ≡ none)
        → ((e : CredentialError) → answer ≡ err e → Same held k1 k2)
        → Removed k k1 (some r) (delete_done w r v (k2, answer))
    delete_done_lem k k1 k2 w r v (ok u) wrote old others new failed =
        ((old, new refl, others), (new refl, others))
    delete_done_lem k k1 k2 w r v (err e) wrote old others new failed =
        rolled k k1 (credential e) (some r) (rollback_written k2 w)
          (rollback_written_lem held law k k2 w (Wrote-Same held k k1 k2 w wrote (failed e refl)))

    delete_previous_lem :
        (k k1 k2 : K) (w : Option Credential) (r : CredentialRef)
        (answer : Result CredentialError (Option Text))
        → Wrote held k k1 w
        → Same held k1 k2
        → ((v : Option Text) → answer ≡ ok v → held k1 r ≡ v)
        → ((e : CredentialError) → answer ≡ err e → (keys.get k1 r).1 ≡ err e)
        → Removed k k1 (some r) (delete_previous w r (k2, answer))
    delete_previous_lem k k1 k2 w r (err e) wrote same read answers =
        λ readable. absurd (readable r refl e (answers e refl))
    delete_previous_lem k k1 k2 w r (ok v) wrote same read answers =
        delete_done_lem k k1 (keys.delete k2 r).0 w r v (keys.delete k2 r).1 wrote (read v refl)
          (λ q d. law.delete_others k2 r q d ∙ same q) (law.delete_removes k2 r)
          (λ e f q. law.delete_fails k2 r q e f ∙ same q)

    pub remove_old_lem :
        (k k1 : K) (w : Option Credential) (old : Option CredentialRef)
        → Wrote held k k1 w
        → Removed k k1 old (remove_old k1 w old)
    unfolding remove_old
    remove_old_lem k k1 w none wrote = ((λ q. refl), λ q. refl)
    remove_old_lem k k1 w (some o) wrote =
        delete_previous_lem k k1 (keys.get k1 o).0 w o (keys.get k1 o).1 wrote (law.get_keeps k1 o)
          (law.get_reads k1 o) (λ e f. f)

-- A reference that is removed is not the wanted one.
pub different-apart :
    (old desired : Option CredentialRef) (o r : CredentialRef)
    → different old desired ≡ some o
    → desired ≡ some r
    → ref_eq o r ≡ false
different-apart none desired o r h k = cc
different-apart (some old) none o r h k = cc
different-apart (some old) (some new) o r h k = elim (Bool-cases (ref_eq new old)) [
  | inl same ↦ absurd (none_is_no_some (rw same at h))
  | inr other ↦ elim (Bool-cases (ref_eq o r)) [
    | inr apart ↦ apart
    | inl equal ↦
        let a : old ≡ o = some_inj (rw other at h) in
        let b : new ≡ r = some_inj k in
        let c : new ≡ old = b ∙ sym (eq_of_ref_eq o r equal) ∙ sym a in
        absurd (true_is_no_false (sym (text_eq_refl new.key) ∙ ap (ref_eq new) c ∙ other))
  ]
]
  where
    some_inj : {a b : CredentialRef} → ◌≡◌ {A = Option CredentialRef} (some a) (some b) → a ≡ b
    some_inj h = cc

    none_is_no_some : {a : CredentialRef} → ¬ (◌≡◌ {A = Option CredentialRef} none (some a))
    none_is_no_some h = cc

    true_is_no_false : ¬ (◌≡◌ {A = Bool} true false)
    true_is_no_false h = cc
