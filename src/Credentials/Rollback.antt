-- ===== src/Credentials/Rollback.antt =====
-- What is undone after a failure: every reference holds the secret that it held before.
use oxide_ssh.Prelude.{
  true, false, Option, none, some, Result, ok, err, ◌≡◌, refl, sym, ap, ◌∙◌, arith,
}
use oxide_ssh.Model.Types.{Text, CredentialRef}
use oxide_ssh.Credentials.Types.{CredentialError, CredentialStore, IsCredentialStore, ref_eq, agree}
use oxide_ssh.Credentials.Steps.{Credential, succeeded, rollback_written, restore_deleted, undo}

succeeded-true :
    {K : Type 0} (x : K × Result CredentialError (Unit {0}))
    → (succeeded x).1 ≡ true
    → (x.1 ≡ ok tt) × ((succeeded x).0 ≡ x.0)
succeeded-true (k, ok u) h = (refl, refl)
succeeded-true (k, err e) h = cc

module _ {K : Type 0} (held : K → CredentialRef → Option Text) where
  -- Every reference holds the same secret in both states.
  abbrev pub Same : K → K → Type 0
  Same k k' = (q : CredentialRef) → held k' q ≡ held k q

  abbrev pub Others : CredentialRef → K → K → Type 0
  Others r k k' = (q : CredentialRef) → ref_eq r q ≡ false → held k' q ≡ held k q

  -- The second state differs from the first at most where the credential was written, and the
  -- credential remembers what stood there.
  abbrev pub Wrote : K → K → Option Credential → Type 0
  Wrote k k' none = Same k k'
  Wrote k k' (some (r, previous)) = (held k r ≡ previous) × Others r k k'

  -- The same of a credential that is gone in the second state.
  abbrev pub Deleted : K → K → Option Credential → Type 0
  Deleted k k' none = Same k k'
  Deleted k k' (some (r, previous)) = (held k r ≡ previous) × (held k' r ≡ none) × Others r k k'

  pub Wrote-Same : (k k' l : K) (w : Option Credential) → Wrote k k' w → Same k' l → Wrote k l w
  Wrote-Same k k' l none h s = λ q. s q ∙ h q
  Wrote-Same k k' l (some (r, previous)) h s = (h.0, λ q d. s q ∙ h.1 q d)

  module _ ⦃keys : CredentialStore K⦄ (law : IsCredentialStore keys held) where
    put_back :
        (k k' : K) (r : CredentialRef) (s : Text)
        → held k r ≡ some s
        → Others r k k'
        → (succeeded (keys.put k' r s)).1 ≡ true
        → Same k (succeeded (keys.put k' r s)).0
    put_back k k' r s here others h =
        let (won, same) = succeeded-true (keys.put k' r s) h in
        λ q.
          ap (λ l. held l q) same
          ∙ agree (held (keys.put k' r s).0) (held k) r (law.put_writes k' r s won ∙ sym here)
              (λ p d. law.put_others k' r p s d ∙ others p d) q

    pub rollback_written_lem :
        (k k' : K) (w : Option Credential)
        → Wrote k k' w
        → (rollback_written k' w).1 ≡ true
        → Same k (rollback_written k' w).0
    unfolding rollback_written
    rollback_written_lem k k' none w h = w
    rollback_written_lem k k' (some (r, some s)) w h = put_back k k' r s w.0 w.1 h
    rollback_written_lem k k' (some (r, none)) w h =
        let (won, same) = succeeded-true (keys.delete k' r) h in
        λ q.
          ap (λ l. held l q) same
          ∙ agree (held (keys.delete k' r).0) (held k) r (law.delete_removes k' r won ∙ sym w.0)
              (λ p d. law.delete_others k' r p d ∙ w.1 p d) q

    pub restore_deleted_lem :
        (k k' : K) (d : Option Credential)
        → Deleted k k' d
        → (restore_deleted k' d).1 ≡ true
        → Same k (restore_deleted k' d).0
    unfolding restore_deleted
    restore_deleted_lem k k' none d h = d
    restore_deleted_lem k k' (some (r, some s)) d h = put_back k k' r s d.0 d.2 h
    restore_deleted_lem k k' (some (r, none)) d h = agree (held k') (held k) r (d.1 ∙ sym d.0) d.2

    pub undo_lem :
        (k k1 k2 : K) (w d : Option Credential)
        → Wrote k k1 w
        → Deleted k1 k2 d
        → (undo k2 d w).1 ≡ true
        → Same k (undo k2 d w).0
    unfolding undo
    undo_lem k k1 k2 w d wrote deleted h =
        let x = restore_deleted k2 d in
        let back : Same k1 x.0 = restore_deleted_lem k1 k2 d deleted (ground arith) in
        rollback_written_lem k x.0 w (Wrote-Same k k1 x.0 w wrote back) (ground arith)
