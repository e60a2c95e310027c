-- ===== src/Credentials/KeyringLaws.antt =====
-- `SystemCredentialStore` over a keyring that keeps what it is given.
use oxide_ssh.Prelude.{false, Option, none, some, Result, ok, err, ◌≡◌, refl, ap, ◌∙◌}
use oxide_ssh.Model.Types.{Text, CredentialRef}
use oxide_ssh.Model.Text.{text_eq}
use oxide_ssh.Credentials.Types.{CredentialError, IsCredentialStore}
use oxide_ssh.Credentials.Keyring.{
  KeyringError, no_entry, Keyring, application_identifier, read_answer, put_answer, delete_answer,
  behind, entry, get, put, delete, system_credential_store,
}

-- A keyring that a transaction can be rolled back on: `held` is the password of a service's user. A
-- read gives it, or that there is no entry; a write that succeeds changes it for its own user alone;
-- the deletion of an entry that is not there answers so; an operation that fails changes nothing. The
-- last of these is more than the crate documents.
pub record IsKeyring {K : Type 0} (ring : Keyring K) (held : K → Text → Text → Option Text)
    : Type 0 where
  pub get_keeps : (k : K) (s u t v : Text) → held (ring.get_password k s u).0 t v ≡ held k t v
  pub get_reads : (k : K) (s u p : Text) → (ring.get_password k s u).1 ≡ ok p → held k s u ≡ some p
  pub get_misses :
      (k : K) (s u : Text) → (ring.get_password k s u).1 ≡ err no_entry → held k s u ≡ none
  pub set_writes :
      (k : K) (s u p : Text)
      → (ring.set_password k s u p).1 ≡ ok tt
      → held (ring.set_password k s u p).0 s u ≡ some p
  pub set_others :
      (k : K) (s u v p : Text)
      → text_eq u v ≡ false
      → held (ring.set_password k s u p).0 s v ≡ held k s v
  pub set_fails :
      (k : K) (s u t v p : Text) (e : KeyringError)
      → (ring.set_password k s u p).1 ≡ err e
      → held (ring.set_password k s u p).0 t v ≡ held k t v
  pub delete_removes :
      (k : K) (s u : Text)
      → (ring.delete_credential k s u).1 ≡ ok tt
      → held (ring.delete_credential k s u).0 s u ≡ none
  pub delete_misses :
      (k : K) (s u : Text)
      → (ring.delete_credential k s u).1 ≡ err no_entry
      → held (ring.delete_credential k s u).0 s u ≡ none
  pub delete_others :
      (k : K) (s u v : Text)
      → text_eq u v ≡ false
      → held (ring.delete_credential k s u).0 s v ≡ held k s v
  pub delete_fails :
      (k : K) (s u t v : Text) (e : KeyringError)
      → (ring.delete_credential k s u).1 ≡ err e
      → held (ring.delete_credential k s u).0 t v ≡ held k t v

-- Which answers of the crate stand behind an answer of the store.
module _ {K : Type 0} where
  read_ok :
      (k : K) (gate : Result CredentialError (Unit {0})) (k' : K)
      (answer : Result KeyringError Text) (v : Option Text) (h : Option Text)
      → ((p : Text) → answer ≡ ok p → h ≡ some p)
      → (answer ≡ err no_entry → h ≡ none)
      → (behind k gate (read_answer (k', answer))).1 ≡ ok v
      → h ≡ v
  read_ok k (err e) k' answer v h hit miss r = cc
  read_ok k (ok u) k' (ok p) v h hit miss r = let a : h ≡ some p = hit p refl in cc
  read_ok k (ok u) k' (err no_entry) v h hit miss r = let a : h ≡ none = miss refl in cc
  read_ok k (ok u) k' (err _) v h hit miss r = cc

  -- What a state shows is kept by the gate.
  gated :
      {A B : Type 0} (show : K → B) (k : K) (gate : Result CredentialError (Unit {0}))
      (x : K × Result CredentialError A)
      → show x.0 ≡ show k
      → show (behind k gate x).0 ≡ show k
  gated show k (ok u) x h = h
  gated show k (err e) x h = refl

  read_state : (k' : K) (answer : Result KeyringError Text) → (read_answer (k', answer)).0 ≡ k'
  read_state k' (ok p) = refl
  read_state k' (err no_entry) = refl
  read_state k' (err _) = refl

  delete_state :
      (k' : K) (answer : Result KeyringError (Unit {0})) → (delete_answer (k', answer)).0 ≡ k'
  delete_state k' (ok p) = refl
  delete_state k' (err no_entry) = refl
  delete_state k' (err _) = refl

  put_ok :
      {B : Type 0} (show : K → B) (k : K) (gate : Result CredentialError (Unit {0})) (k' : K)
      (answer : Result KeyringError (Unit {0})) (b : B)
      → (answer ≡ ok tt → show k' ≡ b)
      → (behind k gate (put_answer (k', answer))).1 ≡ ok tt
      → show (behind k gate (put_answer (k', answer))).0 ≡ b
  put_ok show k (err e) k' answer b won h = cc
  put_ok show k (ok u) k' (ok v) b won h = won refl
  put_ok show k (ok u) k' (err e) b won h = cc

  put_err :
      {B : Type 0} (show : K → B) (k : K) (gate : Result CredentialError (Unit {0})) (k' : K)
      (answer : Result KeyringError (Unit {0})) (e : CredentialError)
      → ((e : KeyringError) → answer ≡ err e → show k' ≡ show k)
      → (behind k gate (put_answer (k', answer))).1 ≡ err e
      → show (behind k gate (put_answer (k', answer))).0 ≡ show k
  put_err show k (err e) k' answer f lost h = refl
  put_err show k (ok u) k' (ok v) f lost h = cc
  put_err show k (ok u) k' (err e) f lost h = lost e refl

  delete_ok :
      {B : Type 0} (show : K → B) (k : K) (gate : Result CredentialError (Unit {0})) (k' : K)
      (answer : Result KeyringError (Unit {0})) (b : B)
      → (answer ≡ ok tt → show k' ≡ b)
      → (answer ≡ err no_entry → show k' ≡ b)
      → (behind k gate (delete_answer (k', answer))).1 ≡ ok tt
      → show (behind k gate (delete_answer (k', answer))).0 ≡ b
  delete_ok show k (err e) k' answer b won missed h = cc
  delete_ok show k (ok u) k' (ok v) b won missed h = won refl
  delete_ok show k (ok u) k' (err no_entry) b won missed h = missed refl
  delete_ok show k (ok u) k' (err _) b won missed h = cc

  delete_err :
      {B : Type 0} (show : K → B) (k : K) (gate : Result CredentialError (Unit {0})) (k' : K)
      (answer : Result KeyringError (Unit {0})) (e : CredentialError)
      → ((e : KeyringError) → answer ≡ err e → show k' ≡ show k)
      → (behind k gate (delete_answer (k', answer))).1 ≡ err e
      → show (behind k gate (delete_answer (k', answer))).0 ≡ show k
  delete_err show k (err e) k' answer f lost h = refl
  delete_err show k (ok u) k' (ok v) f lost h = cc
  delete_err show k (ok u) k' (err no_entry) f lost h = cc
  delete_err show k (ok u) k' (err _) f lost h = lost _ refl

-- The secret under a reference is the password of the application's user with its key.
abbrev pub held_by :
    {K : Type 0} → (K → Text → Text → Option Text) → K → CredentialRef → Option Text
held_by held k r = held k application_identifier r.key

-- Over a keyring that keeps what it is given, the store is one that the transactions can rely on:
-- reads answer what was last written, writes touch no other reference, and failures change nothing.
pub system_credential_store-IsCredentialStore :
    {K : Type 0} (ring : Keyring K) (held : K → Text → Text → Option Text)
    → IsKeyring ring held
    → IsCredentialStore (system_credential_store ⦃ring = ring⦄) (held_by held)
unfolding system_credential_store get put delete
system_credential_store-IsCredentialStore ring held law =
    let app = application_identifier in
    let gate = λ (r : CredentialRef). entry ring.new_entry r in
    record {
      get_keeps = λ k r q.
          let x = ring.get_password k app r.key in
          gated (λ l. held_by held l q) k (gate r) (read_answer x)
            (ap (λ l. held_by held l q) (read_state x.0 x.1) ∙ law.get_keeps k app r.key app q.key);
      get_reads = λ k r v h.
          let x = ring.get_password k app r.key in
          read_ok k (gate r) x.0 x.1 v (held_by held k r) (law.get_reads k app r.key)
            (law.get_misses k app r.key) h;
      put_writes = λ k r s h.
          let x = ring.set_password k app r.key s in
          put_ok (λ l. held_by held l r) k (gate r) x.0 x.1 (some s) (law.set_writes k app r.key s)
            h;
      put_others = λ k r q s d.
          gated (λ l. held_by held l q) k (gate r) (put_answer (ring.set_password k app r.key s))
            (law.set_others k app r.key q.key s d);
      put_fails = λ k r q s e h.
          let x = ring.set_password k app r.key s in
          put_err (λ l. held_by held l q) k (gate r) x.0 x.1 e
            (λ f g. law.set_fails k app r.key app q.key s f g) h;
      delete_removes = λ k r h.
          let x = ring.delete_credential k app r.key in
          delete_ok (λ l. held_by held l r) k (gate r) x.0 x.1 none (law.delete_removes k app r.key)
            (law.delete_misses k app r.key) h;
      delete_others = λ k r q d.
          let x = ring.delete_credential k app r.key in
          gated (λ l. held_by held l q) k (gate r) (delete_answer x)
            (ap (λ l. held_by held l q) (delete_state x.0 x.1)
              ∙ law.delete_others k app r.key q.key d);
      delete_fails = λ k r q e h.
          let x = ring.delete_credential k app r.key in
          delete_err (λ l. held_by held l q) k (gate r) x.0 x.1 e
            (λ f g. law.delete_fails k app r.key app q.key f g) h;
    }
