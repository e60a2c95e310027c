-- ===== src/Credentials/Types.antt =====
-- crates/oxide-ssh-core/src/credentials.rs, and the types and helpers of
-- crates/oxide-ssh-desktop/src/credentials.rs. A secret is its text.
use oxide_ssh.Prelude.{
  Bool, false, Option, none, some, Result, ok, err, Bool-cases, ◌≡◌, sym, ap, ◌∙◌, inl, inr,
}
use oxide_ssh.Model.Types.{
  Text, CredentialRef, AuthConfig, password, private_key, agent, ConnectionProfile, ProfileId,
}
use oxide_ssh.Model.Text.{text_eq, eq_of_text_eq}
use oxide_ssh.Model.Validate.{Texts, ProfileValidationError, password_ref, private_key_passphrase}
use oxide_ssh.Storage.Types.{StorageError}

pub data CredentialError : Type 0 where
  unavailable access_denied invalid_reference corrupt ambiguous unsupported : CredentialError

-- The trait, over the state that its operations read and write.
pub record CredentialStore (K : Type 0) : Type 0 where
  pub get : K → CredentialRef → K × Result CredentialError (Option Text)
  pub put : K → CredentialRef → Text → K × Result CredentialError (Unit {0})
  pub delete : K → CredentialRef → K × Result CredentialError (Unit {0})

-- `==` on references.
abbrev pub ref_eq : CredentialRef → CredentialRef → Bool
ref_eq a b = text_eq a.key b.key

-- What the transactions rely on. `held` is the secret that a state holds under a reference: a read
-- that answers gives it and changes nothing, and a write that succeeds changes it for its own
-- reference alone. An operation that fails changes nothing.
pub record IsCredentialStore {K : Type 0} (keys : CredentialStore K)
    (held : K → CredentialRef → Option Text) : Type 0 where
  pub get_keeps : (k : K) (r q : CredentialRef) → held (keys.get k r).0 q ≡ held k q
  pub get_reads :
      (k : K) (r : CredentialRef) (v : Option Text) → (keys.get k r).1 ≡ ok v → held k r ≡ v
  pub put_writes :
      (k : K) (r : CredentialRef) (s : Text)
      → (keys.put k r s).1 ≡ ok tt
      → held (keys.put k r s).0 r ≡ some s
  pub put_others :
      (k : K) (r q : CredentialRef) (s : Text)
      → ref_eq r q ≡ false
      → held (keys.put k r s).0 q ≡ held k q
  pub put_fails :
      (k : K) (r q : CredentialRef) (s : Text) (e : CredentialError)
      → (keys.put k r s).1 ≡ err e
      → held (keys.put k r s).0 q ≡ held k q
  pub delete_removes :
      (k : K) (r : CredentialRef) → (keys.delete k r).1 ≡ ok tt → held (keys.delete k r).0 r ≡ none
  pub delete_others :
      (k : K) (r q : CredentialRef) → ref_eq r q ≡ false → held (keys.delete k r).0 q ≡ held k q
  pub delete_fails :
      (k : K) (r q : CredentialRef) (e : CredentialError)
      → (keys.delete k r).1 ≡ err e
      → held (keys.delete k r).0 q ≡ held k q

pub record SaveProfileRequest : Type 0 where
  pub profile : ConnectionProfile
  pub previous : Option ConnectionProfile
  pub secret : Option Text
  pub remember : Bool

pub record SaveProfileOutcome : Type 0 where
  pub profile : ConnectionProfile
  pub connect_secret : Option Text

pub data CredentialTransactionError : Type 0 where
  credential : CredentialError → CredentialTransactionError
  storage : StorageError → CredentialTransactionError
  invalid_profile : ProfileValidationError → CredentialTransactionError
  missing_secret profile_mismatch profile_not_found rollback_failed : CredentialTransactionError

unfoldable pub credential_reference : AuthConfig → Option CredentialRef
credential_reference (password reference) = reference
credential_reference (private_key path reference) = reference
credential_reference agent = none

unfoldable pub expected_reference : ⦃texts : Texts⦄ → ProfileId → AuthConfig → Option CredentialRef
expected_reference id (password reference) = some (password_ref id)
expected_reference id (private_key path reference) = some (private_key_passphrase id)
expected_reference id agent = none

unfoldable pub set_credential_reference : AuthConfig → Option CredentialRef → AuthConfig
set_credential_reference (password old) reference = password reference
set_credential_reference (private_key path old) reference = private_key path reference
set_credential_reference agent reference = agent

pub eq_of_ref_eq : (a b : CredentialRef) → ref_eq a b ≡ Bool.true → a ≡ b
eq_of_ref_eq a b h i = record { key = eq_of_text_eq a.key b.key h i }

-- Two states agree everywhere if they agree at a reference and beside it.
pub agree {ℓ} :
    {A : Type ℓ} (f g : CredentialRef → A) (r : CredentialRef)
    → f r ≡ g r
    → ((q : CredentialRef) → ref_eq r q ≡ false → f q ≡ g q)
    → (q : CredentialRef) → f q ≡ g q
agree f g r here others q = elim (Bool-cases (ref_eq r q)) [
  | inl same ↦ let e : r ≡ q = eq_of_ref_eq r q same in sym (ap f e) ∙ here ∙ ap g e
  | inr other ↦ others q other
]
