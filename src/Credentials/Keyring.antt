-- ===== src/Credentials/Keyring.antt =====
-- crates/oxide-ssh-desktop/src/credentials.rs: `SystemCredentialStore`. The keyring crate is a
-- parameter; an entry of it is the service and the user that it was made for.
use oxide_ssh.Prelude.{[], ◌∷◌, Option, none, some, Result, ok, err, map_err}
use oxide_ssh.Model.Types.{Text, CredentialRef}
use oxide_ssh.Credentials.Types.{
  CredentialError, unavailable, access_denied, invalid_reference, corrupt, ambiguous, unsupported,
  CredentialStore,
}

-- The variants that the source tells apart, and `other` for what the crate may add.
pub data KeyringError : Type 0 where
  no_entry no_storage_access too_long invalid bad_encoding bad_data_format bad_store_format :
      KeyringError
  ambiguous_entry not_supported_by_store platform_failure no_default_store other : KeyringError

pub record Keyring (K : Type 0) : Type 0 where
  pub new_entry : Text → Text → Result KeyringError (Unit {0})
  pub get_password : K → Text → Text → K × Result KeyringError Text
  pub set_password : K → Text → Text → Text → K × Result KeyringError (Unit {0})
  pub delete_credential : K → Text → Text → K × Result KeyringError (Unit {0})

abbrev pub application_identifier : Text
application_identifier =
    b'i' ∷ b'o' ∷ b'.' ∷ b'g' ∷ b'i' ∷ b't' ∷ b'h' ∷ b'u' ∷ b'b' ∷ b'.' ∷ b'l' ∷ b'i' ∷ b'n' ∷ b'k'
    ∷ b'o' ∷ b'-' ∷ b'z' ∷ b'h' ∷ b'a' ∷ b'o' ∷ b'.' ∷ b'O' ∷ b'x' ∷ b'i' ∷ b'd' ∷ b'e' ∷ b'S'
    ∷ b'S' ∷ b'H' ∷ []

unfoldable pub map_keyring_error : KeyringError → CredentialError
map_keyring_error no_storage_access = access_denied
map_keyring_error too_long = invalid_reference
map_keyring_error invalid = invalid_reference
map_keyring_error bad_encoding = corrupt
map_keyring_error bad_data_format = corrupt
map_keyring_error bad_store_format = corrupt
map_keyring_error ambiguous_entry = ambiguous
map_keyring_error not_supported_by_store = unsupported
map_keyring_error _ = unavailable

abbrev pub entry_for :
    (Text → Text → Result KeyringError (Unit {0})) → Text → Result CredentialError (Unit {0})
entry_for new_entry [] = err invalid_reference
entry_for new_entry (c ∷ cs) = map_err map_keyring_error (new_entry application_identifier (c ∷ cs))

-- The function, given `Entry::new`.
unfoldable pub entry :
    (Text → Text → Result KeyringError (Unit {0}))
    → CredentialRef
    → Result CredentialError (Unit {0})
entry new_entry r = entry_for new_entry r.key

module _ {K : Type 0} where
  -- The answers of the crate, as the store gives them on.
  abbrev pub read_answer : K × Result KeyringError Text → K × Result CredentialError (Option Text)
  read_answer (k, ok password) = (k, ok (some password))
  read_answer (k, err no_entry) = (k, ok none)
  read_answer (k, err e) = (k, err (map_keyring_error e))

  abbrev pub put_answer : K × Result KeyringError (Unit {0}) → K × Result CredentialError (Unit {0})
  put_answer (k, answer) = (k, map_err map_keyring_error answer)

  abbrev pub delete_answer :
      K × Result KeyringError (Unit {0}) → K × Result CredentialError (Unit {0})
  delete_answer (k, ok u) = (k, ok tt)
  delete_answer (k, err no_entry) = (k, ok tt)
  delete_answer (k, err e) = (k, err (map_keyring_error e))

  -- `Self::entry(reference)?` in front of an operation.
  abbrev pub behind :
      {A : Type 0}
      → K
      → Result CredentialError (Unit {0})
      → K × Result CredentialError A
      → K × Result CredentialError A
  behind k (ok u) x = x
  behind k (err e) x = (k, err e)

  module _ ⦃ring : Keyring K⦄ where
    unfoldable pub get : K → CredentialRef → K × Result CredentialError (Option Text)
    get k r =
        behind k (entry ring.new_entry r)
          (read_answer (ring.get_password k application_identifier r.key))

    unfoldable pub put : K → CredentialRef → Text → K × Result CredentialError (Unit {0})
    put k r secret =
        behind k (entry ring.new_entry r)
          (put_answer (ring.set_password k application_identifier r.key secret))

    unfoldable pub delete : K → CredentialRef → K × Result CredentialError (Unit {0})
    delete k r =
        behind k (entry ring.new_entry r)
          (delete_answer (ring.delete_credential k application_identifier r.key))

    unfoldable pub system_credential_store : CredentialStore K
    unfolding get put delete
    system_credential_store = record { get = get; put = put; delete = delete }
