-- ===== src/Credentials/KeyringReads.antt =====
-- crates/oxide-ssh-desktop/src/credentials.rs: what `SystemCredentialStore` reads after it has written
-- or deleted.
use oxide_ssh.Prelude.{ok, err, ◌≡◌}
use oxide_ssh.Model.Types.{Text}
use oxide_ssh.Credentials.Keyring.{no_entry, Keyring}

-- The crate's documented behaviour. A password that was set is read; where there is no entry, after a
-- deletion or since the deletion has found none, a read answers `NoEntry`. What a failed call leaves
-- behind is not documented and not assumed.
pub record ReadsBack {K : Type 0} (ring : Keyring K) : Type 0 where
  pub set_get :
      (k : K) (s u p : Text)
      → (ring.set_password k s u p).1 ≡ ok tt
      → (ring.get_password (ring.set_password k s u p).0 s u).1 ≡ ok p
  pub delete_get :
      (k : K) (s u : Text)
      → (ring.delete_credential k s u).1 ≡ ok tt
      → (ring.get_password (ring.delete_credential k s u).0 s u).1 ≡ err no_entry
  pub missed_get :
      (k : K) (s u : Text)
      → (ring.delete_credential k s u).1 ≡ err no_entry
      → (ring.get_password (ring.delete_credential k s u).0 s u).1 ≡ err no_entry
