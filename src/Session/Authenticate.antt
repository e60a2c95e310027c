-- ===== src/Session/Authenticate.antt =====
-- crates/oxide-ssh-core/src/session.rs: `authenticate` and `private_key_requires_passphrase`. What russh
-- and the system answer is a parameter; a call that fails there is `none`.
use oxide_ssh.Prelude.{
  ℕ, suc, Bool, true, false, not, List, [], ◌∷◌, Option, none, some, Result, ok, err, ok_or,
  fail_if, map_err, if◌then◌else◌, ◌>>=◌, ◌>>◌,
}
use oxide_ssh.Model.Types.{Text, AuthConfig, password, private_key, agent, ConnectionProfile}
use oxide_ssh.Session.Events.{
  SessionError, connect_failed, credential_unavailable, private_key_unreadable,
  private_key_passphrase_required, private_key_passphrase_rejected, agent_unavailable, agent_empty,
  authentication_rejected,
}

-- russh's errors on a key file, as far as the source tells them apart.
pub data KeyError : Type 0 where
  key_is_encrypted other_key_error : KeyError

-- `Key`, `Identity` and `Hash` are russh's keys, the agent's identities and hash algorithms. An attempt
-- with an identity is numbered. An answer to an attempt says whether it succeeded.
pub record Server (Key Identity Hash : Type 0) : Type 0 where
  pub file_opens : Text → Bool
  pub load_secret_key : Text → Option Text → Result KeyError Key
  pub is_rsa : Key → Bool
  pub is_rsa_identity : Identity → Bool
  pub best_supported_rsa_hash : Option (Option Hash)
  pub authenticate_password : Text → Text → Option Bool
  pub authenticate_publickey : Text → Key → Option Hash → Option Bool
  pub connect_agent : Result SessionError (Unit {0})
  pub request_identities : Option (List Identity)
  pub authenticate_publickey_with : ℕ → Text → Identity → Option Hash → Option Bool

-- The closure on a key that does not load.
abbrev pub key_error : Option Text → KeyError → SessionError
key_error none key_is_encrypted = private_key_passphrase_required
key_error none other_key_error = private_key_unreadable
key_error (some passphrase) e = private_key_passphrase_rejected

module _ {Key Identity Hash : Type 0} (server : Server Key Identity Hash) where
  abbrev pub passphrase_answer : Result KeyError Key → Result SessionError Bool
  passphrase_answer (ok key) = ok false
  passphrase_answer (err key_is_encrypted) = ok true
  passphrase_answer (err other_key_error) = err private_key_unreadable

  unfoldable pub private_key_requires_passphrase : Text → Result SessionError Bool
  private_key_requires_passphrase path =
      if not (server.file_opens path)
      then err private_key_unreadable
      else passphrase_answer (server.load_secret_key path none)

  -- `hash_alg`, for a key that may be an RSA key.
  abbrev pub hash_alg : Bool → Result SessionError (Option Hash)
  hash_alg false = ok none
  hash_alg true = ok_or server.best_supported_rsa_hash connect_failed

  unfoldable pub with_password : Text → Option Text → Result SessionError Bool
  with_password username secret = do
    s ← ok_or secret credential_unavailable
    ok_or (server.authenticate_password username s) connect_failed

  unfoldable pub with_private_key : Text → Text → Option Text → Result SessionError Bool
  with_private_key username path secret = do
    fail_if (not (server.file_opens path)) private_key_unreadable
    key ← map_err (key_error secret) (server.load_secret_key path secret)
    hash ← hash_alg (server.is_rsa key)
    ok_or (server.authenticate_publickey username key hash) connect_failed

  -- One identity of the loop.
  abbrev pub try_identity : Text → ℕ → Identity → Result SessionError Bool
  try_identity username attempt identity = do
    hash ← hash_alg (server.is_rsa_identity identity)
    ok_or (server.authenticate_publickey_with attempt username identity hash) agent_unavailable

  -- `authenticated`, and the loop's `break`.
  abbrev pub or_next :
      Result SessionError Bool → Result SessionError Bool → Result SessionError Bool
  or_next (err e) rest = err e
  or_next (ok true) rest = ok true
  or_next (ok false) rest = rest

  abbrev pub try_identities : Text → ℕ → List Identity → Result SessionError Bool
  try_identities username attempt [] = ok false
  try_identities username attempt (identity ∷ rest) =
      or_next (try_identity username attempt identity) (try_identities username (suc attempt) rest)

  abbrev pub is_no_identity : List Identity → Bool
  is_no_identity [] = true
  is_no_identity (i ∷ is) = false

  unfoldable pub with_agent : Text → Result SessionError Bool
  with_agent username = do
    server.connect_agent
    identities ← ok_or server.request_identities agent_unavailable
    fail_if (is_no_identity identities) agent_empty
    try_identities username 0 identities

  abbrev pub accepted : Text → AuthConfig → Option Text → Result SessionError Bool
  accepted username (password reference) secret = with_password username secret
  accepted username (private_key path reference) secret = with_private_key username path secret
  accepted username agent secret = with_agent username

  unfoldable pub authenticate : ConnectionProfile → Option Text → Result SessionError (Unit {0})
  unfolding with_password with_private_key with_agent
  authenticate profile secret = do
    success ← accepted profile.username profile.auth secret
    fail_if (not success) authentication_rejected
