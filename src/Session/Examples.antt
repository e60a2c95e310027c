-- ===== src/Session/Examples.antt =====
-- A session at a concrete server: tests and witnesses.
use oxide_ssh.Prelude.{ℕ, true, false, List, [], ◌∷◌, none, some, ok, err, ◌≡◌, refl}
use oxide_ssh.Session.Events.{
  SessionState, SessionEvent, state_changed, output, exited, connecting, verifying_host_key,
  authenticating, opening_shell, connected,
}
use oxide_ssh.Session.Authenticate.{Server, key_is_encrypted, authenticate, with_password}
use oxide_ssh.Session.Connection.{
  ConnectTurn, key_presented, verified, made, waited, awaiting_changed, Turn, next_input, message,
  data_msg, exit_status, eof, Opening, run_session, session_task, first_sent,
}
use oxide_ssh.Session.ConnectionLaws.{session_task-connected}
use oxide_ssh.Session.AuthenticateLaws.{IsAccepted}
use oxide_ssh.Storage.Config.{canonicalize_endpoint}
use oxide_ssh.Storage.Samples.{plain_texts}
use oxide_ssh.Model.Validate.{bad_host}
use oxide_ssh.Credentials.Samples.{profile_5}

-- A server that takes every password and has no agent.
abbrev lenient : Server ℕ ℕ ℕ
lenient = record {
  file_opens = λ path. true;
  load_secret_key = λ path passphrase. err key_is_encrypted;
  is_rsa = λ key. false;
  is_rsa_identity = λ identity. false;
  best_supported_rsa_hash = none;
  authenticate_password = λ username s. some true;
  authenticate_publickey = λ username key hash. none;
  connect_agent = ok tt;
  request_identities = some [];
  authenticate_publickey_with = λ attempt username identity hash. none;
}

abbrev opening : Opening
opening = record { opens_channel = true; takes_pty = true; takes_shell = true }

-- The key is known after a minute of waiting for the user, which is more than the first deadline.
abbrev connect_turns : List ConnectTurn
connect_turns =
    waited 3
    ∷ key_presented
    ∷ awaiting_changed (some true)
    ∷ waited 60
    ∷ verified (ok tt)
    ∷ awaiting_changed (some false)
    ∷ made (ok tt)
    ∷ []

abbrev turns : List Turn
turns =
    message (some (data_msg (b'$' ∷ [])))
    ∷ next_input (some (b'x' ∷ [], true))
    ∷ message (some (exit_status 3))
    ∷ message (some eof)
    ∷ []

abbrev told : List SessionEvent
told =
    state_changed connecting
    ∷ state_changed verifying_host_key
    ∷ state_changed authenticating
    ∷ state_changed opening_shell
    ∷ state_changed connected
    ∷ output (b'$' ∷ [])
    ∷ exited (some 3)
    ∷ state_changed SessionState.disconnected
    ∷ []

runs :
    session_task lenient 100 (profile_5 none) (some (b's' ∷ [])) connect_turns opening turns none
    ≡ some told
unfolding session_task run_session canonicalize_endpoint authenticate with_password plain_texts
    bad_host
runs = refl

-- A session that is aborted once it has shown itself connected.
aborts :
    session_task lenient 100
      (profile_5 none)
      (some (b's' ∷ []))
      connect_turns
      opening
      turns
      (some 5)
    ≡ some (first_sent 5 told)
unfolding session_task run_session canonicalize_endpoint authenticate with_password plain_texts
    bad_host
aborts = refl

session_task-connected_example :
    IsAccepted lenient (profile_5 none).username (profile_5 none).auth (some (b's' ∷ []))
    × (opening.opens_channel ≡ true)
    × (opening.takes_pty ≡ true)
    × (opening.takes_shell ≡ true)
session_task-connected_example =
    session_task-connected lenient 100 (profile_5 none) (some (b's' ∷ [])) connect_turns opening
      turns (some 5) (first_sent 5 told) aborts refl
