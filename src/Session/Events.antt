-- ===== src/Session/Events.antt =====
-- crates/oxide-ssh-core/src/session.rs: what a session tells its tab, and its errors.
use oxide_ssh.Prelude.{ℕ, Bool, true, false, List, Option}
use oxide_ssh.Model.Types.{Uuid, Text, Endpoint}

pub data HostKeyDecision : Type 0 where
  accept_and_store reject : HostKeyDecision

pub data SessionState : Type 0 where
  connecting verifying_host_key authenticating opening_shell connected disconnected : SessionState

pub data SendInputError : Type 0 where
  queue_full closed : SendInputError

pub data SessionError : Type 0 where
  invalid_profile connect_timeout connect_failed host_key_rejected : SessionError
  host_key_changed host_key_store_failed credential_unavailable : SessionError
  private_key_unreadable private_key_passphrase_required : SessionError
  private_key_passphrase_rejected agent_unavailable agent_empty : SessionError
  authentication_rejected pty_rejected shell_rejected : SessionError
  local_shell_failed disconnected : SessionError

pub data SessionEvent : Type 0 where
  state_changed : SessionState → SessionEvent
  unknown_host_key : Uuid → Endpoint → Text → Text → SessionEvent
  changed_host_key : Endpoint → Text → Text → SessionEvent
  output : List ℕ → SessionEvent
  bell : SessionEvent
  exited : Option ℕ → SessionEvent
  error : SessionError → SessionEvent

-- `*error == SessionError::HostKeyChanged`.
abbrev pub is_host_key_changed : SessionError → Bool
is_host_key_changed host_key_changed = true
is_host_key_changed _ = false
