-- ===== src/Session/Handle.antt =====
-- crates/oxide-ssh-core/src/session.rs: `SessionHandle`, and crates/oxide-ssh-core/src/local.rs:
-- `LocalSessionHandle`. The input queue is the sending end of a channel of the async-channel
-- crate: its type `Q` and its operations are a parameter. The task at the other end changes the
-- queue too; what a handle sees of that is in what `try_send` answers.
use oxide_ssh.Prelude.{
  ℕ, Bool, true, false, List, Option, none, some, Result, ok, err, if◌then◌else◌,
}
use oxide_ssh.Model.Types.{SessionId, TerminalSize, is_valid}
use oxide_ssh.Session.Events.{SendInputError, queue_full, closed}

pub data TrySendError : Type 0 where
  full_queue closed_queue : TrySendError

pub record Channel (Q : Type 0) : Type 0 where
  pub try_send : Q → List ℕ → Result TrySendError Q
  pub close : Q → Q

-- `events` says whether the receiver is still in the handle; `latest_size` is the value of the
-- watch channel, or the last size that was queued for the local resize thread; `stopped` that the
-- task's token was cancelled, or the local shell killed.
pub record Handle (Q : Type 0) : Type 0 where
  pub id : SessionId
  pub events : Bool
  pub input : Q
  pub latest_size : TerminalSize
  pub stopped : Bool
  pub disconnect_started : Bool

abbrev send_error : TrySendError → SendInputError
send_error full_queue = queue_full
send_error closed_queue = closed

module _ {Q : Type 0} where
  -- `self.events.take()`: whether a receiver came out, and the handle after it.
  unfoldable pub take_events : Handle Q → Option (Handle Q)
  take_events h = if h.events then some (record h { events = false }) else none

  unfoldable pub resize : Handle Q → TerminalSize → Handle Q
  resize h size = if is_valid size then record h { latest_size = size } else h

  module _ ⦃channel : Channel Q⦄ where
    abbrev with_input : Handle Q → Result TrySendError Q → Result SendInputError (Handle Q)
    with_input h (ok q) = ok (record h { input = q })
    with_input h (err e) = err (send_error e)

    unfoldable pub try_send_input : Handle Q → List ℕ → Result SendInputError (Handle Q)
    try_send_input h bytes = with_input h (channel.try_send h.input bytes)

    -- The swap of `disconnect_started` makes a second call return at once. The abort of the task
    -- after the grace period is the runtime's.
    unfoldable pub disconnect : Handle Q → Handle Q
    disconnect h =
        if h.disconnect_started
        then h
        else record h { disconnect_started = true; input = channel.close h.input; stopped = true }
