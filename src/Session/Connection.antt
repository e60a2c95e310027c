-- ===== src/Session/Connection.antt =====
-- crates/oxide-ssh-core/src/session.rs: `run_session`, and the task that `SshService::connect` spawns. A
-- `select!` loop runs on the list of what becomes ready, turn after turn; `none` is a list that ends
-- before the loop does. Times are in seconds.
use oxide_ssh.Prelude.{
  ℕ, zero, suc, ◌-◌, Bool, not, List, [], ◌∷◌, ◌++◌, Option, none, some, Result, ok, err, fail_if,
  map_err, ltb, leb, length, if◌then◌else◌, ◌>>◌,
}
use oxide_ssh.Input.Keys.{Bytes}
use oxide_ssh.Model.Types.{Uuid, Text, Endpoint, ConnectionProfile, TerminalSize, is_valid}
use oxide_ssh.Model.Validate.{Texts, ProfileValidationError, validate_profile}
use oxide_ssh.Storage.Types.{StorageError}
use oxide_ssh.Storage.Config.{canonicalize_endpoint}
use oxide_ssh.Session.Events.{
  SessionState, connecting, verifying_host_key, authenticating, opening_shell, connected,
  SessionError, invalid_profile, connect_timeout, connect_failed, pty_rejected, shell_rejected,
  SessionEvent, unknown_host_key, changed_host_key, state_changed, output, exited, error,
}
use oxide_ssh.Session.Authenticate.{Server, authenticate}

abbrev pub connect_timeout_secs : ℕ
connect_timeout_secs = 15

abbrev pub host_key_decision_timeout_secs : ℕ
host_key_decision_timeout_secs = 120

-- What has been sent, and the answer of a step.
abbrev pub Sent : Type 0 → Type 0
Sent A = List SessionEvent × Result SessionError A

-- `events.send(..)` with its `map_err` and `?`: the receiver takes `room` events, and is dropped then.
abbrev pub send : ℕ → List SessionEvent → SessionEvent → Sent (Unit {0})
send room events e =
    if ltb (length events) room
    then (events ++ e ∷ [], ok tt)
    else (events, err SessionError.disconnected)

-- What becomes ready while the connection is made: time passes; the host's flag changes, or its sender
-- is gone; the handler sees the server's key, its coordinator asks for the key or warns of a change,
-- and the key is verified; the connection is there.
pub data ConnectTurn : Type 0 where
  waited : ℕ → ConnectTurn
  awaiting_changed : Option Bool → ConnectTurn
  key_presented : ConnectTurn
  asked : Uuid → Endpoint → Text → Text → ConnectTurn
  warned : Endpoint → Text → Text → ConnectTurn
  verified : Result SessionError (Unit {0}) → ConnectTurn
  made : Result SessionError (Unit {0}) → ConnectTurn

-- A step of the handler: where it fails, the connection fails with its error.
abbrev pub handler_step :
    Sent (Unit {0}) → (List SessionEvent → Option (Sent (Unit {0}))) → Option (Sent (Unit {0}))
handler_step (events, ok u) rest = rest events
handler_step (events, err e) rest = some (events, err e)

-- The loop around `client::connect`, with the seconds that are left.
abbrev pub connect_loop : ℕ → ℕ → List SessionEvent → List ConnectTurn → Option (Sent (Unit {0}))
connect_loop room left events [] = none
connect_loop room left events (waited n ∷ turns) =
    let rest = connect_loop room (left - n) events turns in
    if leb left n then some (events, err connect_timeout) else rest
connect_loop room left events (awaiting_changed none ∷ turns) = some (events, err connect_timeout)
connect_loop room left events (awaiting_changed (some awaiting) ∷ turns) =
    connect_loop room (if awaiting then host_key_decision_timeout_secs else connect_timeout_secs)
      events turns
connect_loop room left events (key_presented ∷ turns) =
    handler_step (send room events (state_changed verifying_host_key))
      (λ sent. connect_loop room left sent turns)
connect_loop room left events (asked prompt endpoint algorithm fingerprint ∷ turns) =
    handler_step (send room events (unknown_host_key prompt endpoint algorithm fingerprint))
      (λ sent. connect_loop room left sent turns)
connect_loop room left events (warned endpoint expected presented ∷ turns) =
    handler_step (send room events (changed_host_key endpoint expected presented))
      (λ sent. connect_loop room left sent turns)
connect_loop room left events (verified answer ∷ turns) =
    handler_step (events, answer) (λ sent. connect_loop room left sent turns)
connect_loop room left events (made answer ∷ turns) = some (events, answer)

-- russh's messages on a channel.
pub data ChannelMsg : Type 0 where
  data_msg extended_data : Bytes → ChannelMsg
  exit_status : ℕ → ChannelMsg
  eof close other_msg : ChannelMsg

-- What becomes ready in the shell: the cancellation, input or the end of its queue, a new size or the
-- end of its channel, each with whether russh passes it on, and a message or the end of them.
pub data Turn : Type 0 where
  cancelled : Turn
  next_input : Option (Bytes × Bool) → Turn
  resized : Option Bool → Turn
  message : Option ChannelMsg → Turn

abbrev pub Ended : Type 0
Ended = Option (Sent (Option ℕ))

-- The `?` of a step of the loop.
abbrev pub next_turn : Sent (Unit {0}) → (List SessionEvent → Ended) → Ended
next_turn (events, ok u) rest = rest events
next_turn (events, err e) rest = some (events, err e)

abbrev pub passed_on : List SessionEvent → Bool → Sent (Unit {0})
passed_on events passed = (events, fail_if (not passed) SessionError.disconnected)

abbrev pub shell_loop : ℕ → List SessionEvent → Option ℕ → List Turn → Ended
shell_loop room events status [] = none
shell_loop room events status (cancelled ∷ turns) = some (events, err SessionError.disconnected)
shell_loop room events status (next_input none ∷ turns) =
    some (events, err SessionError.disconnected)
shell_loop room events status (next_input (some (bytes, passed)) ∷ turns) =
    next_turn (passed_on events passed) (λ sent. shell_loop room sent status turns)
shell_loop room events status (resized none ∷ turns) = some (events, err SessionError.disconnected)
shell_loop room events status (resized (some passed) ∷ turns) =
    next_turn (passed_on events passed) (λ sent. shell_loop room sent status turns)
shell_loop room events status (message (some (data_msg bytes)) ∷ turns) =
    next_turn (send room events (output bytes)) (λ sent. shell_loop room sent status turns)
shell_loop room events status (message (some (extended_data bytes)) ∷ turns) =
    next_turn (send room events (output bytes)) (λ sent. shell_loop room sent status turns)
shell_loop room events status (message (some (exit_status code)) ∷ turns) =
    shell_loop room events (some code) turns
shell_loop room events status (message (some other_msg) ∷ turns) =
    shell_loop room events status turns
shell_loop room events status (message (some eof) ∷ turns) = some (events, ok status)
shell_loop room events status (message (some close) ∷ turns) = some (events, ok status)
shell_loop room events status (message none ∷ turns) = some (events, ok status)

-- Whether russh opens the channel, and takes the requests for a terminal and for a shell: it answers once
-- a request is on its way. What the server replies to one is a later message, an `other_msg`.
pub record Opening : Type 0 where
  pub opens_channel : Bool
  pub takes_pty : Bool
  pub takes_shell : Bool

abbrev pub open_shell : Opening → Result SessionError (Unit {0})
open_shell o = do
  fail_if (not o.opens_channel) connect_failed
  fail_if (not o.takes_pty) pty_rejected
  fail_if (not o.takes_shell) shell_rejected

-- The function from the connection on: each event, and what must succeed behind it.
abbrev pub run_shell :
    ℕ
    → Result SessionError (Unit {0})
    → Result SessionError (Unit {0})
    → List Turn
    → List SessionEvent
    → Ended
run_shell room authenticated opened turns events =
    next_turn (send room events (state_changed authenticating)) (λ events1.
      next_turn (events1, authenticated)
        (λ events2. next_turn (send room events2 (state_changed opening_shell)) (λ events3.
          next_turn (events3, opened)
            (λ events4.
              next_turn (send room events4 (state_changed connected))
                (λ events5. shell_loop room events5 none turns)))))

abbrev pub after_connect : Option (Sent (Unit {0})) → (List SessionEvent → Ended) → Ended
after_connect none rest = none
after_connect (some sent) rest = next_turn sent rest

-- `let _ = event_sender.send(..).await;`
abbrev pub send_ignored : ℕ → List SessionEvent → SessionEvent → List SessionEvent
send_ignored room events e = (send room events e).0

-- The `match` on the result.
abbrev pub send_result : ℕ → Sent (Option ℕ) → List SessionEvent
send_result room (events, ok status) = send_ignored room events (exited status)
send_result room (events, err SessionError.disconnected) = events
send_result room (events, err e) = send_ignored room events (error e)

abbrev pub finished : ℕ → Ended → Option (List SessionEvent)
finished room none = none
finished room (some sent) =
    some (send_ignored room (send_result room sent) (state_changed SessionState.disconnected))

-- The first events.
abbrev pub first_sent : ℕ → List SessionEvent → List SessionEvent
first_sent zero events = []
first_sent (suc n) [] = []
first_sent (suc n) (e ∷ events) = e ∷ first_sent n events

-- `abort` of the task, in which nothing more is sent.
abbrev pub aborted : Option ℕ → Option (List SessionEvent) → Option (List SessionEvent)
aborted abort none = none
aborted none (some events) = some events
aborted (some n) (some events) = some (first_sent n events)

-- The tests of `connect`, before it spawns the task.
unfoldable pub check_request : ConnectionProfile → TerminalSize → Result SessionError (Unit {0})
check_request p size = do
  map_err (λ (e : ProfileValidationError). invalid_profile) (validate_profile p)
  fail_if (not (is_valid size)) invalid_profile

module _ ⦃texts : Texts⦄ {Key Identity Hash : Type 0} (server : Server Key Identity Hash) where
  abbrev pub run_at :
      ℕ
      → ConnectionProfile
      → Option Text
      → List ConnectTurn
      → Opening
      → List Turn
      → List SessionEvent
      → Result StorageError Endpoint
      → Ended
  run_at room p secret connect_turns opening turns events (err e) =
      some (events, err invalid_profile)
  run_at room p secret connect_turns opening turns events (ok endpoint) =
      after_connect (connect_loop room connect_timeout_secs events connect_turns)
        (run_shell room (authenticate server p secret) (open_shell opening) turns)

  unfoldable pub run_session :
      ℕ
      → ConnectionProfile
      → Option Text
      → List ConnectTurn
      → Opening
      → List Turn
      → List SessionEvent
      → Ended
  run_session room p secret connect_turns opening turns events =
      run_at room p secret connect_turns opening turns events (canonicalize_endpoint p.endpoint)

  -- The events of the task that `connect` spawns. A `disconnect` aborts the task if it still runs after
  -- DISCONNECT_GRACE: `abort` is then the number of events that it has sent.
  unfoldable pub session_task :
      ℕ
      → ConnectionProfile
      → Option Text
      → List ConnectTurn
      → Opening
      → List Turn
      → Option ℕ
      → Option (List SessionEvent)
  unfolding run_session
  session_task room p secret connect_turns opening turns abort = aborted abort (
      finished room (
        run_session room p secret connect_turns opening turns
          (send_ignored room [] (state_changed connecting))))
