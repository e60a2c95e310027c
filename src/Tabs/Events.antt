-- ===== src/Tabs/Events.antt =====
-- crates/oxide-ssh-app/src/tabs.rs: what an event of a session does to its tab, to the other tabs and
-- to the dialogs.
use oxide_ssh.Prelude.{
  true, ◌≡◌, refl, ap, ◌∙◌, ◌⊎◌, inl, inr, ◌≢◌, List, [], ◌∷◌, Option, none, some, Result, ok, err,
  All, arith,
}
use oxide_ssh.Input.Keys.{Bytes}
use oxide_ssh.Session.Events.{
  SendInputError, SessionState, SessionError, SessionEvent, state_changed, unknown_host_key,
  changed_host_key, exited, error,
}
use oxide_ssh.Session.Handle.{Channel, Handle}
use oxide_ssh.Terminal.Types.{TerminalAction, write_back, Emulator}
use oxide_ssh.Tabs.Tab.{
  Session, sent, send_on, send_on, Tab, DisconnectReason, exit, disconnected, is_disconnected,
  TabLocalError, input_queue_full, input_closed, apply_state, send_bytes, apply_actions,
  process_output, apply_event,
}

-- The events after which the session is gone, with the reason that the tab shows.
abbrev pub ending : SessionEvent → Option DisconnectReason
ending (changed_host_key e x p) = some (DisconnectReason.session SessionError.host_key_changed)
ending (exited status) = some (exit status)
ending (error e) = some (DisconnectReason.session e)
ending _ = none

-- What may still come from a session that has ended: output, a bell, and its last state.
abbrev pub IsLate : SessionEvent → Type 0
IsLate (SessionEvent.output bytes) = Unit
IsLate SessionEvent.bell = Unit
IsLate (state_changed SessionState.disconnected) = Unit
IsLate _ = ⊥

abbrev pub Answered : {T Q : Type 0} → Tab T Q → Tab T Q → Result TabLocalError (Unit {0}) → Type 0
Answered t u (ok done) =
    (t.session ≢ none)
    × (u.local_error ≢ some input_queue_full)
    × ((u.local_error ≡ t.local_error) ⊎ (t.local_error ≡ some input_queue_full))
Answered t u (err e) =
    ((t.session ≡ none) × (u ≡ t) × (e ≡ input_closed))
    ⊎ ((u.local_error ≡ some e) × (u.session ≡ t.session))

module _ {T Q : Type 0} ⦃channel : Channel Q⦄ where
  state-send_bytes : (t : Tab T Q) (bytes : Bytes) → (send_bytes t bytes).0.state ≡ t.state
  unfolding send_bytes
  state-send_bytes t bytes = ground arith

  state-apply_actions :
      (t : Tab T Q) (actions : List TerminalAction) → (apply_actions t actions).0.state ≡ t.state
  unfolding apply_actions
  state-apply_actions t [] = refl
  state-apply_actions t (write_back bytes ∷ rest) =
      state-apply_actions (send_bytes t bytes).0 rest ∙ state-send_bytes t bytes
  state-apply_actions t (TerminalAction.bell ∷ rest) = state-apply_actions t rest
  state-apply_actions t (TerminalAction.wakeup ∷ rest) = state-apply_actions t rest

  sent-Answered :
      (t : Tab T Q) (s : Session Q) (r : Result SendInputError (Handle Q))
      → t.session ≡ some s
      → Answered t (sent t s r).0 (sent t s r).1
  unfolding sent
  sent-Answered t s (ok h) live = ground arith
  sent-Answered t s (err e) live = inr (refl, refl)

  send_on-Answered :
      (t : Tab T Q) (bytes : Bytes) (o : Option (Session Q))
      → t.session ≡ o
      → Answered t (send_on t bytes o).0 (send_on t bytes o).1
  unfolding send_on
  send_on-Answered t bytes none idle = inl (idle, refl, refl)
  send_on-Answered t bytes (some s) live = sent-Answered t s _ live

  -- Sending, on every branch: with no session the call reports a closed input and changes nothing;
  -- with one, a success ends a pause for a full queue and keeps any other error, and a failure is
  -- remembered as the error that is reported.
  pub send_bytes-Answered :
      (t : Tab T Q) (bytes : Bytes) → Answered t (send_bytes t bytes).0 (send_bytes t bytes).1
  unfolding send_bytes
  send_bytes-Answered t bytes = send_on-Answered t bytes t.session refl

  module _ ⦃em : Emulator T⦄ where
    state-late :
        (t : Tab T Q) (e : SessionEvent)
        → IsLate e
        → is_disconnected t.state ≡ true
        → (apply_event t e).0.state ≡ t.state
    unfolding apply_event apply_state process_output
    state-late t (SessionEvent.output bytes) l d = state-apply_actions _ _
    state-late t SessionEvent.bell l d = refl
    state-late t (state_changed SessionState.disconnected) l d = ground arith
    state-late t (state_changed SessionState.connecting) l d = elim l [ ]
    state-late t (state_changed SessionState.verifying_host_key) l d = elim l [ ]
    state-late t (state_changed SessionState.authenticating) l d = elim l [ ]
    state-late t (state_changed SessionState.opening_shell) l d = elim l [ ]
    state-late t (state_changed SessionState.connected) l d = elim l [ ]
    state-late t (unknown_host_key p e a f) l d = elim l [ ]
    state-late t (changed_host_key e x p) l d = elim l [ ]
    state-late t (exited s) l d = elim l [ ]
    state-late t (error e) l d = elim l [ ]

    unfoldable pub run_events : Tab T Q → List SessionEvent → Tab T Q
    run_events t [] = t
    run_events t (e ∷ es) = run_events (apply_event t e).0 es

    run_late :
        (t : Tab T Q) (es : List SessionEvent)
        → All IsLate es
        → is_disconnected t.state ≡ true
        → (run_events t es).state ≡ t.state
    unfolding run_events
    run_late t [] l d = refl
    run_late t (e ∷ es) l d =
        let same = state-late t e l.0 d in
        run_late (apply_event t e).0 es l.1 (ap is_disconnected same ∙ d) ∙ same

    ends :
        (t : Tab T Q) (e : SessionEvent) {reason : DisconnectReason}
        → ending e ≡ some reason
        → ((apply_event t e).0.state ≡ disconnected reason) × ((apply_event t e).0.session ≡ none)
    unfolding apply_event
    ends t e h = go e h
      where
        go :
            (e : SessionEvent) {reason : DisconnectReason}
            → ending e ≡ some reason
            → ((apply_event t e).0.state ≡ disconnected reason)
              × ((apply_event t e).0.session ≡ none)
        go (changed_host_key e x p) h = ground arith
        go (exited s) h = ground arith
        go (error e) h = ground arith
        go _ h = cc

    -- A tab whose session has ended, by an exit, an error or a changed host key, shows that
    -- reason, whatever output, bells and final state changes still come.
    pub reason_kept :
        (t : Tab T Q) (e : SessionEvent) (es : List SessionEvent) {reason : DisconnectReason}
        → ending e ≡ some reason
        → All IsLate es
        → (run_events t (e ∷ es)).state ≡ disconnected reason
    unfolding run_events
    reason_kept t e es h l =
        let over = (ends t e h).0 in
        run_late (apply_event t e).0 es l (ap is_disconnected over) ∙ over
