-- ===== src/Tabs/TabLaws.antt =====
-- crates/oxide-ssh-app/src/tabs.rs: what every method of `Tab` keeps.
use oxide_ssh.Prelude.{Bool, true, ◌||◌, ◌≡◌, refl, List, [], ◌∷◌, Option, none, some, ok, arith}
use oxide_ssh.Model.Types.{SessionId}
use oxide_ssh.Input.Keys.{Bytes, KeyInput}
use oxide_ssh.Session.Events.{SessionState, SessionEvent, state_changed}
use oxide_ssh.Session.Handle.{Channel, Handle, take_events, try_send_input}
use oxide_ssh.Session.Handle as Handle
use oxide_ssh.Terminal.Types.{TerminalSize, TerminalColors, TerminalAction, write_back, Emulator}
use oxide_ssh.Tabs.Modals.{TabId}
use oxide_ssh.Tabs.Tab.{
  Tab, TabKind, Session, is_disconnected, is_awaiting_secret, apply_state, attach_session,
  attach_local, await_secret, disconnect_session, disconnect, send_bytes, apply_actions, new,
  process_output, apply_event, send_key, resize, prepare_reconnect,
}

abbrev pub id_of : {Q : Type 0} → Option (Session Q) → Option SessionId
id_of none = none
id_of (some (Session.ssh h)) = some h.id
id_of (some (Session.local h)) = some h.id

-- A tab knows the id of the session that it holds, and holds none once it is disconnected or waits
-- for a secret.
pub record IsConsistent {T Q : Type 0} (t : Tab T Q) : Type 0 where
  pub session_known : t.session_id ≡ id_of t.session
  pub over : (is_disconnected t.state || is_awaiting_secret t.state) ≡ true → t.session ≡ none

id_of-disconnect :
    {Q : Type 0} ⦃channel : Channel Q⦄ (s : Option (Session Q))
    → id_of (disconnect_session s) ≡ id_of s
unfolding disconnect_session Handle.disconnect
id_of-disconnect none = refl
id_of-disconnect (some (Session.ssh h)) = ground arith
id_of-disconnect (some (Session.local h)) = ground arith

module _ {T Q : Type 0} where
  apply_state-IsConsistent :
      (t : Tab T Q) (s : SessionState) → IsConsistent t → IsConsistent (apply_state t s)
  unfolding apply_state
  apply_state-IsConsistent t SessionState.connected v = ground arith
  apply_state-IsConsistent t SessionState.disconnected v = ground arith
  apply_state-IsConsistent t SessionState.verifying_host_key v = ground arith
  apply_state-IsConsistent t _ v = ground arith

  pub attach_session-IsConsistent :
      (t : Tab T Q) (h : Handle Q) {u : Tab T Q}
      → attach_session t h ≡ some u
      → IsConsistent u × (u.id ≡ t.id)
  unfolding attach_session take_events
  attach_session-IsConsistent t h e = ground arith

  pub attach_local-IsConsistent :
      (t : Tab T Q) (h : Handle Q) {u : Tab T Q}
      → attach_local t h ≡ some u
      → IsConsistent u × (u.id ≡ t.id)
  unfolding attach_local take_events
  attach_local-IsConsistent t h e = ground arith

  pub await_secret-IsConsistent : (t : Tab T Q) → IsConsistent t → IsConsistent (await_secret t)
  unfolding await_secret
  await_secret-IsConsistent t v = ground arith

  module _ ⦃channel : Channel Q⦄ where
    pub disconnect-IsConsistent : (t : Tab T Q) → IsConsistent t → IsConsistent (disconnect t)
    unfolding disconnect disconnect_session
    disconnect-IsConsistent t v = ground (arith, id_of-disconnect t.session)

    pub send_bytes-IsConsistent :
        (t : Tab T Q) (bytes : Bytes) → IsConsistent t → IsConsistent (send_bytes t bytes).0
    unfolding send_bytes try_send_input
    send_bytes-IsConsistent t bytes v = ground arith

    apply_actions-IsConsistent :
        (t : Tab T Q) (actions : List TerminalAction)
        → IsConsistent t
        → IsConsistent (apply_actions t actions).0
    unfolding apply_actions
    apply_actions-IsConsistent t [] v = v
    apply_actions-IsConsistent t (write_back bytes ∷ rest) v =
        apply_actions-IsConsistent (send_bytes t bytes).0 rest (send_bytes-IsConsistent t bytes v)
    apply_actions-IsConsistent t (TerminalAction.bell ∷ rest) v =
        apply_actions-IsConsistent t rest v
    apply_actions-IsConsistent t (TerminalAction.wakeup ∷ rest) v =
        apply_actions-IsConsistent t rest v

    module _ ⦃em : Emulator T⦄ where
      pub new-IsConsistent :
          (id : TabId) (kind : TabKind) (size : TerminalSize) (colors : TerminalColors)
          (awaiting : Bool) {t : Tab T Q}
          → new id kind size colors awaiting ≡ ok t
          → IsConsistent t × (t.id ≡ id)
      unfolding new
      new-IsConsistent id kind size colors awaiting e = ground arith

      pub apply_event-IsConsistent :
          (t : Tab T Q) (e : SessionEvent) → IsConsistent t → IsConsistent (apply_event t e).0
      unfolding apply_event process_output
      apply_event-IsConsistent t (state_changed s) v = apply_state-IsConsistent t s v
      apply_event-IsConsistent t (SessionEvent.output bytes) v =
          apply_actions-IsConsistent _ _ (record { session_known = v.session_known; over = v.over })
      apply_event-IsConsistent t _ v = ground arith

      pub send_key-IsConsistent :
          (t : Tab T Q) (i : KeyInput) → IsConsistent t → IsConsistent (send_key t i).0
      unfolding send_key
      send_key-IsConsistent t i v = grind (arith, send_bytes-IsConsistent)

      pub resize-IsConsistent :
          (t : Tab T Q) (size : TerminalSize) → IsConsistent t → IsConsistent (resize t size).0
      unfolding resize Handle.resize
      resize-IsConsistent t size v = ground arith

      pub prepare_reconnect-IsConsistent :
          (t : Tab T Q) (size : TerminalSize) (colors : TerminalColors)
          → IsConsistent t
          → IsConsistent (prepare_reconnect t size colors).0
      unfolding prepare_reconnect
      prepare_reconnect-IsConsistent t size colors v = ground arith
