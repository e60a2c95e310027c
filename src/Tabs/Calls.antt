-- ===== src/Tabs/Calls.antt =====
-- crates/oxide-ssh-app/src/tabs.rs: the public methods that change a tab, as one type of calls, and
-- what any sequence of them keeps.
use oxide_ssh.Prelude.{◌≡◌, refl, List, [], ◌∷◌, Option, none, some, arith}
use oxide_ssh.Input.Keys.{Bytes, KeyInput, text, key_input}
use oxide_ssh.Session.Events.{SessionEvent}
use oxide_ssh.Session.Handle.{take_events, Channel, Handle}
use oxide_ssh.Terminal.Types.{TerminalSize, TerminalColors, TerminalAction, write_back, Emulator}
use oxide_ssh.Tabs.Tab.{
  Tab, attach_session, attach_local, disconnect, send_bytes, apply_actions, process_output,
  apply_event, apply_state, send_key, send_text, paste, resize, prepare_reconnect,
}
use oxide_ssh.Tabs.TabLaws.{
  IsConsistent, attach_session-IsConsistent, attach_local-IsConsistent, disconnect-IsConsistent,
  send_bytes-IsConsistent, apply_event-IsConsistent, send_key-IsConsistent, resize-IsConsistent,
}

pub data TabCall (Q : Type 0) : Type 0 where
  event : SessionEvent → TabCall Q
  key : KeyInput → TabCall Q
  typed : Bytes → TabCall Q
  pasted : Bytes → TabCall Q
  resized : TerminalSize → TabCall Q
  attached_session attached_local : Handle Q → TabCall Q
  cleared_local_error disconnected : TabCall Q

-- A call that fails early leaves the tab as it was.
abbrev or_same : {A : Type 0} → A → Option A → A
or_same a none = a
or_same a (some b) = b

abbrev pasted_tab : {A B : Type 0} → A → Option (A × B) → A
pasted_tab a none = a
pasted_tab a (some (b, r)) = b

module _ {T Q : Type 0} ⦃channel : Channel Q⦄ ⦃em : Emulator T⦄ where
  unfoldable pub call : Tab T Q → TabCall Q → Tab T Q
  call t (event e) = (apply_event t e).0
  call t (key i) = (send_key t i).0
  call t (typed s) = (send_text t s).0
  call t (pasted s) = pasted_tab t (paste t s)
  call t (resized size) = (resize t size).0
  call t (attached_session h) = or_same t (attach_session t h)
  call t (attached_local h) = or_same t (attach_local t h)
  call t cleared_local_error = record t { local_error = none }
  call t disconnected = disconnect t

  paste-IsConsistent :
      (t : Tab T Q) (s : Bytes) → IsConsistent t → IsConsistent (pasted_tab t (paste t s))
  unfolding paste
  paste-IsConsistent t s v = grind (arith, send_bytes-IsConsistent)

  -- Each public method of a tab keeps it consistent.
  pub call-IsConsistent : (t : Tab T Q) (k : TabCall Q) → IsConsistent t → IsConsistent (call t k)
  unfolding call
  call-IsConsistent t (event e) v = apply_event-IsConsistent t e v
  call-IsConsistent t (key i) v = send_key-IsConsistent t i v
  call-IsConsistent t (typed s) v =
      unfold send_text in send_key-IsConsistent t (key_input (text s)) v
  call-IsConsistent t (pasted s) v = paste-IsConsistent t s v
  call-IsConsistent t (resized size) v = resize-IsConsistent t size v
  call-IsConsistent t (attached_session h) v = grind (arith, attach_session-IsConsistent)
  call-IsConsistent t (attached_local h) v = grind (arith, attach_local-IsConsistent)
  call-IsConsistent t cleared_local_error v = ground arith
  call-IsConsistent t disconnected v = disconnect-IsConsistent t v

  id-send_bytes : (t : Tab T Q) (bytes : Bytes) → (send_bytes t bytes).0.id ≡ t.id
  unfolding send_bytes
  id-send_bytes t bytes = ground arith

  id-apply_actions :
      (t : Tab T Q) (actions : List TerminalAction) → (apply_actions t actions).0.id ≡ t.id
  unfolding apply_actions
  id-apply_actions t [] = refl
  id-apply_actions t (write_back bytes ∷ rest) =
      ground (arith, id-apply_actions (send_bytes t bytes).0 rest, id-send_bytes t bytes)
  id-apply_actions t (TerminalAction.bell ∷ rest) = id-apply_actions t rest
  id-apply_actions t (TerminalAction.wakeup ∷ rest) = id-apply_actions t rest

  pub id-apply_event : (t : Tab T Q) (e : SessionEvent) → (apply_event t e).0.id ≡ t.id
  unfolding apply_event process_output apply_state
  id-apply_event t (SessionEvent.state_changed s) = ground arith
  id-apply_event t (SessionEvent.output bytes) = id-apply_actions _ _
  id-apply_event t _ = ground arith

  pub id-prepare_reconnect :
      (t : Tab T Q) (size : TerminalSize) (colors : TerminalColors)
      → (prepare_reconnect t size colors).0.id ≡ t.id
  unfolding prepare_reconnect
  id-prepare_reconnect t size colors = ground arith

  id-send_key : (t : Tab T Q) (i : KeyInput) → (send_key t i).0.id ≡ t.id
  unfolding send_key
  id-send_key t i = grind (arith, id-send_bytes)

  pub id-call : (t : Tab T Q) (k : TabCall Q) → (call t k).id ≡ t.id
  unfolding call
  id-call t (event e) = id-apply_event t e
  id-call t (key i) = id-send_key t i
  id-call t (typed s) = unfold send_text in id-send_key t (key_input (text s))
  id-call t (pasted s) = unfold paste in grind (arith, id-send_bytes)
  id-call t (resized size) = unfold resize in ground arith
  id-call t (attached_session h) = unfold attach_session take_events in ground arith
  id-call t (attached_local h) = unfold attach_local take_events in ground arith
  id-call t cleared_local_error = refl
  id-call t disconnected = unfold disconnect in refl
