-- ===== src/Tabs/Tab.antt =====
-- crates/oxide-ssh-app/src/tabs.rs: `Tab`. A method that mutates the tab returns the new one with
-- its result. A session that a tab drops ends by its own `Drop` and is not referred to again.
use oxide_ssh.Prelude.{
  ℕ, Bool, true, false, List, [], ◌∷◌, ◌++◌, Option, none, some, Result, ok, err, leb,
  if◌then◌else◌,
}
use oxide_ssh.Model.Types.{Uuid, SessionId, ConnectionProfile}
use oxide_ssh.Model.Types as Model
use oxide_ssh.Input.Keys.{Bytes, KeyInput, text, key_input, encode}
use oxide_ssh.Input.Paste as Paste
use oxide_ssh.Session.Events.{
  SendInputError, queue_full, SessionState, SessionError, SessionEvent, state_changed,
  unknown_host_key, changed_host_key, exited, error,
}
use oxide_ssh.Session.Handle.{Channel, Handle, take_events, try_send_input}
use oxide_ssh.Session.Handle as Handle
use oxide_ssh.Terminal.Types.{
  TerminalSize, TerminalColors, TerminalAction, write_back, TerminalError, Emulator,
}
use oxide_ssh.Terminal.Model.{TerminalModel, with_colors}
use oxide_ssh.Terminal.Model as Terminal
use oxide_ssh.Tabs.Modals.{TabId}

pub data DisconnectReason : Type 0 where
  session : SessionError → DisconnectReason
  exit : Option ℕ → DisconnectReason
  closed : DisconnectReason

pub data TabState : Type 0 where
  connecting awaiting_host_key awaiting_secret connected : TabState
  disconnected : DisconnectReason → TabState

pub data TabLocalError : Type 0 where
  input_queue_full input_closed paste_too_large invalid_terminal_size : TabLocalError

pub data TabNotification : Type 0 where
  repaint bell : TabNotification
  local_error : TabLocalError → TabNotification

pub data TabKind : Type 0 where
  ssh : ConnectionProfile → TabKind
  local : TabKind

pub data Session (Q : Type 0) : Type 0 where
  ssh : Handle Q → Session Q
  local : Handle Q → Session Q

pub record Tab (T Q : Type 0) : Type 0 where
  pub id : TabId
  pub kind : TabKind
  pub state : TabState
  pub terminal : TerminalModel T
  pub session : Option (Session Q)
  pub session_id : Option SessionId
  pub closing : Bool
  pub local_error : Option TabLocalError

-- `matches!(state, Disconnected { .. })`.
abbrev pub is_disconnected : TabState → Bool
is_disconnected (disconnected reason) = true
is_disconnected _ = false

abbrev pub is_awaiting_secret : TabState → Bool
is_awaiting_secret awaiting_secret = true
is_awaiting_secret _ = false

abbrev pub is_awaiting_host_key : TabState → Bool
is_awaiting_host_key awaiting_host_key = true
is_awaiting_host_key _ = false

-- The `map_err` of `send_bytes`.
abbrev pub to_local_error : SendInputError → TabLocalError
to_local_error queue_full = input_queue_full
to_local_error SendInputError.closed = input_closed

-- `if self.local_error == Some(InputQueueFull) { self.local_error = None; }`
abbrev pub clear_queue_full : Option TabLocalError → Option TabLocalError
clear_queue_full (some input_queue_full) = none
clear_queue_full e = e

abbrev pub handle : {Q : Type 0} → Session Q → Handle Q
handle (Session.ssh h) = h
handle (Session.local h) = h

abbrev pub with_handle : {Q : Type 0} → Session Q → Handle Q → Session Q
with_handle (Session.ssh h) h' = Session.ssh h'
with_handle (Session.local h) h' = Session.local h'

-- `u32::try_from(n).unwrap_or(u32::MAX)`.
abbrev pub to_u32 : ℕ → ℕ
to_u32 n = if leb n 4294967295 then n else 4294967295

abbrev pub session_size : TerminalSize → Model.TerminalSize
session_size size = record {
  columns = to_u32 size.columns;
  rows = to_u32 size.rows;
  pixel_width = size.pixel_width;
  pixel_height = size.pixel_height;
}

unfoldable pub disconnect_session :
    {Q : Type 0} ⦃channel : Channel Q⦄ → Option (Session Q) → Option (Session Q)
disconnect_session none = none
disconnect_session (some s) = some (with_handle s (Handle.disconnect (handle s)))

unfoldable pub error_note : Result TabLocalError (Unit {0}) → List TabNotification
error_note (ok u) = []
error_note (err e) = local_error e ∷ []

unfoldable pub resize_session :
    {Q : Type 0} → Option (Session Q) → TerminalSize → Option (Session Q)
resize_session none size = none
resize_session (some s) size = some (with_handle s (Handle.resize (handle s) (session_size size)))

module _ {T Q : Type 0} where
  -- The three assignments of each event that ends the session.
  abbrev pub end_session : Tab T Q → DisconnectReason → Tab T Q
  end_session t reason = record t { state = disconnected reason; session = none; session_id = none }

  -- The inner `match` of `apply_event`.
  unfoldable pub apply_state : Tab T Q → SessionState → Tab T Q
  apply_state t SessionState.connected = record t { state = connected; local_error = none }
  apply_state t SessionState.disconnected =
      if is_disconnected t.state
      then t
      else if is_awaiting_secret t.state
      then t
      else end_session t (DisconnectReason.session SessionError.disconnected)
  apply_state t SessionState.verifying_host_key =
      if is_awaiting_host_key t.state then t else record t { state = connecting }
  apply_state t _ = record t { state = connecting }

  attach : Tab T Q → (Handle Q → Session Q) → Handle Q → Option (Tab T Q)
  attach t wrap h = elim (take_events h) [
    | none ↦ none
    | some h' ↦ some (record t {
      session_id = some h'.id;
      session = some (wrap h');
      state = connecting;
      local_error = none;
    })
  ]

  -- `none` is the early return of `take_events()?`, which leaves the tab as it was.
  unfoldable pub attach_session : Tab T Q → Handle Q → Option (Tab T Q)
  unfolding attach
  attach_session t h = attach t Session.ssh h

  unfoldable pub attach_local : Tab T Q → Handle Q → Option (Tab T Q)
  unfolding attach
  attach_local t h = attach t Session.local h

  -- `if let Some(session) = self.session.take() { session.disconnect(); self.session_id = None; }`,
  -- and the two assignments behind it.
  unfoldable pub await_secret : Tab T Q → Tab T Q
  await_secret t = record t {
    session = none;
    session_id = elim t.session [ none ↦ t.session_id | some s ↦ none ];
    state = awaiting_secret;
    local_error = none;
  }

  module _ ⦃channel : Channel Q⦄ where
    unfoldable pub disconnect : Tab T Q → Tab T Q
    unfolding disconnect_session
    disconnect t = record t { session = disconnect_session t.session }

    -- The last `match` of `send_bytes`, on what the session answered.
    unfoldable pub sent :
        Tab T Q
        → Session Q
        → Result SendInputError (Handle Q)
        → Tab T Q × Result TabLocalError (Unit {0})
    sent t s (ok h) = (
      record t { session = some (with_handle s h); local_error = clear_queue_full t.local_error },
      ok tt,
    )
    sent t s (err e) = (record t { local_error = some (to_local_error e) }, err (to_local_error e))

    -- With no session the function returns before it sets `local_error`.
    unfoldable pub send_on :
        Tab T Q → Bytes → Option (Session Q) → Tab T Q × Result TabLocalError (Unit {0})
    unfolding sent
    send_on t bytes none = (t, err input_closed)
    send_on t bytes (some s) = sent t s (try_send_input (handle s) bytes)

    unfoldable pub send_bytes : Tab T Q → Bytes → Tab T Q × Result TabLocalError (Unit {0})
    unfolding send_on
    send_bytes t bytes = send_on t bytes t.session

    -- The `for` loop of `process_output`.
    unfoldable pub apply_actions : Tab T Q → List TerminalAction → Tab T Q × List TabNotification
    unfolding error_note
    apply_actions t [] = (t, [])
    apply_actions t (write_back bytes ∷ rest) =
        let (u, result) = send_bytes t bytes in
        let (v, notes) = apply_actions u rest in (v, error_note result ++ notes)
    apply_actions t (TerminalAction.bell ∷ rest) =
        let (v, notes) = apply_actions t rest in (v, bell ∷ notes)
    apply_actions t (TerminalAction.wakeup ∷ rest) =
        let (v, notes) = apply_actions t rest in (v, repaint ∷ notes)

    module _ ⦃em : Emulator T⦄ where
      unfoldable pub new :
          TabId → TabKind → TerminalSize → TerminalColors → Bool → Result TerminalError (Tab T Q)
      new id kind size colors awaiting = elim (with_colors size colors) [
        | err e ↦ err e
        | ok terminal ↦ ok (record {
          id = id;
          kind = kind;
          state = if awaiting then awaiting_secret else connecting;
          terminal = terminal;
          session = none;
          session_id = none;
          closing = false;
          local_error = none;
        })
      ]

      unfoldable pub process_output : Tab T Q → Bytes → Tab T Q × List TabNotification
      process_output t bytes =
          let (terminal, actions) = Terminal.process_output t.terminal bytes in
          apply_actions (record t { terminal = terminal }) actions

      unfoldable pub apply_event : Tab T Q → SessionEvent → Tab T Q × List TabNotification
      apply_event t (state_changed state) = (apply_state t state, repaint ∷ [])
      apply_event t (unknown_host_key prompt endpoint algorithm fingerprint) =
          (record t { state = awaiting_host_key }, repaint ∷ [])
      apply_event t (changed_host_key endpoint expected presented) =
          (end_session t (DisconnectReason.session SessionError.host_key_changed), repaint ∷ [])
      apply_event t (SessionEvent.output bytes) = process_output t bytes
      apply_event t SessionEvent.bell = (t, bell ∷ [])
      apply_event t (exited status) = (end_session t (exit status), repaint ∷ [])
      apply_event t (error e) = (end_session t (DisconnectReason.session e), repaint ∷ [])

      unfoldable pub send_key : Tab T Q → KeyInput → Tab T Q × Result TabLocalError (Unit {0})
      send_key t input = elim (encode input (Terminal.mode t.terminal)) [
        | [] ↦ (t, ok tt)
        | b ∷ bs ↦ send_bytes t (b ∷ bs)
      ]

      unfoldable pub send_text : Tab T Q → Bytes → Tab T Q × Result TabLocalError (Unit {0})
      unfolding send_key
      send_text t s = send_key t (key_input (text s))

      -- `none` where the encoder's loop would run out of fuel, which it never does.
      unfoldable pub paste : Tab T Q → Bytes → Option (Tab T Q × Result TabLocalError (Unit {0}))
      paste t s = elim (Paste.paste s (Terminal.mode t.terminal)) [
        | none ↦ none
        | some (err e) ↦ some (t, err paste_too_large)
        | some (ok bytes) ↦ some (send_bytes t bytes)
      ]

      unfoldable pub resize : Tab T Q → TerminalSize → Tab T Q × Result TabLocalError (Unit {0})
      unfolding resize_session
      resize t size = elim (Terminal.resize t.terminal size) [
        | err e ↦ (t, err invalid_terminal_size)
        | ok terminal ↦
            (record t { terminal = terminal; session = resize_session t.session size }, ok tt)
      ]

      -- The first three assignments stand also where the size is refused.
      unfoldable pub prepare_reconnect :
          Tab T Q → TerminalSize → TerminalColors → Tab T Q × Result TerminalError (Unit {0})
      prepare_reconnect t size colors =
          let u = record t { session = none; session_id = none; closing = false } in
          elim (with_colors size colors) [
            | err e ↦ (u, err e)
            | ok terminal ↦
                (record u { terminal = terminal; state = connecting; local_error = none }, ok tt)
          ]
