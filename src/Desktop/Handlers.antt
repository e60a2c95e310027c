-- ===== src/Desktop/Handlers.antt =====
-- crates/oxide-ssh-desktop/src/app/session.rs: what the events of a session do to the view.
use oxide_ssh.Prelude.{
  Bool, true, false, not, ◌&&◌, List, [], ◌∷◌, ◌++◌, Option, none, some, Result, ok, err, ◌==◌,
  if◌then◌else◌, is_some_and,
}
use oxide_ssh.Model.Types.{Uuid, SessionId}
use oxide_ssh.Model.Validate.{Texts}
use oxide_ssh.Session.Events.{SessionEvent, error, private_key_passphrase_required}
use oxide_ssh.Session.Handle.{Channel}
use oxide_ssh.Storage.Types.{KnownHosts, StorageError}
use oxide_ssh.Storage.Files.{Codec, Io}
use oxide_ssh.Terminal.Types.{Emulator, TerminalError}
use oxide_ssh.Tabs.Modals.{TabId}
use oxide_ssh.Tabs.Tab.{
  Tab, TabKind, TabState, TabNotification, TabLocalError, local_error, repaint, is_disconnected,
}
use oxide_ssh.Tabs.Collection.{TabCollection, tab, remove, request_secret}
use oxide_ssh.Tabs.Collection as Tabs
use oxide_ssh.Desktop.Locale.{MessageId, invalid_profile, storage_corrupt}
use oxide_ssh.Desktop.Messages.{local_error_message_id}
use oxide_ssh.Desktop.State.{AppState, reload_known_hosts}
use oxide_ssh.Desktop.View.{AppView}

abbrev pub is_session : SessionId → Option SessionId → Bool
is_session id none = false
is_session id (some s) = s == id

-- Two of the locals of `handle_output_batch`, and the view's `bell`.
pub record Seen : Type 0 where
  pub notifications : List TabLocalError
  pub bell : Bool
  pub repainted : Bool

abbrev pub see : Seen → TabNotification → Seen
see s (local_error e) = record s { notifications = s.notifications ++ e ∷ [] }
see s TabNotification.bell = record s { bell = true }
see s repaint = record s { repainted = true }

abbrev pub see_all : Seen → List TabNotification → Seen
see_all s [] = s
see_all s (n ∷ ns) = see_all (see s n) ns

-- `for error in notifications { self.status_message = Some(..) }`.
abbrev pub show_errors : Option MessageId → List TabLocalError → Option MessageId
show_errors status [] = status
show_errors status (e ∷ es) = show_errors (some (local_error_message_id e)) es

abbrev pub is_passphrase_required : SessionEvent → Bool
is_passphrase_required (error private_key_passphrase_required) = true
is_passphrase_required _ = false

abbrev pub is_connected : TabState → Bool
is_connected TabState.connected = true
is_connected _ = false

abbrev pub is_local : TabKind → Bool
is_local TabKind.local = true
is_local _ = false

module _ {T Q : Type 0} where
  -- The negation of the test at the head of both handlers.
  unfoldable pub is_current : AppView T Q → TabId → SessionId → Bool
  is_current v id session = is_some_and (tab v.tabs id) (λ t. is_session session t.session_id)

  -- The view after `request_secret`.
  abbrev pub secret_requested :
      AppView T Q → TabCollection T Q × Result TerminalError (Unit {0}) → AppView T Q
  secret_requested v (tabs, ok u) = record v { tabs = tabs; status_message = none }
  secret_requested v (tabs, err e) = record v { tabs = tabs; status_message = some invalid_profile }

  -- The loop of `handle_session_event` over the notifications, and what follows it.
  abbrev pub shown : AppView T Q → TabCollection T Q → Seen → AppView T Q
  shown v tabs s = record v {
    tabs = tabs;
    bell = if s.repainted then false else s.bell;
    status_message = show_errors v.status_message s.notifications;
  }

  module _ ⦃channel : Channel Q⦄ where
    unfoldable pub after_tab_event : AppView T Q → TabId → AppView T Q
    after_tab_event v id =
        if is_some_and (tab v.tabs id) (λ t. t.closing && is_disconnected t.state)
        then record v { tabs = (remove v.tabs id).0 }
        else v

    module _ ⦃em : Emulator T⦄ where
      -- The loop over the events, each with the UUID that it may draw.
      unfoldable pub apply_events :
          TabCollection T Q → Seen → TabId → List (SessionEvent × Uuid) → TabCollection T Q × Seen
      apply_events tabs s id [] = (tabs, s)
      apply_events tabs s id ((event, fresh) ∷ rest) =
          apply_events (Tabs.apply_event tabs id fresh event).0
            (see_all s (Tabs.apply_event tabs id fresh event).1) id rest

      abbrev pub seen_nothing : AppView T Q → Seen
      seen_nothing v = record { notifications = []; bell = v.bell; repainted = false }

      unfoldable pub handle_output_batch :
          AppView T Q → TabId → SessionId → List (SessionEvent × Uuid) → AppView T Q
      unfolding is_current apply_events
      handle_output_batch v id session events =
          if not (is_current v id session)
          then v
          else let (tabs, s) = apply_events v.tabs (seen_nothing v) id events in shown v tabs s

  module _ ⦃texts : Texts⦄ ⦃hosts : Codec KnownHosts⦄ where
    -- `reload_known_hosts` for a tab that is not local.
    abbrev pub hosts_shown : AppView T Q → AppState × Result StorageError (Unit {0}) → AppView T Q
    hosts_shown v (s, ok u) = record v { state = some s }
    hosts_shown v (s, err e) = record v { state = some s; status_message = some storage_corrupt }

    abbrev pub hosts_read : Io → AppView T Q → Option AppState → AppView T Q
    hosts_read sys v none = v
    hosts_read sys v (some s) = hosts_shown v (reload_known_hosts sys s)

    -- The block behind the loop, for the tab as it stands.
    abbrev pub connected_tab : Io → AppView T Q → Option (Tab T Q) → AppView T Q
    connected_tab sys v none = v
    connected_tab sys v (some t) =
        if is_connected t.state
        then if not (is_local t.kind)
          then hosts_read sys (record v { pending_terminal_focus = true }) v.state
          else record v { pending_terminal_focus = true }
        else v

    module _ ⦃channel : Channel Q⦄ ⦃em : Emulator T⦄ where
      unfoldable pub handle_session_event :
          Io → AppView T Q → TabId → SessionId → SessionEvent → Uuid → AppView T Q
      unfolding is_current after_tab_event
      handle_session_event sys v id session event fresh =
          if not (is_current v id session)
          then v
          else if is_passphrase_required event
          then secret_requested v (request_secret v.tabs id)
          else let (tabs, notes) = Tabs.apply_event v.tabs id fresh event in
            let w = shown v tabs (see_all (seen_nothing v) notes) in
            after_tab_event (connected_tab sys w (tab tabs id)) id
