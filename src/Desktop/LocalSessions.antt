-- ===== src/Desktop/LocalSessions.antt =====
-- crates/oxide-ssh-desktop/src/app/session.rs: local shells, and `reconnect`.
use oxide_ssh.Prelude.{
  not, ◌&&◌, [], List, Option, none, some, Result, ok, err, if◌then◌else◌, is_some, is_some_and,
}
use oxide_ssh.Model.Types.{Uuid, Text, ConnectionProfile}
use oxide_ssh.Model.Types as Model
use oxide_ssh.Session.Events.{SessionError}
use oxide_ssh.Session.Handle.{Channel, Handle}
use oxide_ssh.Credentials.Types.{CredentialError}
use oxide_ssh.Terminal.Types.{TerminalSize, TerminalColors, TerminalError, Emulator}
use oxide_ssh.Tabs.Modals.{TabId}
use oxide_ssh.Tabs.Tab.{Tab}
use oxide_ssh.Tabs.Collection.{TabCollection, tab, open_local, request_secret, prepare_reconnect}
use oxide_ssh.Desktop.Locale.{MessageId}
use oxide_ssh.Desktop.Theme.{terminal_colors}
use oxide_ssh.Desktop.Messages.{credential_error_message_id, requires_one_time_secret}
use oxide_ssh.Desktop.View.{AppView, MainView, Task}
use oxide_ssh.Desktop.Handlers.{secret_requested, is_local}
use oxide_ssh.Desktop.Sessions.{
  ConnectRequest, core_size, tab_profile, started_local, start_session,
}

module _ {T Q : Type 0} ⦃channel : Channel Q⦄ ⦃em : Emulator T⦄
    (spawn : Model.TerminalSize → Result SessionError (Handle Q)) where
  abbrev pub start_shell : AppView T Q → TabId → Uuid → Option (Tab T Q) → AppView T Q × List Task
  start_shell v id fresh none = (v, [])
  start_shell v id fresh (some t) = started_local v id fresh (spawn (core_size t.terminal.size))

  unfoldable pub start_local_session : AppView T Q → TabId → Uuid → AppView T Q × List Task
  start_local_session v id fresh = start_shell v id fresh (tab v.tabs id)

  abbrev pub opened_shell :
      AppView T Q → TabId → Uuid → Option (TabCollection T Q) → Option (AppView T Q × List Task)
  opened_shell v id fresh none = none
  opened_shell v id fresh (some tabs) =
      some (start_local_session (record v { tabs = tabs }) id fresh)

  -- `id` is the UUID of the new tab.
  unfoldable pub connect_local :
      AppView T Q → TabId → Uuid → TerminalSize → TerminalColors → Option (AppView T Q × List Task)
  unfolding start_local_session
  connect_local v id fresh size colors =
      opened_shell (record v { main_view = MainView.sessions }) id fresh
        (open_local v.tabs id size colors)

  -- In app/mod.rs; the colours are those of the view's theme.
  unfoldable pub on_local_terminal :
      AppView T Q → TabId → Uuid → TerminalSize → Option (AppView T Q × List Task)
  unfolding connect_local terminal_colors
  on_local_terminal v id fresh size =
      if is_some v.editor
      then some (v, [])
      else connect_local v id fresh size (terminal_colors v.theme)

  module _ (connect : ConnectRequest → Result SessionError (Handle Q)) where
    -- The `match` on the saved secret.
    abbrev pub reconnect_secret :
        AppView T Q
        → TabId
        → Uuid
        → ConnectionProfile
        → Result CredentialError (Option Text)
        → AppView T Q × List Task
    reconnect_secret v id fresh p (err e) =
        (record v { status_message = some (credential_error_message_id e) }, [])
    reconnect_secret v id fresh p (ok secret) =
        if requires_one_time_secret p && not (is_some secret)
        then (secret_requested v (request_secret v.tabs id), [])
        else start_session connect v id fresh secret

    -- The function behind `prepare_reconnect`, for the tab as it stood before.
    abbrev pub reconnecting :
        AppView T Q
        → TabId
        → Uuid
        → Option (Tab T Q)
        → (ConnectionProfile → Result CredentialError (Option Text))
        → TabCollection T Q × Result TerminalError (Unit {0})
        → AppView T Q × List Task
    reconnecting v id fresh before saved_secret (tabs, err e) =
        (record v { tabs = tabs; status_message = some MessageId.connect_failed }, [])
    reconnecting v id fresh before saved_secret (tabs, ok u) =
        if is_some_and before (λ t. is_local t.kind)
        then start_local_session (record v { tabs = tabs }) id fresh
        else elim (tab_profile before) [
          | none ↦ (record v { tabs = tabs }, [])
          | some p ↦ reconnect_secret (record v { tabs = tabs }) id fresh p (saved_secret p)
        ]

    -- `saved_secret` is the look into the keyring.
    unfoldable pub reconnect :
        AppView T Q
        → TabId
        → Uuid
        → TerminalSize
        → TerminalColors
        → (ConnectionProfile → Result CredentialError (Option Text))
        → AppView T Q × List Task
    unfolding start_local_session
    reconnect v id fresh size colors saved_secret =
        reconnecting v id fresh (tab v.tabs id) saved_secret
          (prepare_reconnect v.tabs id size colors)
