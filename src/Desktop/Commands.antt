-- ===== src/Desktop/Commands.antt =====
-- crates/oxide-ssh-desktop/src/app/mod.rs: the commands of the menus and the settings, and the banner
-- that shows a message for a while.
use oxide_ssh.Prelude.{
  Bool, true, false, not, ◌&&◌, List, [], ◌∷◌, Option, none, some, if◌then◌else◌, any, is_some,
}
use mathlib.Core.Logic.{ite}
use oxide_ssh.Model.Types.{ProfileId}
use oxide_ssh.Tabs.Tab.{is_disconnected}
use oxide_ssh.Desktop.Locale.{MessageId}
use oxide_ssh.Desktop.Editor.{EditorId}
use oxide_ssh.Desktop.View.{AppView, MainView, ConfirmAction, Task}
use oxide_ssh.Desktop.Controls.{cycle_tab}
use oxide_ssh.Desktop.Saving.{show_add_connection}

pub MessageId-discrete : Discrete MessageId
MessageId-discrete = hlevel

abbrev pub message_eq : MessageId → MessageId → Bool
message_eq a b = ite (MessageId-discrete a b) true false

-- `==` on optional messages.
unfoldable pub same_message : Option MessageId → Option MessageId → Bool
same_message none none = true
same_message (some a) (some b) = message_eq a b
same_message _ _ = false

-- `spawn` of the timer where there is a message.
abbrev pub banner_timer : Option MessageId → List Task
banner_timer none = []
banner_timer (some message) = Task.status_timer message ∷ []

module _ {T Q : Type 0} where
  unfoldable pub sync_status : AppView T Q → AppView T Q × List Task
  unfolding same_message
  sync_status v =
      if same_message v.status_message v.status_rendered
      then (v, [])
      else (record v { status_rendered = v.status_message }, banner_timer v.status_message)

  -- What the timer does.
  unfoldable pub status_expired : AppView T Q → MessageId → AppView T Q
  unfolding same_message
  status_expired v message = record v {
    status_message =
        if same_message v.status_message (some message) then none else v.status_message;
  }

  unfoldable pub has_live_tabs : AppView T Q → Bool
  has_live_tabs v = not v.quitting && any (λ t. not (is_disconnected t.state)) v.tabs.tabs

  unfoldable pub request_quit : AppView T Q → AppView T Q
  unfolding has_live_tabs
  request_quit v = if has_live_tabs v then record v { confirm = some ConfirmAction.quit } else v

  unfoldable pub on_quit_app : AppView T Q → AppView T Q × List Task
  unfolding has_live_tabs
  on_quit_app v =
      if has_live_tabs v
      then (record v { confirm = some ConfirmAction.quit_app }, [])
      else (v, Task.exit ∷ [])

  unfoldable pub on_add_connection : AppView T Q → EditorId → ProfileId → AppView T Q
  unfolding show_add_connection
  on_add_connection v fresh profile =
      if is_some v.editor then v else show_add_connection v fresh profile

  unfoldable pub on_open_settings : AppView T Q → AppView T Q
  on_open_settings v = record v { main_view = MainView.settings }

  unfoldable pub on_next_tab : AppView T Q → Option (AppView T Q)
  unfolding cycle_tab
  on_next_tab v = cycle_tab v false

  unfoldable pub on_previous_tab : AppView T Q → Option (AppView T Q)
  unfolding cycle_tab
  on_previous_tab v = cycle_tab v true
