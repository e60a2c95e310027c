-- ===== src/Desktop/View.antt =====
-- crates/oxide-ssh-desktop/src/app/mod.rs: what `AppView` keeps beside its widgets. The text of the
-- secret field is its value; the keyring and the SSH service are arguments of the calls that use them.
use oxide_ssh.Prelude.{Bool, List, Option}
use oxide_ssh.Model.Types.{Text, ProfileId, ConnectionProfile, SessionId, TagId, Endpoint}
use oxide_ssh.Credentials.Types.{SaveProfileRequest}
use oxide_ssh.Tabs.Modals.{TabId}
use oxide_ssh.Tabs.Collection.{TabCollection}
use oxide_ssh.Desktop.Locale.{MessageId, ResolvedLocale}
use oxide_ssh.Desktop.Theme.{ResolvedTheme}
use oxide_ssh.Desktop.State.{AppState}
use oxide_ssh.Desktop.Editor.{EditorId, ConnectionEditor, TagManager}

pub data MainView : Type 0 where
  workspace sessions settings : MainView

pub data SettingsCategory : Type 0 where
  general appearance security : SettingsCategory

pub data ConfirmAction : Type 0 where
  delete_profile : ProfileId → ConfirmAction
  delete_host : Endpoint → ConfirmAction
  delete_tag : TagId → ConfirmAction
  quit quit_app : ConfirmAction

pub record AppView (T Q : Type 0) : Type 0 where
  pub state : Option AppState
  pub tabs : TabCollection T Q
  pub secret : Text
  pub connect_secrets : List (ProfileId × Text)
  pub connecting_profiles : List ProfileId
  pub editor : Option ConnectionEditor
  pub tag_manager : Option TagManager
  pub confirm : Option ConfirmAction
  pub saving_editor : Option EditorId
  pub main_view : MainView
  pub settings_category : SettingsCategory
  pub pending_terminal_focus : Bool
  pub composing : Bool
  pub compose_tab : Option TabId
  pub terminal_selecting : Bool
  pub bell : Bool
  pub status_message : Option MessageId
  pub status_rendered : Option MessageId
  pub locale : ResolvedLocale
  pub system_locale : Option Text
  pub theme : ResolvedTheme
  pub quitting : Bool

-- What a call leaves to be done later: the look into the keyring before a connection, the test of a
-- private key before a session starts, the pump of a session's events, the timer behind a close, the
-- deletion and the saving of a profile, the timer behind a message, and the end of the window or of the
-- process.
pub data Task : Type 0 where
  read_keyring : ConnectionProfile → Task
  preflight : TabId → Text → Task
  pump : TabId → SessionId → Task
  close_timer : TabId → Task
  delete_credentials : ConnectionProfile → Task
  save_profile : EditorId → SaveProfileRequest → Task
  status_timer : MessageId → Task
  remove_window exit : Task
