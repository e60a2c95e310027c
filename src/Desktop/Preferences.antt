-- ===== src/Desktop/Preferences.antt =====
-- crates/oxide-ssh-desktop/src/app/mod.rs: a new view, the settings, and another try on the files. What
-- starting the SSH service answers is an argument; whether the window is dark is another.
use oxide_ssh.Prelude.{Bool, true, false, [], Option, none, some, Result, ok, err, if◌then◌else◌}
use oxide_ssh.Model.Types.{Text, LocaleSetting, ThemeSetting, NewTabAction}
use oxide_ssh.Model.Validate.{Texts}
use oxide_ssh.Storage.Types.{AppConfig, StorageError}
use oxide_ssh.Storage.Files.{Codec, Io}
use oxide_ssh.Session.Events.{SessionError}
use oxide_ssh.Tabs.Collection.{empty, set_terminal_colors}
use oxide_ssh.Desktop.Locale.{MessageId, ResolvedLocale, resolve_locale}
use oxide_ssh.Desktop.Theme.{ResolvedTheme, resolve, terminal_colors}
use oxide_ssh.Desktop.Messages.{session_error_message_id}
use oxide_ssh.Desktop.State.{AppState, AppLoadOutcome, ready, recovery}
use oxide_ssh.Desktop.State as State
use oxide_ssh.Desktop.View.{AppView, MainView, SettingsCategory}

abbrev pub same_theme : ResolvedTheme → ResolvedTheme → Bool
same_theme ResolvedTheme.light ResolvedTheme.light = true
same_theme ResolvedTheme.dark ResolvedTheme.dark = true
same_theme _ _ = false

unfoldable pub resolved_locale : AppState → Option Text → ResolvedLocale
unfolding resolve_locale
resolved_locale s system_locale = resolve_locale s.config.settings.locale system_locale

unfoldable pub resolved_theme : AppState → Bool → ResolvedTheme
unfolding resolve
resolved_theme s system_is_dark = resolve s.config.settings.theme system_is_dark

-- The state, the message and the two settings that a loaded or missing state gives.
abbrev pub start_state : AppLoadOutcome → Option AppState
start_state (ready s) = some s
start_state recovery = none

abbrev pub start_message : AppLoadOutcome → Result SessionError (Unit {0}) → Option MessageId
start_message (ready s) (err e) = some (session_error_message_id e)
start_message _ _ = none

abbrev pub start_locale : Option AppState → Option Text → ResolvedLocale
unfolding resolved_locale resolve_locale
start_locale none system_locale = resolve_locale LocaleSetting.system system_locale
start_locale (some s) system_locale = resolved_locale s system_locale

abbrev pub start_theme : Option AppState → Bool → ResolvedTheme
unfolding resolved_theme
start_theme none system_is_dark = ResolvedTheme.dark
start_theme (some s) system_is_dark = resolved_theme s system_is_dark

-- `if state.set_..(setting).is_err() { .. }`.
abbrev pub failed_to : Option MessageId → Result StorageError (Unit {0}) → Option MessageId
failed_to message (ok u) = message
failed_to message (err e) = some MessageId.storage_corrupt

module _ {T Q : Type 0} where
  unfoldable pub new_view :
      AppLoadOutcome → Result SessionError (Unit {0}) → Option Text → Bool → AppView T Q
  unfolding start_locale start_theme
  new_view outcome ssh system_locale system_is_dark = record {
    state = start_state outcome;
    tabs = empty;
    secret = [];
    connect_secrets = [];
    connecting_profiles = [];
    editor = none;
    tag_manager = none;
    confirm = none;
    saving_editor = none;
    main_view = MainView.workspace;
    settings_category = SettingsCategory.general;
    pending_terminal_focus = false;
    composing = false;
    compose_tab = none;
    terminal_selecting = false;
    bell = false;
    status_message = start_message outcome ssh;
    status_rendered = none;
    locale = start_locale (start_state outcome) system_locale;
    system_locale = system_locale;
    theme = start_theme (start_state outcome) system_is_dark;
    quitting = false;
  }

  abbrev pub set_in : AppView T Q → AppState × Result StorageError (Unit {0}) → AppView T Q
  set_in v (s, r) = record v { state = some s; status_message = failed_to v.status_message r }

  unfoldable pub themed : AppView T Q → ResolvedTheme → AppView T Q
  unfolding set_terminal_colors terminal_colors
  themed v theme =
      if same_theme v.theme theme
      then v
      else record v { theme = theme; tabs = set_terminal_colors v.tabs (terminal_colors theme) }

  unfoldable pub refresh_preferences : AppView T Q → Bool → AppView T Q
  unfolding resolved_locale resolved_theme themed
  refresh_preferences v is_dark = elim v.state [
    | none ↦ v
    | some s ↦
        themed (record v { locale = resolved_locale s v.system_locale }) (resolved_theme s is_dark)
  ]

  -- From the outcome of `AppState::load`.
  unfoldable pub retry_storage :
      AppView T Q → Bool → AppLoadOutcome → Result SessionError (Unit {0}) → AppView T Q
  unfolding refresh_preferences
  retry_storage v is_dark recovery ssh = v
  retry_storage v is_dark (ready s) (ok u) =
      record (refresh_preferences (record v { state = some s }) is_dark) { status_message = none }
  retry_storage v is_dark (ready s) (err e) = record v {
    status_message = some (session_error_message_id e);
  }

  module _ ⦃texts : Texts⦄ ⦃configs : Codec AppConfig⦄ where
    unfoldable pub set_locale : Io → AppView T Q → Bool → LocaleSetting → AppView T Q
    unfolding refresh_preferences
    set_locale sys v is_dark setting = elim v.state [
      | none ↦ refresh_preferences v is_dark
      | some s ↦ refresh_preferences (set_in v (State.set_locale sys s setting)) is_dark
    ]

    unfoldable pub set_theme : Io → AppView T Q → Bool → ThemeSetting → AppView T Q
    unfolding refresh_preferences
    set_theme sys v is_dark setting = elim v.state [
      | none ↦ refresh_preferences v is_dark
      | some s ↦ refresh_preferences (set_in v (State.set_theme sys s setting)) is_dark
    ]

    unfoldable pub set_new_tab_action : Io → AppView T Q → NewTabAction → AppView T Q
    set_new_tab_action sys v setting = elim v.state [
      | none ↦ v
      | some s ↦ set_in v (State.set_new_tab_action sys s setting)
    ]
