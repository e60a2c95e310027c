-- ===== src/Desktop/ControlExamples.antt =====
-- The commands of the view at concrete inputs: tests and a witness.
use oxide_ssh.Prelude.{ℕ, false, [], ◌∷◌, none, some, ◌≡◌, refl}
use oxide_ssh.Tabs.Collection.{TabCollection, set_active}
use oxide_ssh.Tabs.Valid.{IsValid}
use oxide_ssh.Tabs.Examples.{quiet_emulator, room_channel, shell}
use oxide_ssh.Desktop.Locale.{ResolvedLocale}
use oxide_ssh.Desktop.Theme.{ResolvedTheme}
use oxide_ssh.Desktop.View.{AppView, MainView, SettingsCategory, ConfirmAction}
use oxide_ssh.Desktop.Controls.{next_place, cycle_tab}

-- Three tabs, the last of which is active.
abbrev pub three_tabs : TabCollection ℕ ℕ
three_tabs = record {
  tabs = shell 7 none ∷ shell 8 none ∷ shell 9 none ∷ [];
  active = some 9;
  modals = [];
}

abbrev pub view : AppView ℕ ℕ
view = record {
  state = none;
  tabs = three_tabs;
  secret = [];
  connect_secrets = [];
  connecting_profiles = [];
  editor = none;
  tag_manager = none;
  confirm = some ConfirmAction.quit;
  saving_editor = none;
  main_view = MainView.settings;
  settings_category = SettingsCategory.general;
  pending_terminal_focus = false;
  composing = false;
  compose_tab = none;
  terminal_selecting = false;
  bell = false;
  status_message = none;
  status_rendered = none;
  locale = ResolvedLocale.en_us;
  system_locale = none;
  theme = ResolvedTheme.dark;
  quitting = false;
}

wraps :
    cycle_tab view false
    ≡ some (record view {
      tabs = record three_tabs { active = some 7 };
      main_view = MainView.sessions;
    })
unfolding cycle_tab next_place set_active
wraps = refl

three_tabs-IsValid : IsValid three_tabs
three_tabs-IsValid = record {
  distinct = ((λ e. cc, (λ e. cc, tt)), ((λ e. cc, tt), (tt, tt)));
  consistent = (
    record { session_known = refl; over = λ h. refl },
    (
      record { session_known = refl; over = λ h. refl },
      (record { session_known = refl; over = λ h. refl }, tt),
    ),
  );
  active_known = refl;
  modals_known = tt;
  settled = tt;
}
