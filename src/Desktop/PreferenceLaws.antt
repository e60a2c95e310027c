-- ===== src/Desktop/PreferenceLaws.antt =====
-- crates/oxide-ssh-desktop/src/app/mod.rs: the terminals have the colours of the theme that is stored.
use oxide_ssh.Prelude.{
  Bool, true, some, Result, ok, err, Bool-cases, All, map, List, [], ◌∷◌, ◌≡◌, refl, ◌⊎◌, inl, inr,
}
use oxide_ssh.Model.Types.{ThemeSetting}
use oxide_ssh.Model.Validate.{Texts}
use oxide_ssh.Storage.Types.{AppConfig, StorageError}
use oxide_ssh.Storage.Files.{Codec, Io}
use oxide_ssh.Storage.Store.{AppStore, save_config}
use oxide_ssh.Tabs.Tab.{Tab}
use oxide_ssh.Tabs.Collection.{set_terminal_colors, recolor}
use oxide_ssh.Terminal.Model.{set_default_colors}
use oxide_ssh.Desktop.Locale.{MessageId}
use oxide_ssh.Desktop.Theme.{ResolvedTheme, resolve, terminal_colors}
use oxide_ssh.Desktop.State.{AppState, with_theme, saved, save_change}
use oxide_ssh.Desktop.State as State
use oxide_ssh.Desktop.View.{AppView}
use oxide_ssh.Desktop.Preferences.{
  same_theme, resolved_locale, resolved_theme, set_in, themed, refresh_preferences, set_theme,
}

same_theme-eq : (a b : ResolvedTheme) → same_theme a b ≡ true → a ≡ b
same_theme-eq ResolvedTheme.light ResolvedTheme.light h = refl
same_theme-eq ResolvedTheme.dark ResolvedTheme.dark h = refl
same_theme-eq ResolvedTheme.light ResolvedTheme.dark h = cc
same_theme-eq ResolvedTheme.dark ResolvedTheme.light h = cc

module _ {T Q : Type 0} where
  -- Each tab's terminal has the colours of a theme.
  abbrev pub IsColored : ResolvedTheme → List (Tab T Q) → Type 0
  IsColored theme tabs = All (λ t. t.terminal.default_colors ≡ terminal_colors theme) tabs

  recolored-Colored :
      (theme : ResolvedTheme) (ts : List (Tab T Q))
      → IsColored theme (map (recolor (terminal_colors theme)) ts)
  unfolding recolor set_default_colors
  recolored-Colored theme [] = tt
  recolored-Colored theme (t ∷ ts) = (refl, recolored-Colored theme ts)

  themed-Colored :
      (v : AppView T Q) (theme : ResolvedTheme)
      → IsColored v.theme v.tabs.tabs
      → ((themed v theme).theme ≡ theme)
        × IsColored (themed v theme).theme (themed v theme).tabs.tabs
  unfolding themed set_terminal_colors
  themed-Colored v theme h = elim (Bool-cases (same_theme v.theme theme)) [
    | inl same ↦ let e = same_theme-eq v.theme theme same in rw same (e, h)
    | inr other ↦ rw other (refl, recolored-Colored theme v.tabs.tabs)
  ]

  -- The theme and the message after a change of the stored theme, from what the store answers.
  abbrev pub ThemedView : AppView T Q → AppState → Bool → ThemeSetting → Type 0
  ThemedView w s is_dark setting =
      IsColored w.theme w.tabs.tabs
      × ((w.theme ≡ resolve setting is_dark)
          ⊎ ((w.theme ≡ resolved_theme s is_dark)
              × (w.status_message ≡ some MessageId.storage_corrupt)))

  themed-message :
      (v : AppView T Q) (theme : ResolvedTheme) → (themed v theme).status_message ≡ v.status_message
  unfolding themed
  themed-message v theme = elim (Bool-cases (same_theme v.theme theme)) [
    | inl same ↦ rw same refl
    | inr other ↦ rw other refl
  ]

  stored-Themed :
      (v : AppView T Q) (is_dark : Bool) (setting : ThemeSetting) (s : AppState)
      (r : AppStore × Result StorageError (Unit {0}))
      → IsColored v.theme v.tabs.tabs
      → ThemedView
          (refresh_preferences (set_in v (saved s (with_theme s.config setting) r)) is_dark)
          s
          is_dark
          setting
  unfolding refresh_preferences
  stored-Themed v is_dark setting s (store, ok u) h =
      let now : AppState = record s { store = store; config = with_theme s.config setting } in
      let w : AppView T Q = record v {
        state = some now;
        locale = resolved_locale now v.system_locale;
      } in
      let (same, colored) = themed-Colored w (resolve setting is_dark) h in (colored, inl same)
  stored-Themed v is_dark setting s (store, err e) h =
      let now : AppState = record s { store = store } in
      let w : AppView T Q = record v {
        state = some now;
        status_message = some MessageId.storage_corrupt;
        locale = resolved_locale now v.system_locale;
      } in
      let theme = resolved_theme s is_dark in
      let (same, colored) = themed-Colored w theme h in
      (colored, inr (same, themed-message w theme))

  module _ ⦃texts : Texts⦄ ⦃configs : Codec AppConfig⦄ where
    -- A change of the theme, with every terminal in the colours of the theme before: after it every
    -- terminal has the colours of the theme that the view has. That is the chosen one, or, with a
    -- message that the file could not be written, the one that was stored before.
    pub set_theme-Themed :
        (sys : Io) (v : AppView T Q) (is_dark : Bool) (setting : ThemeSetting) (s : AppState)
        → v.state ≡ some s
        → IsColored v.theme v.tabs.tabs
        → ThemedView (set_theme sys v is_dark setting) s is_dark setting
    unfolding set_theme State.set_theme save_change
    set_theme-Themed sys v is_dark setting s now h = rw now (
        stored-Themed v is_dark setting s (save_config sys s.store (with_theme s.config setting)) h)
