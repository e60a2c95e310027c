-- ===== src/Desktop/CommandExamples.antt =====
-- The banner and the settings at concrete inputs: tests and witnesses.
use oxide_ssh.Prelude.{ℕ, true, List, [], ◌∷◌, none, some, ◌≡◌, refl, inl, inr}
use oxide_ssh.Model.Types.{ThemeSetting}
use oxide_ssh.Storage.Samples.{working, plain_texts, bare_codec}
use oxide_ssh.Terminal.Model.{set_default_colors}
use oxide_ssh.Tabs.Collection.{set_terminal_colors}
use oxide_ssh.Desktop.Locale.{MessageId}
use oxide_ssh.Desktop.Theme.{ResolvedTheme, terminal_colors}
use oxide_ssh.Desktop.View.{AppView, ConfirmAction, exit}
use oxide_ssh.Desktop.Commands.{
  on_quit_app, has_live_tabs, sync_status, status_expired, same_message,
}
use oxide_ssh.Desktop.StatusLaws.{
  Action, IsWaiting, ShowsAgain, message, frame, expire, draw, run, act, expired, run-Cleared,
}
use oxide_ssh.Desktop.Preferences.{set_theme}
use oxide_ssh.Desktop.PreferenceLaws.{IsColored, ThemedView, set_theme-Themed}
use oxide_ssh.Desktop.ControlExamples.{view}
use oxide_ssh.Desktop.TagExamples.{tagged_state, tagged}

abbrev actions : List Action
actions =
    message (some MessageId.bell)
    ∷ frame
    ∷ message none
    ∷ expire 0
    ∷ frame
    ∷ message (some MessageId.bell)
    ∷ []

never : ¬ (ShowsAgain (view, []) actions)
unfolding ShowsAgain draw act expired sync_status status_expired same_message
never (inl (drawn, n)) = cc
never (inr (inl s)) = s
never (inr (inr (inl s))) = s
never (inr (inr (inr (inl s)))) = s
never (inr (inr (inr (inr (inl s))))) = s
never (inr (inr (inr (inr (inr (inl (drawn, n))))))) = cc
never (inr (inr (inr (inr (inr (inr s)))))) = s

-- A message is drawn and dismissed, its timer ends, and it is shown again after a frame.
run-Cleared_example : IsWaiting MessageId.bell (draw (run (view, []) actions)).1
unfolding draw run act expired sync_status status_expired same_message
run-Cleared_example = run-Cleared view [] actions MessageId.bell tt never refl

asks_first : on_quit_app view ≡ (record view { confirm = some ConfirmAction.quit_app }, [])
unfolding on_quit_app has_live_tabs
asks_first = refl

quits : on_quit_app (record view { quitting = true }) ≡ (record view { quitting = true }, exit ∷ [])
unfolding on_quit_app has_live_tabs
quits = refl

abbrev dark_tabs : AppView ℕ ℕ
dark_tabs = record tagged {
  tabs = set_terminal_colors tagged.tabs (terminal_colors ResolvedTheme.dark);
}

dark_tabs-IsColored : IsColored ResolvedTheme.dark dark_tabs.tabs.tabs
unfolding set_terminal_colors set_default_colors
dark_tabs-IsColored = (refl, (refl, (refl, tt)))

set_theme-Themed_example :
    ThemedView
      (set_theme working dark_tabs true ThemeSetting.light)
      tagged_state
      true
      ThemeSetting.light
set_theme-Themed_example =
    set_theme-Themed working dark_tabs true ThemeSetting.light tagged_state refl dark_tabs-IsColored
