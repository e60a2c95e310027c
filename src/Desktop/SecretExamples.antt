-- ===== src/Desktop/SecretExamples.antt =====
-- The dialog for a secret at concrete inputs: a test and a witness.
use oxide_ssh.Prelude.{ℕ, [], ◌∷◌, none, some, ok, ◌≡◌, refl}
use oxide_ssh.Storage.Samples.{working, plain_texts, bare_codec}
use oxide_ssh.Tabs.Modals.{ModalRequest}
use oxide_ssh.Tabs.Examples.{room_channel}
use oxide_ssh.Desktop.View.{AppView}
use oxide_ssh.Desktop.Editor.{EditorSaveState}
use oxide_ssh.Desktop.Presenter.{DialogSnapshot, requested_dialog, asked, on_cancel}
use oxide_ssh.Desktop.SecretLaws.{SecretField, secret_dialog, shown_after, shown_after-secret}
use oxide_ssh.Desktop.ControlExamples.{three_tabs, view}

-- Tab 8 asks for a secret while the dialog of tab 7 is shown, with a text in the field.
abbrev asking : AppView ℕ ℕ
asking = record view {
  confirm = none;
  secret = b'x' ∷ [];
  tabs = record three_tabs { modals = ModalRequest.secret 8 ∷ [] };
}

shown_after-secret_example :
    SecretField asking (shown_after asking (some (secret_dialog 7))) 8 (some (secret_dialog 7))
unfolding requested_dialog asked
shown_after-secret_example = shown_after-secret asking 8 (some (secret_dialog 7)) refl

-- Escape does nothing while a save is under way.
stays_open :
    on_cancel
      (λ t prompt decision. ok tt)
      (λ id. working)
      view
      (DialogSnapshot.editor EditorSaveState.saving_this)
    ≡ view
unfolding on_cancel
stays_open = refl
