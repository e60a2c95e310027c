-- ===== src/Desktop/SavingExamples.antt =====
-- Editors and tags at concrete inputs: tests and witnesses.
use oxide_ssh.Prelude.{ℕ, true, [], ◌∷◌, none, some, ok, refl}
use oxide_ssh.Model.Types.{ConnectionProfile}
use oxide_ssh.Storage.Samples.{working, plain_texts, bare_codec}
use oxide_ssh.Credentials.Types.{SaveProfileOutcome}
use oxide_ssh.Credentials.Samples.{profile_5}
use oxide_ssh.Desktop.Form.{edit}
use oxide_ssh.Desktop.View.{AppView}
use oxide_ssh.Desktop.Saving.{new_editor, profile_saved}
use oxide_ssh.Desktop.SavingLaws.{
  IsOneSave, edit_connection, cancel, save, answer, run, run-OneSave,
}
use oxide_ssh.Desktop.AnswerLaws.{AnsweredEditor, profile_saved-Answered}
use oxide_ssh.Desktop.ControlExamples.{view}

abbrev plain_5 : ConnectionProfile
plain_5 = profile_5 none

abbrev saved_5 : SaveProfileOutcome
saved_5 = record { profile = plain_5; connect_secret = none }

run-OneSave_example :
    let (w, left) =
      run
        (view, [])
        (edit_connection 20 plain_5
          ∷ save true
          ∷ cancel
          ∷ answer 0 working (record { config = none; known_hosts = none }, ok saved_5)
          ∷ []) in
    IsOneSave w.saving_editor left
run-OneSave_example =
    run-OneSave view []
      (edit_connection 20 plain_5
        ∷ save true
        ∷ cancel
        ∷ answer 0 working (record { config = none; known_hosts = none }, ok saved_5)
        ∷ [])
      refl

-- An editor that was opened while another was being saved.
abbrev editing : AppView ℕ ℕ
editing = record view { editor = some (new_editor 21 (edit plain_5)); saving_editor = some 20 }

profile_saved-Answered_example :
    AnsweredEditor
      (profile_saved working editing 20 (record { config = none; known_hosts = none }, ok saved_5))
      20
      (new_editor 21 (edit plain_5))
      (ok saved_5)
      (ok tt)
profile_saved-Answered_example =
    profile_saved-Answered working editing 20 (new_editor 21 (edit plain_5))
      (record { config = none; known_hosts = none }, ok saved_5) refl
