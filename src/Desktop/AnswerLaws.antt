-- ===== src/Desktop/AnswerLaws.antt =====
-- crates/oxide-ssh-desktop/src/app/editor.rs: which editor the answer to a transaction closes.
use oxide_ssh.Prelude.{
  ◌≡◌, refl, inl, inr, ◌≢◌, Bool, sym, ◌∙◌, true, false, Option, none, some, Result, ok, err, ◌==◌,
  Bool-cases, ==_iff,
}
use oxide_ssh.Model.Validate.{Texts}
use oxide_ssh.Storage.Types.{AppConfig, StorageError}
use oxide_ssh.Storage.Files.{Codec, Io}
use oxide_ssh.Storage.Store.{AppStore}
use oxide_ssh.Credentials.Types.{CredentialTransactionError, SaveProfileOutcome}
use oxide_ssh.Desktop.Locale.{MessageId}
use oxide_ssh.Desktop.Messages.{transaction_error_message_id}
use oxide_ssh.Desktop.State.{AppState, reload_config}
use oxide_ssh.Desktop.Editor.{EditorId, ConnectionEditor}
use oxide_ssh.Desktop.View.{AppView}
use oxide_ssh.Desktop.Controls.{with_files}
use oxide_ssh.Desktop.Saving.{
  with_connect_secret, saving_done, is_open, close_saved, reread_saved, after_reload, profile_saved,
}

-- What rereading the files answers, where there is a state.
abbrev pub reread_answer :
    ⦃texts : Texts⦄ ⦃configs : Codec AppConfig⦄
    → Io
    → Option AppState
    → Result StorageError (Unit {0})
reread_answer sys none = ok tt
reread_answer sys (some s) = (reload_config sys s).1

module _ {T Q : Type 0} where
  -- The editor and the message after a profile was saved, from what rereading the files answered.
  abbrev pub RereadEditor :
      AppView T Q → EditorId → ConnectionEditor → Result StorageError (Unit {0}) → Type 0
  RereadEditor w id e (err x) =
      (w.editor ≡ some e) × (w.status_message ≡ some MessageId.storage_corrupt)
  RereadEditor w id e (ok u) =
      (e.id ≡ id → w.editor ≡ none) × (e.id ≢ id → w.editor ≡ some e) × (w.status_message ≡ none)

  -- The same after any answer: `w` is the view after it, with `e` open before.
  abbrev pub AnsweredEditor :
      AppView T Q
      → EditorId
      → ConnectionEditor
      → Result CredentialTransactionError SaveProfileOutcome
      → Result StorageError (Unit {0})
      → Type 0
  AnsweredEditor w id e (err x) reread =
      (w.editor ≡ some e) × (w.status_message ≡ some (transaction_error_message_id x))
  AnsweredEditor w id e (ok outcome) reread = RereadEditor w id e reread

  close_saved-Reread :
      (v : AppView T Q) (id : EditorId) (e : ConnectionEditor)
      → v.editor ≡ some e
      → RereadEditor (close_saved v id) id e (ok tt)
  unfolding close_saved
  close_saved-Reread v id e open_now = elim (Bool-cases (e.id == id)) [
    | inl same ↦
        let closes : is_open id v.editor ≡ true = rw open_now same in
        ((λ h. rw closes refl), (λ n. absurd (n ((==_iff e.id id).0 same))), refl)
    | inr other ↦
        let stays : is_open id v.editor ≡ false = rw open_now other in
        ((λ h. absurd (differ (sym other ∙ (==_iff e.id id).1 h))), (λ n. rw stays open_now), refl)
  ]
    where
      differ : ¬ (◌≡◌ {A = Bool} false true)
      differ h = cc

  module _ ⦃texts : Texts⦄ ⦃configs : Codec AppConfig⦄ where
    reread_saved-Reread :
        (v : AppView T Q) (id : EditorId) (e : ConnectionEditor)
        (r : AppState × Result StorageError (Unit {0}))
        → v.editor ≡ some e
        → RereadEditor (reread_saved v id r) id e r.1
    unfolding reread_saved
    reread_saved-Reread v id e (s, ok u) h = close_saved-Reread (record v { state = some s }) id e h
    reread_saved-Reread v id e (s, err x) h = (h, refl)

    reload-Reread :
        (sys : Io) (v : AppView T Q) (id : EditorId) (e : ConnectionEditor) (o : Option AppState)
        → v.editor ≡ some e
        → RereadEditor (after_reload sys v id o) id e (reread_answer sys o)
    unfolding after_reload
    reload-Reread sys v id e none h = close_saved-Reread v id e h
    reload-Reread sys v id e (some s) h = reread_saved-Reread v id e (reload_config sys s) h

    -- The answer to a transaction, with an editor open. A failure leaves the editor as it is, with all
    -- that is typed in it, and shows its message; so does a save behind which the files cannot be
    -- reread. Otherwise no message is shown, and the editor is closed if it is the one whose
    -- profile was saved, and left as it is if it is another.
    pub profile_saved-Answered :
        (sys : Io) (v : AppView T Q) (id : EditorId) (e : ConnectionEditor)
        (r : AppStore × Result CredentialTransactionError SaveProfileOutcome)
        → v.editor ≡ some e
        → AnsweredEditor
            (profile_saved sys v id r)
            id
            e
            r.1
            (reread_answer sys (with_files r.0 v.state))
    unfolding profile_saved saving_done with_connect_secret
    profile_saved-Answered sys v id e (store, err x) h = (h, refl)
    profile_saved-Answered sys v id e (store, ok outcome) h =
        reload-Reread sys (with_connect_secret (saving_done v id) outcome) id e
          (with_files store v.state) h
