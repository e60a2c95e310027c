-- ===== src/Desktop/Presenter.antt =====
-- crates/oxide-ssh-desktop/src/app/dialog.rs: the dialog that is shown, what Enter and Escape do in it, and
-- how it follows what the view asks for. Of a snapshot it is what the two keys read.
use oxide_ssh.Prelude.{
  Bool, true, false, List, [], ◌∷◌, Option, none, some, Result, head?, if◌then◌else◌,
}
use mathlib.Core.Logic.{ite}
use native.Mathlib.Decide.{ℕ_discrete}
use oxide_ssh.Model.Types.{Uuid, TagId}
use oxide_ssh.Model.Validate.{Texts}
use oxide_ssh.Storage.Types.{AppConfig, KnownHosts}
use oxide_ssh.Storage.Files.{Codec, Io}
use oxide_ssh.Session.Events.{HostKeyDecision, SessionError}
use oxide_ssh.Session.Handle.{Channel, Handle}
use oxide_ssh.Terminal.Types.{Emulator}
use oxide_ssh.Tabs.Modals.{ModalRequest, secret}
use oxide_ssh.Tabs.Tab.{Tab}
use oxide_ssh.Desktop.Editor.{
  EditorId, EditorSaveState, ConnectionEditor, TagManager, editor_save_state,
}
use oxide_ssh.Desktop.View.{AppView, ConfirmAction, Task}
use oxide_ssh.Desktop.Sessions.{ConnectRequest}
use oxide_ssh.Desktop.Identity.{
  DialogIdentityKind, DialogFocusIdentity, focus_identity, modal_kind, editor_kind,
}
use oxide_ssh.Desktop.Dialogs.{cancel_confirm, cancel_modal, submit_modal}
use oxide_ssh.Desktop.Controls.{perform_confirm}
use oxide_ssh.Desktop.Saving.{save_editor, cancel_editor}
use oxide_ssh.Desktop.TagRows.{commit_tag_names, close_tag_manager}

pub data DialogSnapshot : Type 0 where
  editor : EditorSaveState → DialogSnapshot
  confirm : ConfirmAction → DialogSnapshot
  tag_manager : DialogSnapshot
  modal : ModalRequest → DialogSnapshot

pub record DialogPayload : Type 0 where
  pub kind : DialogIdentityKind
  pub snapshot : DialogSnapshot

pub DialogFocusIdentity-discrete : Discrete DialogFocusIdentity
DialogFocusIdentity-discrete = hlevel ℕ_discrete

abbrev pub same_identity : Option DialogFocusIdentity → Option DialogFocusIdentity → Bool
same_identity none none = true
same_identity (some a) (some b) = ite (DialogFocusIdentity-discrete a b) true false
same_identity _ _ = false

unfoldable pub payload_focus : DialogPayload → DialogFocusIdentity
unfolding focus_identity
payload_focus p = focus_identity p.kind

unfoldable pub focus_of : Option DialogPayload → Option DialogFocusIdentity
unfolding payload_focus
focus_of none = none
focus_of (some p) = some (payload_focus p)

-- What is asked for, in the order of `requested_dialog`.
unfoldable pub asked :
    Option EditorId
    → Option ConnectionEditor
    → Option ConfirmAction
    → Option TagManager
    → Option ModalRequest
    → Option DialogPayload
unfolding editor_kind editor_save_state
asked saving (some e) c m r = some (record {
  kind = editor_kind saving e;
  snapshot = DialogSnapshot.editor (editor_save_state saving e.id);
})
asked saving none (some action) m r =
    some (record {
      kind = DialogIdentityKind.confirm action;
      snapshot = DialogSnapshot.confirm action;
    })
asked saving none none (some m) r =
    some (record { kind = DialogIdentityKind.tag_manager; snapshot = DialogSnapshot.tag_manager })
asked saving none none none (some r) =
    some (record { kind = modal_kind r; snapshot = DialogSnapshot.modal r })
asked saving none none none none = none

-- What a change of the dialog does to the focus: the terminal gets it, or the dialog does, in a call that
-- is deferred with the identity of the dialog that is asked for now.
pub data FocusChange : Type 0 where
  to_terminal : FocusChange
  to_dialog : Option DialogFocusIdentity → FocusChange

-- Where an editor's save is under way, both keys do nothing.
abbrev pub when_idle : {A : Type 0} → EditorSaveState → A → A → A
when_idle EditorSaveState.idle same done = done
when_idle _ same done = same

module _ {T Q : Type 0} where
  unfoldable pub requested_dialog : AppView T Q → Option DialogPayload
  unfolding asked
  requested_dialog v = asked v.saving_editor v.editor v.confirm v.tag_manager (head? v.tabs.modals)

  -- Of `focus_initial`, what it does to a field.
  unfoldable pub focus_initial : AppView T Q → DialogSnapshot → AppView T Q
  focus_initial v (DialogSnapshot.modal (secret id)) = record v { secret = [] }
  focus_initial v _ = v

  unfoldable pub focus_presenter : AppView T Q → Option DialogPayload → AppView T Q
  unfolding focus_initial
  focus_presenter v none = v
  focus_presenter v (some p) = focus_initial v p.snapshot

  -- The deferred call of `schedule_dialog_focus`.
  unfoldable pub deferred_focus :
      AppView T Q → Option DialogPayload → Option DialogFocusIdentity → AppView T Q
  unfolding requested_dialog focus_of focus_presenter
  deferred_focus v presenter identity =
      if same_identity (focus_of (requested_dialog v)) identity
      then focus_presenter v presenter
      else v

  abbrev pub terminal_focused : AppView T Q → AppView T Q × List FocusChange
  terminal_focused v =
      if v.pending_terminal_focus
      then (record v { pending_terminal_focus = false }, to_terminal ∷ [])
      else (v, [])

  -- The dialog that is asked for, and the one that is shown.
  unfoldable pub synced :
      AppView T Q
      → Option DialogPayload
      → Option DialogPayload
      → AppView T Q × List FocusChange × Option DialogPayload
  unfolding payload_focus
  synced v none shown = let (w, changes) = terminal_focused v in (w, changes, none)
  synced v (some p) none = (v, to_dialog (some (payload_focus p)) ∷ [], some p)
  synced v (some p) (some old) = (
    v,
    if same_identity (some (payload_focus old)) (some (payload_focus p))
        then []
        else to_dialog (some (payload_focus p)) ∷ [],
    some p,
  )

  unfoldable pub sync_dialog_layer :
      AppView T Q → Option DialogPayload → AppView T Q × List FocusChange × Option DialogPayload
  unfolding requested_dialog synced
  sync_dialog_layer v shown = synced v (requested_dialog v) shown

-- The two keys, with what the system and the coordinator answer: `rows` for the commits of the manager's
-- rows, `sys` and `again` for a confirmation.
module _ {T Q : Type 0} ⦃channel : Channel Q⦄ ⦃texts : Texts⦄ ⦃configs : Codec AppConfig⦄
    (answer : Tab T Q → Uuid → HostKeyDecision → Result SessionError (Unit {0}))
    (rows : TagId → Io) where
  unfoldable pub on_cancel : AppView T Q → DialogSnapshot → AppView T Q
  unfolding cancel_editor cancel_confirm close_tag_manager cancel_modal
  on_cancel v (DialogSnapshot.editor saving) = when_idle saving v (cancel_editor v)
  on_cancel v (DialogSnapshot.confirm action) = cancel_confirm v
  on_cancel v DialogSnapshot.tag_manager = close_tag_manager rows v
  on_cancel v (DialogSnapshot.modal request) = cancel_modal answer v request

  module _ ⦃hosts : Codec KnownHosts⦄ ⦃em : Emulator T⦄ where
    unfoldable pub on_submit :
        (ConnectRequest → Result SessionError (Handle Q))
        → Io
        → Io
        → Bool
        → AppView T Q
        → Uuid
        → DialogSnapshot
        → AppView T Q × List Task
    unfolding save_editor perform_confirm commit_tag_names submit_modal
    on_submit connect sys again coordinated v fresh (DialogSnapshot.editor saving) =
        when_idle saving (v, []) (save_editor v coordinated)
    on_submit connect sys again coordinated v fresh (DialogSnapshot.confirm action) =
        perform_confirm sys again coordinated v
    on_submit connect sys again coordinated v fresh DialogSnapshot.tag_manager =
        (commit_tag_names rows v, [])
    on_submit connect sys again coordinated v fresh (DialogSnapshot.modal request) =
        submit_modal connect answer v fresh request
