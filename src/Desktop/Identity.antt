-- ===== src/Desktop/Identity.antt =====
-- crates/oxide-ssh-desktop/src/app/dialog.rs: which dialog the view asks for. Of the payload it is the
-- kind in the identity; the snapshot beside it is what the dialog draws.
use oxide_ssh.Prelude.{◌≡◌, refl, Bool, Option, none, some, is_some, head?}
use oxide_ssh.Model.Types.{Uuid, TagId}
use oxide_ssh.Tabs.Modals.{TabId, ModalRequest}
use oxide_ssh.Desktop.Form.{AuthMethod}
use oxide_ssh.Desktop.Editor.{
  EditorId, EditorSaveState, ConnectionEditor, TagManager, editor_save_state, with_toggled_tag,
  with_toggled_remember,
}
use oxide_ssh.Desktop.View.{AppView, ConfirmAction}

pub data DialogIdentityKind : Type 0 where
  -- The editor, the method, whether the secret is remembered, the saving, and whether a profile is edited.
  editor : EditorId → AuthMethod → Bool → EditorSaveState → Bool → DialogIdentityKind
  confirm : ConfirmAction → DialogIdentityKind
  secret : TabId → DialogIdentityKind
  host_key : TabId → Uuid → DialogIdentityKind
  changed_host_key : TabId → Uuid → DialogIdentityKind
  confirm_close : TabId → DialogIdentityKind
  tag_manager : DialogIdentityKind

pub data DialogFocusIdentity : Type 0 where
  editor : EditorId → DialogFocusIdentity
  confirm : ConfirmAction → DialogFocusIdentity
  secret : TabId → DialogFocusIdentity
  host_key : TabId → Uuid → DialogFocusIdentity
  changed_host_key : TabId → Uuid → DialogFocusIdentity
  confirm_close : TabId → DialogFocusIdentity
  tag_manager : DialogFocusIdentity

unfoldable pub focus_identity : DialogIdentityKind → DialogFocusIdentity
focus_identity (DialogIdentityKind.editor id m r s e) = DialogFocusIdentity.editor id
focus_identity (DialogIdentityKind.confirm action) = DialogFocusIdentity.confirm action
focus_identity (DialogIdentityKind.secret t) = DialogFocusIdentity.secret t
focus_identity (DialogIdentityKind.host_key t p) = DialogFocusIdentity.host_key t p
focus_identity (DialogIdentityKind.changed_host_key t r) = DialogFocusIdentity.changed_host_key t r
focus_identity (DialogIdentityKind.confirm_close t) = DialogFocusIdentity.confirm_close t
focus_identity DialogIdentityKind.tag_manager = DialogFocusIdentity.tag_manager

abbrev pub modal_kind : ModalRequest → DialogIdentityKind
modal_kind (ModalRequest.host_key t p e a f) = DialogIdentityKind.host_key t p
modal_kind (ModalRequest.changed_host_key t r e x p) = DialogIdentityKind.changed_host_key t r
modal_kind (ModalRequest.secret t) = DialogIdentityKind.secret t
modal_kind (ModalRequest.confirm_close t) = DialogIdentityKind.confirm_close t

unfoldable pub editor_kind : Option EditorId → ConnectionEditor → DialogIdentityKind
unfolding editor_save_state
editor_kind saving e =
    DialogIdentityKind.editor e.id e.form.auth_method e.form.remember
      (editor_save_state saving e.id) (is_some e.form.previous)

-- The editor first, then what is to be confirmed, the manager of tags, and the request on top.
abbrev pub first_of :
    Option EditorId
    → Option ConnectionEditor
    → Option ConfirmAction
    → Option TagManager
    → Option ModalRequest
    → Option DialogIdentityKind
first_of saving (some e) c m r = some (editor_kind saving e)
first_of saving none (some action) m r = some (DialogIdentityKind.confirm action)
first_of saving none none (some m) r = some DialogIdentityKind.tag_manager
first_of saving none none none (some r) = some (modal_kind r)
first_of saving none none none none = none

abbrev pub in_editor :
    (ConnectionEditor → ConnectionEditor) → Option ConnectionEditor → Option ConnectionEditor
in_editor f none = none
in_editor f (some e) = some (f e)

module _ {T Q : Type 0} where
  unfoldable pub requested_kind : AppView T Q → Option DialogIdentityKind
  requested_kind v = first_of v.saving_editor v.editor v.confirm v.tag_manager (head? v.tabs.modals)

  unfoldable pub toggle_editor_tag : AppView T Q → TagId → AppView T Q
  toggle_editor_tag v id = record v { editor = in_editor (with_toggled_tag id) v.editor }

  unfoldable pub toggle_remember : AppView T Q → AppView T Q
  toggle_remember v = record v { editor = in_editor with_toggled_remember v.editor }

unfoldable focus_of : Option DialogIdentityKind → Option DialogFocusIdentity
unfolding focus_identity
focus_of none = none
focus_of (some k) = some (focus_identity k)

-- The dialog that is asked for is the same after a change of the editor's tags.
toggled_tag_kind :
    (saving : Option EditorId) (e : Option ConnectionEditor) (c : Option ConfirmAction)
    (m : Option TagManager) (r : Option ModalRequest) (id : TagId)
    → first_of saving (in_editor (with_toggled_tag id) e) c m r ≡ first_of saving e c m r
unfolding editor_kind with_toggled_tag
toggled_tag_kind saving none c m r id = refl
toggled_tag_kind saving (some e) c m r id = refl

toggled_remember_focus :
    (saving : Option EditorId) (e : Option ConnectionEditor) (c : Option ConfirmAction)
    (m : Option TagManager) (r : Option ModalRequest)
    → focus_of (first_of saving (in_editor with_toggled_remember e) c m r)
      ≡ focus_of (first_of saving e c m r)
unfolding editor_kind focus_of focus_identity
toggled_remember_focus saving none c m r = refl
toggled_remember_focus saving (some e) c m r = refl

module _ {T Q : Type 0} where
  -- A change of the editor's tags asks for the dialog that was asked for before it.
  requested_kind-toggle_editor_tag :
      (v : AppView T Q) (id : TagId) → requested_kind (toggle_editor_tag v id) ≡ requested_kind v
  unfolding requested_kind toggle_editor_tag
  requested_kind-toggle_editor_tag v id =
      toggled_tag_kind v.saving_editor v.editor v.confirm v.tag_manager (head? v.tabs.modals) id

  -- A change of whether the secret is remembered leaves what is focused the same.
  requested_kind-toggle_remember :
      (v : AppView T Q)
      → focus_of (requested_kind (toggle_remember v)) ≡ focus_of (requested_kind v)
  unfolding requested_kind toggle_remember
  requested_kind-toggle_remember v =
      toggled_remember_focus v.saving_editor v.editor v.confirm v.tag_manager (head? v.tabs.modals)
