-- ===== src/Desktop/Editor.antt =====
-- crates/oxide-ssh-desktop/src/app/editor.rs and tags.rs: the open editor of a connection and the open
-- manager of tags. A text field is its value; the editor's fields are those of its form.
use oxide_ssh.Prelude.{
  ℕ, Bool, not, List, [], ◌∷◌, ◌++◌, Option, none, some, ◌==◌, if◌then◌else◌, position, erase_idx,
  retain,
}
use oxide_ssh.Model.Types.{Uuid, Text, TagId, TagColor}
use oxide_ssh.Desktop.Form.{ConnectionForm}

abbrev pub EditorId : Type 0
EditorId = Uuid

pub data EditorSaveState : Type 0 where
  idle saving_this blocked_by_other : EditorSaveState

unfoldable pub editor_save_state : Option EditorId → EditorId → EditorSaveState
editor_save_state none id = EditorSaveState.idle
editor_save_state (some saving) id =
    if saving == id then EditorSaveState.saving_this else EditorSaveState.blocked_by_other

pub record ConnectionEditor : Type 0 where
  pub id : EditorId
  pub form : ConnectionForm
  pub tag_name : Text

pub record TagManagerEntry : Type 0 where
  pub id : TagId
  pub name : Text
  pub color : Option TagColor
  pub expanded : Bool

pub record TagManager : Type 0 where
  pub entries : List TagManagerEntry
  pub new_tag : Text

-- `match position { Some(index) => remove(index), None => push(id) }`.
abbrev pub toggled_at : TagId → List TagId → Option ℕ → List TagId
toggled_at id ids none = ids ++ id ∷ []
toggled_at id ids (some index) = erase_idx ids index

unfoldable pub toggled_tag : TagId → List TagId → List TagId
toggled_tag id ids = toggled_at id ids (position (λ t. t == id) ids)

unfoldable pub with_toggled_tag : TagId → ConnectionEditor → ConnectionEditor
unfolding toggled_tag
with_toggled_tag id e = record e {
  form = record e.form { tag_ids = toggled_tag id e.form.tag_ids };
}

abbrev pub with_toggled_remember : ConnectionEditor → ConnectionEditor
with_toggled_remember e = record e { form = record e.form { remember = not e.form.remember } }

-- What the deletion of a tag leaves of the two.
abbrev pub without_entry : TagId → TagManager → TagManager
without_entry id m = record m { entries = retain (λ e. not (e.id == id)) m.entries }

abbrev pub without_tag_id : TagId → ConnectionEditor → ConnectionEditor
without_tag_id id e = record e {
  form = record e.form { tag_ids = retain (λ t. not (t == id)) e.form.tag_ids };
}
