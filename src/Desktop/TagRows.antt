-- ===== src/Desktop/TagRows.antt =====
-- crates/oxide-ssh-desktop/src/app/tags.rs: the rows of the dialog that manages tags. A row's field is
-- the text in it; a row is committed when its field loses the focus and when the dialog closes.
use oxide_ssh.Prelude.{
  ℕ, Bool, true, false, not, ◌&&◌, List, [], ◌∷◌, ◌++◌, Option, none, some, Result, ok, err, ◌==◌,
  if◌then◌else◌, map, find, update_first,
}
use oxide_ssh.Model.Types.{
  Text, TagId, Tag, TagColor, red, orange, yellow, green, blue, purple, pink, gray,
}
use oxide_ssh.Model.Text.{trim, text_eq}
use oxide_ssh.Model.Validate.{Texts}
use oxide_ssh.Storage.Types.{AppConfig, StorageError}
use oxide_ssh.Storage.Files.{Codec, Io}
use oxide_ssh.Desktop.Sorting.{sort_by, text_cmp}
use oxide_ssh.Desktop.Filter.{sorted_tags}
use oxide_ssh.Desktop.Messages.{tag_storage_error_message_id}
use oxide_ssh.Desktop.State.{AppState, tag, create_tag, update_tag}
use oxide_ssh.Desktop.Editor.{TagManagerEntry, TagManager}
use oxide_ssh.Desktop.View.{AppView}

-- `==` on colours: the place of each in the enumeration.
abbrev pub place_in_colors : TagColor → ℕ
place_in_colors red = 0
place_in_colors orange = 1
place_in_colors yellow = 2
place_in_colors green = 3
place_in_colors blue = 4
place_in_colors purple = 5
place_in_colors pink = 6
place_in_colors gray = 7

abbrev pub same_color : Option TagColor → Option TagColor → Bool
same_color none none = true
same_color (some a) (some b) = place_in_colors a == place_in_colors b
same_color _ _ = false

abbrev pub is_entry : TagId → TagManagerEntry → Bool
is_entry id e = e.id == id

abbrev pub found_row : Option TagManager → TagId → Option TagManagerEntry
found_row none id = none
found_row (some m) id = find (is_entry id) m.entries

-- A change of the row that `find` gives.
abbrev pub in_entry :
    TagId → (TagManagerEntry → TagManagerEntry) → Option TagManager → Option TagManager
in_entry id f none = none
in_entry id f (some m) = some (record m { entries = update_first (is_entry id) f m.entries })

abbrev pub row_of : Tag → TagManagerEntry
row_of t = record { id = t.id; name = t.name; color = t.color; expanded = false }

abbrev pub tag_of : Option AppState → TagId → Option Tag
tag_of none id = none
tag_of (some s) id = tag s id

abbrev pub is_same : Text → Option TagColor → Option Tag → Bool
is_same name color none = false
is_same name color (some t) = text_eq t.name name && same_color t.color color

-- What an update that was stored makes of the row.
abbrev pub stored_row : Text → Option TagColor → TagManagerEntry → TagManagerEntry
stored_row name color e = record e {
  color = color;
  name = if text_eq (trim e.name) name then e.name else name;
}

-- After a failure the row shows the stored name again.
abbrev pub restored_row : Option Tag → TagManagerEntry → TagManagerEntry
restored_row none e = e
restored_row (some t) e = record e { name = t.name }

abbrev pub toggled_row : TagId → TagManagerEntry → TagManagerEntry
toggled_row id e = record e { expanded = e.id == id && not e.expanded }

abbrev pub entry_ids : Option TagManager → List TagId
entry_ids none = []
entry_ids (some m) = map (λ e. e.id) m.entries

abbrev pub toggled_rows : TagId → Option TagManager → Option TagManager
toggled_rows id none = none
toggled_rows id (some m) = some (record m { entries = map (toggled_row id) m.entries })

abbrev pub manager_of : List Tag → TagManager
manager_of tags = record { entries = map row_of tags; new_tag = [] }

module _ ⦃texts : Texts⦄ where
  -- The new row stands by its name in lower case.
  abbrev pub row_added : Tag → Option TagManager → Option TagManager
  row_added t none = none
  row_added t (some m) = some (record m {
    entries =
        sort_by (λ a b. text_cmp (texts.to_lowercase a.name) (texts.to_lowercase b.name))
          (m.entries ++ row_of t ∷ []);
    new_tag = [];
  })

module _ {T Q : Type 0} where
  unfoldable pub toggle_tag_expanded : AppView T Q → TagId → AppView T Q
  toggle_tag_expanded v id = record v { tag_manager = toggled_rows id v.tag_manager }

  module _ ⦃texts : Texts⦄ where
    abbrev pub manager_opened : AppView T Q → Option TagManager → Option AppState → AppView T Q
    unfolding sorted_tags
    manager_opened v (some m) s = v
    manager_opened v none none = v
    manager_opened v none (some s) = record v {
      tag_manager = some (manager_of (sorted_tags s.config));
    }

    unfoldable pub open_tag_manager : AppView T Q → AppView T Q
    open_tag_manager v = manager_opened v v.tag_manager v.state

  module _ ⦃texts : Texts⦄ ⦃configs : Codec AppConfig⦄ where
    unfoldable pub tag_updated :
        AppView T Q
        → TagId
        → Text
        → Option TagColor
        → AppState × Result StorageError (Unit {0})
        → AppView T Q
    tag_updated v id name color (s, ok u) = record v {
      state = some s;
      tag_manager = in_entry id (stored_row name color) v.tag_manager;
    }
    tag_updated v id name color (s, err e) = record v {
      state = some s;
      status_message = some (tag_storage_error_message_id e);
      tag_manager = in_entry id (restored_row (tag s id)) v.tag_manager;
    }

    abbrev pub update_in :
        Io → AppView T Q → TagId → Text → Option TagColor → Option AppState → AppView T Q
    unfolding tag_updated
    update_in sys v id name color none = v
    update_in sys v id name color (some s) =
        tag_updated v id name color (update_tag sys s id name color)

    unfoldable pub apply_tag_update :
        Io → AppView T Q → TagId → Text → Option TagColor → AppView T Q
    apply_tag_update sys v id name color =
        if is_same name color (tag_of v.state id) then v else update_in sys v id name color v.state

    abbrev pub commit_typed : Io → AppView T Q → TagId → Option TagColor → Text → AppView T Q
    unfolding apply_tag_update
    commit_typed sys v id color [] = v
    commit_typed sys v id color (c ∷ cs) = apply_tag_update sys v id (c ∷ cs) color

    abbrev pub commit_entry : Io → AppView T Q → TagId → Option TagManagerEntry → AppView T Q
    commit_entry sys v id none = v
    commit_entry sys v id (some e) = commit_typed sys v id e.color (trim e.name)

    unfoldable pub commit_tag_name : Io → AppView T Q → TagId → AppView T Q
    commit_tag_name sys v id = commit_entry sys v id (found_row v.tag_manager id)

    -- Each row's call has what the system lets pass in it.
    abbrev pub commit_each : (TagId → Io) → AppView T Q → List TagId → AppView T Q
    unfolding commit_tag_name
    commit_each sys v [] = v
    commit_each sys v (id ∷ ids) = commit_each sys (commit_tag_name (sys id) v id) ids

    unfoldable pub commit_tag_names : (TagId → Io) → AppView T Q → AppView T Q
    commit_tag_names sys v = commit_each sys v (entry_ids v.tag_manager)

    unfoldable pub close_tag_manager : (TagId → Io) → AppView T Q → AppView T Q
    unfolding commit_tag_names
    close_tag_manager sys v = record (commit_tag_names sys v) { tag_manager = none }

    -- A name that was cleared keeps the stored one.
    abbrev pub with_color :
        Io → AppView T Q → TagId → Option TagColor → Text → Option Tag → AppView T Q
    unfolding apply_tag_update
    with_color sys v id color (c ∷ cs) t = apply_tag_update sys v id (c ∷ cs) color
    with_color sys v id color [] none = v
    with_color sys v id color [] (some t) = apply_tag_update sys v id t.name color

    abbrev pub color_entry :
        Io → AppView T Q → TagId → Option TagColor → Option TagManagerEntry → AppView T Q
    color_entry sys v id color none = v
    color_entry sys v id color (some e) =
        with_color sys v id color (trim e.name) (tag_of v.state id)

    unfoldable pub set_tag_color : Io → AppView T Q → TagId → Option TagColor → AppView T Q
    set_tag_color sys v id color = color_entry sys v id color (found_row v.tag_manager id)

    abbrev pub row_made :
        AppView T Q → AppState × Result StorageError Tag → AppView T Q × Option TagManagerEntry
    row_made v (s, ok t) =
        (record v { state = some s; tag_manager = row_added t v.tag_manager }, some (row_of t))
    row_made v (s, err e) =
        (record v { state = some s; status_message = some (tag_storage_error_message_id e) }, none)

    abbrev pub make_row :
        Io → AppView T Q → TagId → Text → Option AppState → AppView T Q × Option TagManagerEntry
    unfolding create_tag
    make_row sys v fresh [] s = (v, none)
    make_row sys v fresh (c ∷ cs) none = (v, none)
    make_row sys v fresh (c ∷ cs) (some s) = row_made v (create_tag sys s fresh (c ∷ cs) none)

    unfoldable pub create_tag_from_manager :
        Io → AppView T Q → TagId → AppView T Q × Option TagManagerEntry
    create_tag_from_manager sys v fresh = elim v.tag_manager [
      | none ↦ (v, none)
      | some m ↦ make_row sys v fresh (trim m.new_tag) v.state
    ]
