-- ===== src/Desktop/TagExamples.antt =====
-- The rows of the manager of tags at concrete inputs: tests and a witness.
use oxide_ssh.Prelude.{ℕ, true, [], ◌∷◌, none, some, ◌≡◌, refl}
use oxide_ssh.Model.Types.{Tag, blue}
use oxide_ssh.Storage.Types.{default_known_hosts}
use oxide_ssh.Storage.Samples.{working, bare, plain_texts, bare_codec}
use oxide_ssh.Desktop.Filter.{sorted_tags, default_filter}
use oxide_ssh.Desktop.State.{AppState}
use oxide_ssh.Desktop.Editor.{TagManagerEntry, TagManager}
use oxide_ssh.Desktop.View.{AppView}
use oxide_ssh.Desktop.TagRows.{row_of, open_tag_manager, toggle_tag_expanded, commit_tag_name}
use oxide_ssh.Desktop.TagLaws.{CommittedRow, commit_tag_name-Committed}
use oxide_ssh.Desktop.ControlExamples.{view}

abbrev pub tag_b : Tag
tag_b = record { id = 1; name = b'b' ∷ []; color = none }

abbrev pub tag_a : Tag
tag_a = record { id = 2; name = b'a' ∷ []; color = some blue }

abbrev pub tagged_state : AppState
tagged_state = record {
  store = record { config = none; known_hosts = none };
  config = record (bare 1) { tags = tag_b ∷ tag_a ∷ [] };
  known_hosts = default_known_hosts;
  search_query = [];
  tag_filter = default_filter;
}

abbrev pub tagged : AppView ℕ ℕ
tagged = record view { state = some tagged_state }

abbrev both_rows : TagManager
both_rows = record { entries = row_of tag_a ∷ row_of tag_b ∷ []; new_tag = [] }

opens_sorted : open_tag_manager tagged ≡ record tagged { tag_manager = some both_rows }
unfolding open_tag_manager sorted_tags plain_texts
opens_sorted = refl

abbrev expanded : TagManagerEntry → TagManagerEntry
expanded e = record e { expanded = true }

-- A row that expands collapses the one before it.
toggles :
    toggle_tag_expanded
      (record tagged {
        tag_manager =
            some (record both_rows { entries = expanded (row_of tag_a) ∷ row_of tag_b ∷ [] });
      })
      1
    ≡ record tagged {
      tag_manager =
          some (record both_rows { entries = row_of tag_a ∷ expanded (row_of tag_b) ∷ [] });
    }
unfolding toggle_tag_expanded
toggles = refl

-- A new name with a blank behind it.
abbrev renamed : TagManagerEntry
renamed = record (row_of tag_b) { name = b'c' ∷ b' ' ∷ [] }

abbrev renaming : AppView ℕ ℕ
renaming = record tagged {
  tag_manager = some (record both_rows { entries = row_of tag_a ∷ renamed ∷ [] });
}

commit_tag_name-Committed_example : CommittedRow (commit_tag_name working renaming 1) renamed tag_b
commit_tag_name-Committed_example =
    commit_tag_name-Committed working renaming renamed tag_b (λ h. cc) refl refl
