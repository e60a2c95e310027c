-- ===== src/Desktop/Filter.antt =====
-- crates/oxide-ssh-desktop/src/state/mod.rs: `TagFilter`, and which profiles the sidebar shows in which
-- order. A hash set is a list.
use oxide_ssh.Prelude.{
  ℕ, Bool, true, false, not, ◌&&◌, ◌||◌, List, [], ◌∷◌, ◌==◌, if◌then◌else◌, any, find, is_some_and,
  retain,
}
use oxide_ssh.Model.Types.{Text, TagId, Tag, ProfileId, ConnectionProfile}
use oxide_ssh.Model.Text.{trim}
use oxide_ssh.Model.Validate.{Texts}
use oxide_ssh.Storage.Types.{AppConfig}
use oxide_ssh.Desktop.Sorting.{sort_by, cmp_by}

pub record TagFilter : Type 0 where
  pub tags : List TagId
  pub untagged : Bool

abbrev pub default_filter : TagFilter
default_filter = record { tags = []; untagged = false }

abbrev pub is_empty_list {ℓ} : {A : Type ℓ} → List A → Bool
is_empty_list [] = true
is_empty_list (x ∷ xs) = false

abbrev pub has : List ℕ → ℕ → Bool
has xs x = any (λ y. y == x) xs

unfoldable pub is_active : TagFilter → Bool
is_active f = f.untagged || not (is_empty_list f.tags)

unfoldable pub matches : TagFilter → ConnectionProfile → Bool
unfolding is_active
matches f p =
    if not (is_active f)
    then true
    else (f.untagged && is_empty_list p.tag_ids) || any (has f.tags) p.tag_ids

-- `HashSet::remove`: the set that is left.
abbrev pub removed : List ℕ → ℕ → List ℕ
removed xs x = retain (λ y. not (y == x)) xs

unfoldable pub toggle_tag : TagFilter → TagId → TagFilter
toggle_tag f id =
    if not (has f.tags id)
    then record { tags = id ∷ f.tags; untagged = false }
    else record f { tags = removed f.tags id }

unfoldable pub toggle_untagged : TagFilter → TagFilter
toggle_untagged f =
    if not f.untagged then record { tags = []; untagged = true } else record f { untagged = false }

-- `str::starts_with` and `str::contains`.
abbrev pub starts_with : Text → Text → Bool
starts_with s [] = true
starts_with [] (d ∷ ds) = false
starts_with (c ∷ cs) (d ∷ ds) = c == d && starts_with cs ds

abbrev pub contains : Text → Text → Bool
contains [] q = is_empty_list q
contains (c ∷ cs) q = starts_with (c ∷ cs) q || contains cs q

abbrev pub profile_id : ConnectionProfile → ProfileId
profile_id p = p.id

module _ ⦃texts : Texts⦄ where
  -- The closure on a profile's tags.
  unfoldable pub tag_contains : List Tag → Text → TagId → Bool
  tag_contains tags query id =
      is_some_and (find (λ t. t.id == id) tags) (λ t. contains (texts.to_lowercase t.name) query)

  unfoldable pub is_shown : AppConfig → TagFilter → Text → ConnectionProfile → Bool
  is_shown config filter query p =
      matches filter p
      && (is_empty_list query
          || contains (texts.to_lowercase p.name) query
          || contains (texts.to_lowercase p.endpoint.host) query
          || contains (texts.to_lowercase p.username) query
          || any (tag_contains config.tags query) p.tag_ids)

  abbrev pub lower_query : Text → Text
  lower_query search = texts.to_lowercase (trim search)

  abbrev pub lower_name : ConnectionProfile → Text
  lower_name p = texts.to_lowercase p.name

  unfoldable pub filtered_profiles : AppConfig → TagFilter → Text → List ConnectionProfile
  filtered_profiles config filter search =
      sort_by (cmp_by lower_name profile_id)
        (retain (is_shown config filter (lower_query search)) config.profiles)

  unfoldable pub sorted_tags : AppConfig → List Tag
  sorted_tags config =
      sort_by (cmp_by (λ (t : Tag). texts.to_lowercase t.name) (λ (t : Tag). t.id)) config.tags
