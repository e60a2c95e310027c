-- ===== src/Desktop/TagLaws.antt =====
-- crates/oxide-ssh-desktop/src/app/tags.rs: a row that is committed shows the name that is stored.
use oxide_ssh.Prelude.{
  ℕ, Bool, true, List, [], ◌∷◌, Option, none, some, Result, ok, err, ◌==◌, is_some, find,
  update_first, any, if◌then◌else◌, Bool-cases, ◌≡◌, refl, sym, ap, ◌∙◌, subst, inl, inr, ◌⊎◌,
  arith, ==_iff,
}
use oxide_ssh.Model.Types.{
  Text, TagId, Tag, TagColor, red, orange, yellow, green, blue, purple, pink, gray,
}
use oxide_ssh.Model.Text.{trim, eq_of_text_eq, text_eq_refl}
use oxide_ssh.Model.Trim.{trim-trim}
use oxide_ssh.Model.Validate.{Texts}
use oxide_ssh.Storage.Types.{AppConfig, StorageError}
use oxide_ssh.Storage.Files.{Codec, Io}
use oxide_ssh.Storage.Store.{AppStore, save_config}
use oxide_ssh.Desktop.State.{AppState, tag, recolored, saved, save_change, update_tag}
use oxide_ssh.Desktop.Editor.{TagManagerEntry, TagManager}
use oxide_ssh.Desktop.View.{AppView}
use oxide_ssh.Desktop.TagRows.{
  place_in_colors, same_color, is_entry, found_row, in_entry, tag_of, is_same, stored_row,
  restored_row, tag_updated, update_in, apply_tag_update, commit_typed, commit_tag_name,
}

color_at : ℕ → TagColor
color_at n =
    if n == 0
    then red
    else if n == 1
    then orange
    else if n == 2
    then yellow
    else if n == 3
    then green
    else if n == 4
    then blue
    else if n == 5
    then purple
    else if n == 6
    then pink
    else gray

color_at-place_in_colors : (a : TagColor) → color_at (place_in_colors a) ≡ a
unfolding color_at
color_at-place_in_colors red = refl
color_at-place_in_colors orange = refl
color_at-place_in_colors yellow = refl
color_at-place_in_colors green = refl
color_at-place_in_colors blue = refl
color_at-place_in_colors purple = refl
color_at-place_in_colors pink = refl
color_at-place_in_colors gray = refl

same_place : (a b : TagColor) → place_in_colors a ≡ place_in_colors b → a ≡ b
same_place a b h = sym (color_at-place_in_colors a) ∙ ap color_at h ∙ color_at-place_in_colors b

same_color-eq : (a b : Option TagColor) → same_color a b ≡ true → a ≡ b
same_color-eq none none h = refl
same_color-eq (some a) (some b) h = ap some (same_place a b ((==_iff _ _).0 h))
same_color-eq none (some b) h = cc
same_color-eq (some a) none h = cc

is_same-eq :
    (name : Text) (color : Option TagColor) (t : Tag)
    → is_same name color (some t) ≡ true
    → (t.name ≡ name) × (t.color ≡ color)
is_same-eq name color t h = ground (arith, eq_of_text_eq t.name name, same_color-eq t.color color)

some_inj : {A : Type 0} {a b : A} → ◌≡◌ {A = Option A} (some a) (some b) → a ≡ b
some_inj h = cc

-- The element that was changed is found where the old one was.
found_changed :
    {A : Type 0} (p : A → Bool) (f : A → A) (xs : List A) {x : A}
    → find p xs ≡ some x
    → p (f x) ≡ true
    → find p (update_first p f xs) ≡ some (f x)
found_changed p f [] h k = cc
found_changed p f (y ∷ ys) {x} h k = elim (Bool-cases (p y)) [
  | inl hit ↦ let same : y ≡ x = some_inj (rw hit at h) in rw (hit, same, k) refl
  | inr miss ↦ rw (miss, miss) (found_changed p f ys (rw miss at h) k)
]

found_is_there :
    {A : Type 0} (p : A → Bool) (xs : List A) {x : A}
    → find p xs ≡ some x
    → (p x ≡ true) × (any p xs ≡ true)
found_is_there p [] h = cc
found_is_there p (y ∷ ys) {x} h = elim (Bool-cases (p y)) [
  | inl hit ↦ let same : y ≡ x = some_inj (rw hit at h) in (rw (sym same) hit, rw hit refl)
  | inr miss ↦ rw miss (found_is_there p ys (rw miss at h))
]

in_entry-found :
    (id : TagId) (f : TagManagerEntry → TagManagerEntry) (o : Option TagManager)
    {e : TagManagerEntry}
    → found_row o id ≡ some e
    → (f e).id ≡ e.id
    → found_row (in_entry id f o) id ≡ some (f e)
in_entry-found id f none h k = cc
in_entry-found id f (some m) {e} h k =
    found_changed (is_entry id) f m.entries h
      (ap (λ i. i == id) k ∙ (found_is_there (is_entry id) m.entries h).0)

-- What an update leaves of the tag: its new name and colour, or all of it beside an error.
abbrev pub UpdatedTag :
    TagId → Text → Option TagColor → Tag → AppState × Result StorageError (Unit {0}) → Type 0
UpdatedTag id name color t (s2, ok u) =
    tag s2 id ≡ some (record t { name = trim name; color = color })
UpdatedTag id name color t (s2, err x) = tag s2 id ≡ some t

module _ ⦃texts : Texts⦄ ⦃configs : Codec AppConfig⦄ where
  saved-Updated :
      (s : AppState) (id : TagId) (name : Text) (color : Option TagColor) (t : Tag)
      (r : AppStore × Result StorageError (Unit {0}))
      → tag s id ≡ some t
      → UpdatedTag id name color t (saved s (recolored s.config id name color) r)
  saved-Updated s id name color t (store, ok u) h =
      found_changed (λ t. t.id == id) (λ t. record t { name = trim name; color = color })
        s.config.tags h (found_is_there (λ t. t.id == id) s.config.tags h).0
  saved-Updated s id name color t (store, err x) h = h

  update_tag-Updated :
      (sys : Io) (s : AppState) (id : TagId) (name : Text) (color : Option TagColor) (t : Tag)
      → tag s id ≡ some t
      → UpdatedTag id name color t (update_tag sys s id name color)
  unfolding update_tag save_change
  update_tag-Updated sys s id name color t h =
      let there = (found_is_there (λ t. t.id == id) s.config.tags h).1 in
      rw there (
        saved-Updated s id name color t (save_config sys s.store (recolored s.config id name color))
          h)

module _ {T Q : Type 0} where
  -- The row and the tag after a call: both have what was typed, or both have the old name.
  abbrev pub CommittedRow : AppView T Q → TagManagerEntry → Tag → Type 0
  CommittedRow w e t =
      ((found_row w.tag_manager e.id ≡ some e)
        × (tag_of w.state e.id ≡ some (record t { name = trim e.name; color = e.color })))
      ⊎ ((found_row w.tag_manager e.id ≡ some (record e { name = t.name }))
          × (tag_of w.state e.id ≡ some t)
          × (is_some w.status_message ≡ true))

  module _ ⦃texts : Texts⦄ ⦃configs : Codec AppConfig⦄ where
    updated-Committed :
        (v : AppView T Q) (e : TagManagerEntry) (t : Tag)
        (r : AppState × Result StorageError (Unit {0}))
        → found_row v.tag_manager e.id ≡ some e
        → UpdatedTag e.id (trim e.name) e.color t r
        → CommittedRow (tag_updated v e.id (trim e.name) e.color r) e t
    unfolding tag_updated
    updated-Committed v e t (s2, ok u) row h =
        let same : stored_row (trim e.name) e.color e ≡ e = rw (text_eq_refl (trim e.name)) refl in
        inl (
          in_entry-found e.id (stored_row (trim e.name) e.color) v.tag_manager row refl
              ∙ ap some same,
          subst (λ n. tag s2 e.id ≡ some (record t { name = n; color = e.color }))
              (trim-trim e.name) h,
        )
    updated-Committed v e t (s2, err x) row h =
        let back : found_row (in_entry e.id (restored_row (tag s2 e.id)) v.tag_manager) e.id
            ≡ some (record e { name = t.name }) =
          rw h (in_entry-found e.id (restored_row (some t)) v.tag_manager row refl) in
        inr (back, h, refl)

    update_in-Committed :
        (sys : Io) (v : AppView T Q) (e : TagManagerEntry) (t : Tag) (o : Option AppState)
        → found_row v.tag_manager e.id ≡ some e
        → tag_of o e.id ≡ some t
        → CommittedRow (update_in sys v e.id (trim e.name) e.color o) e t
    unfolding tag_updated
    update_in-Committed sys v e t none row h = cc
    update_in-Committed sys v e t (some s) row h =
        updated-Committed v e t (update_tag sys s e.id (trim e.name) e.color) row
          (update_tag-Updated sys s e.id (trim e.name) e.color t h)

    apply-Committed :
        (sys : Io) (v : AppView T Q) (e : TagManagerEntry) (t : Tag)
        → found_row v.tag_manager e.id ≡ some e
        → tag_of v.state e.id ≡ some t
        → CommittedRow (apply_tag_update sys v e.id (trim e.name) e.color) e t
    unfolding apply_tag_update
    apply-Committed sys v e t row h =
        elim (Bool-cases (is_same (trim e.name) e.color (tag_of v.state e.id))) [
          | inl same ↦
              let (name, color) = is_same-eq (trim e.name) e.color t (rw h at same) in
              rw same (inl (row, h ∙ ap some (rw (sym name, sym color) refl)))
          | inr other ↦ rw other (update_in-Committed sys v e t v.state row h)
        ]

    typed-Committed :
        (sys : Io) (v : AppView T Q) (e : TagManagerEntry) (t : Tag) (typed : Text)
        → trim e.name ≡ typed
        → ¬ (typed ≡ [])
        → found_row v.tag_manager e.id ≡ some e
        → tag_of v.state e.id ≡ some t
        → CommittedRow (commit_typed sys v e.id e.color typed) e t
    unfolding apply_tag_update
    typed-Committed sys v e t [] same typed row h = absurd (typed refl)
    typed-Committed sys v e t (c ∷ cs) same typed row h =
        subst (λ n. CommittedRow (apply_tag_update sys v e.id n e.color) e t) same
          (apply-Committed sys v e t row h)

    -- A row with more than blanks in its field, of a tag that is stored: after the row is committed
    -- either the field is as it was and the tag has the trimmed text and the row's colour, or, with a
    -- message, the field is the stored name and the tag is as it was.
    pub commit_tag_name-Committed :
        (sys : Io) (v : AppView T Q) (e : TagManagerEntry) (t : Tag)
        → ¬ (trim e.name ≡ [])
        → found_row v.tag_manager e.id ≡ some e
        → tag_of v.state e.id ≡ some t
        → CommittedRow (commit_tag_name sys v e.id) e t
    unfolding commit_tag_name
    commit_tag_name-Committed sys v e t typed row h =
        rw row (typed-Committed sys v e t (trim e.name) refl typed row h)
