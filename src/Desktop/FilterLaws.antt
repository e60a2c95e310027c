-- ===== src/Desktop/FilterLaws.antt =====
-- crates/oxide-ssh-desktop/src/state/mod.rs: which profiles `filtered_profiles` lists, and in which order.
use oxide_ssh.Prelude.{
  ℕ, Bool, true, false, not, ◌&&◌, ◌||◌, List, [], ◌∷◌, ◌++◌, Option, none, some, ◌==◌, any, find,
  is_some_and, retain, if◌then◌else◌, Bool-cases, ==_iff, ◌≡◌, refl, sym, ap, ◌∙◌, subst, ◌⊎◌, ◌↔◌,
  inl, inr, arith,
}
use mathlib.Core.List.{Perm}
use oxide_ssh.Model.Types.{Text, TagId, Tag, ConnectionProfile}
use oxide_ssh.Model.Validate.{Texts}
use oxide_ssh.Storage.Types.{AppConfig}
use oxide_ssh.Desktop.Sorting.{cmp_by, IsSorted, sort_by-perm, sort_by-IsSorted, cmp_by-IsOrder}
use oxide_ssh.Desktop.Filter.{
  TagFilter, is_empty_list, has, is_active, matches, starts_with, contains, tag_contains, is_shown,
  lower_query, lower_name, profile_id, filtered_profiles,
}

both_true : (a b : Bool) → (a && b) ≡ true → (a ≡ true) × (b ≡ true)
both_true a b h = ground arith

or_left : (a b : Bool) → a ≡ true → (a || b) ≡ true
or_left a b h = ground arith

or_right : (a b : Bool) → b ≡ true → (a || b) ≡ true
or_right a b h = ground arith

either_true : (a b : Bool) → (a || b) ≡ true → (a ≡ true) ⊎ (b ≡ true)
either_true true b h = inl refl
either_true false b h = inr h

five_true :
    (a b c d e : Bool)
    → (a || b || c || d || e) ≡ true
    → (a ≡ true) ⊎ (b ≡ true) ⊎ (c ≡ true) ⊎ (d ≡ true) ⊎ (e ≡ true)
five_true true b c d e h = inl refl
five_true false true c d e h = inr (inl refl)
five_true false false true d e h = inr (inr (inl refl))
five_true false false false true e h = inr (inr (inr (inl refl)))
five_true false false false false e h = inr (inr (inr (inr h)))

true_five :
    (a b c d e : Bool)
    → (a ≡ true) ⊎ (b ≡ true) ⊎ (c ≡ true) ⊎ (d ≡ true) ⊎ (e ≡ true)
    → (a || b || c || d || e) ≡ true
true_five a b c d e h = ground arith

same_test : (a b : Bool) → (a ≡ true → b ≡ true) → (b ≡ true → a ≡ true) → a ≡ b
same_test true b h k = sym (h refl)
same_test false true h k = k refl
same_test false false h k = refl

retain_same :
    {A : Type 0} (p q : A → Bool)
    → ((x : A) → p x ≡ q x)
    → (xs : List A) → retain p xs ≡ retain q xs
retain_same p q same [] = refl
retain_same p q same (x ∷ xs) = rw (same x, retain_same p q same xs) refl

abbrev pub IsMember : ℕ → List ℕ → Type 0
IsMember x [] = ⊥
IsMember x (y ∷ ys) = (y ≡ x) ⊎ IsMember x ys

-- A text that holds another somewhere.
abbrev pub Holds : Text → Text → Type 0
Holds s q = (front : Text) × (back : Text) × (s ≡ front ++ (q ++ back))

any_found : (p : ℕ → Bool) (xs : List ℕ) → any p xs ≡ true → (x : ℕ) × IsMember x xs × (p x ≡ true)
any_found p [] h = cc
any_found p (y ∷ ys) h = elim (either_true (p y) (any p ys) h) [
  | inl here ↦ (y, inl refl, here)
  | inr later ↦ let (x, m, t) = any_found p ys later in (x, inr m, t)
]

found_any : (p : ℕ → Bool) (xs : List ℕ) (x : ℕ) → IsMember x xs → p x ≡ true → any p xs ≡ true
found_any p [] x m t = absurd m
found_any p (y ∷ ys) x (inl same) t = or_left (p y) (any p ys) (ap p same ∙ t)
found_any p (y ∷ ys) x (inr m) t = or_right (p y) (any p ys) (found_any p ys x m t)

found_id : (xs : List ℕ) (x : ℕ) → has xs x ≡ true → IsMember x xs
found_id xs x h =
    let (y, m, t) = any_found (λ y. y == x) xs h in subst (λ z. IsMember z xs) ((==_iff y x).0 t) m

member-has : (xs : List ℕ) (x : ℕ) → IsMember x xs → has xs x ≡ true
member-has xs x m = found_any (λ y. y == x) xs x m ((==_iff x x).1 refl)

starts-split : (s q : Text) → starts_with s q ≡ true → (back : Text) × (s ≡ q ++ back)
starts-split s [] h = (s, refl)
starts-split [] (d ∷ ds) h = cc
starts-split (c ∷ cs) (d ∷ ds) h =
    let (same, rest) = both_true (c == d) (starts_with cs ds) h in
    let (back, e) = starts-split cs ds rest in
    (back, ap (λ x. x ∷ cs) ((==_iff c d).0 same) ∙ ap (◌∷◌ d) e)

starts-append : (q back : Text) → starts_with (q ++ back) q ≡ true
starts-append [] back = refl
starts-append (d ∷ ds) back = rw ((==_iff d d).1 refl) (starts-append ds back)

contains-split : (s q : Text) → contains s q ≡ true → Holds s q
contains-split [] [] h = ([], [], refl)
contains-split [] (d ∷ ds) h = cc
contains-split (c ∷ cs) q h = elim (either_true (starts_with (c ∷ cs) q) (contains cs q) h) [
  | inl here ↦ let (back, e) = starts-split (c ∷ cs) q here in ([], back, e)
  | inr later ↦ let (front, back, e) = contains-split cs q later in (c ∷ front, back, ap (◌∷◌ c) e)
]

contains-start : (s q : Text) → starts_with s q ≡ true → contains s q ≡ true
contains-start [] [] h = refl
contains-start [] (d ∷ ds) h = cc
contains-start (c ∷ cs) q h = or_left (starts_with (c ∷ cs) q) (contains cs q) h

contains-append : (front q back : Text) → contains (front ++ (q ++ back)) q ≡ true
contains-append [] q back = contains-start (q ++ back) q (starts-append q back)
contains-append (c ∷ cs) q back =
    or_right (starts_with (c ∷ (cs ++ (q ++ back))) q) (contains (cs ++ (q ++ back)) q)
      (contains-append cs q back)

part_found : (s q : Text) → Holds s q → contains s q ≡ true
part_found s q (front, back, e) =
    subst (λ x. contains x q ≡ true) (sym e) (contains-append front q back)

empty_true : {A : Type 0} (xs : List A) → is_empty_list xs ≡ true → xs ≡ []
empty_true [] h = refl
empty_true (x ∷ xs) h = cc

-- What the chosen tags let pass: everything, with nothing chosen; with the choice of profiles without
-- tags, those; and each profile with one of the chosen tags.
abbrev pub PassesTags : TagFilter → List TagId → Type 0
PassesTags f ids =
    ((f.untagged ≡ false) × (f.tags ≡ []))
    ⊎ ((f.untagged ≡ true) × (ids ≡ []))
    ⊎ ((id : TagId) × IsMember id ids × IsMember id f.tags)

module _ ⦃texts : Texts⦄ where
  -- A tag of the profile whose name, as the registry has it first, holds the query.
  abbrev pub TagHolds : List Tag → List TagId → Text → Type 0
  TagHolds tags ids q =
      (id : TagId) × (t : Tag) × IsMember id ids
      × (find (λ x. x.id == id) tags ≡ some t)
      × Holds (texts.to_lowercase t.name) q

  abbrev pub PassesSearch : AppConfig → Text → ConnectionProfile → Type 0
  PassesSearch config q p =
      (q ≡ [])
      ⊎ Holds (texts.to_lowercase p.name) q
      ⊎ Holds (texts.to_lowercase p.endpoint.host) q
      ⊎ Holds (texts.to_lowercase p.username) q
      ⊎ TagHolds config.tags p.tag_ids q

  tags_listed :
      (f : TagFilter) (p : ConnectionProfile) → matches f p ≡ true → PassesTags f p.tag_ids
  unfolding matches is_active
  tags_listed f p h = go f.untagged f.tags p.tag_ids h
    where
      go :
          (untagged : Bool) (tags ids : List TagId)
          → (if not (untagged || not (is_empty_list tags))
              then true
              else (untagged && is_empty_list ids) || any (has tags) ids)
            ≡ true
          → PassesTags (record { tags = tags; untagged = untagged }) ids
      go false [] ids h = inl (refl, refl)
      go false (t ∷ ts) ids h =
          let (id, m, k) = any_found (has (t ∷ ts)) ids h in
          inr (inr (id, m, found_id (t ∷ ts) id k))
      go true tags [] h = inr (inl (refl, refl))
      go true tags (i ∷ is) h =
          let (id, m, k) = any_found (has tags) (i ∷ is) h in inr (inr (id, m, found_id tags id k))

  listed_tags :
      (f : TagFilter) (p : ConnectionProfile) → PassesTags f p.tag_ids → matches f p ≡ true
  unfolding matches is_active
  listed_tags f p (inl (plain, none_chosen)) = rw (plain, none_chosen) refl
  listed_tags f p (inr (inl (on, untagged))) = rw (on, untagged) refl
  listed_tags f p (inr (inr (id, m, k))) =
      let found = found_any (has f.tags) p.tag_ids id m (member-has f.tags id k) in
      elim (Bool-cases (is_active f)) [
        | inl active ↦
            rw (active, found) (or_right (f.untagged && is_empty_list p.tag_ids) true refl)
        | inr all ↦ rw all refl
      ]

  tag_split :
      (tags : List Tag) (ids : List TagId) (q : Text) (id : TagId) (o : Option Tag)
      → find (λ x. x.id == id) tags ≡ o
      → IsMember id ids
      → is_some_and o (λ t. contains (texts.to_lowercase t.name) q) ≡ true
      → TagHolds tags ids q
  tag_split tags ids q id none found m h = cc
  tag_split tags ids q id (some t) found m h =
      (id, t, m, found, contains-split (texts.to_lowercase t.name) q h)

  search_listed :
      (config : AppConfig) (q : Text) (p : ConnectionProfile)
      → (is_empty_list q
          || contains (texts.to_lowercase p.name) q
          || contains (texts.to_lowercase p.endpoint.host) q
          || contains (texts.to_lowercase p.username) q
          || any (tag_contains config.tags q) p.tag_ids)
        ≡ true
      → PassesSearch config q p
  unfolding tag_contains
  search_listed config q p h = elim (five_true _ _ _ _ _ h) [
    | inl none_typed ↦ inl (empty_true q none_typed)
    | inr (inl name) ↦ inr (inl (contains-split _ q name))
    | inr (inr (inl host)) ↦ inr (inr (inl (contains-split _ q host)))
    | inr (inr (inr (inl username))) ↦ inr (inr (inr (inl (contains-split _ q username))))
    | inr (inr (inr (inr tags))) ↦
        let (id, m, t) = any_found (tag_contains config.tags q) p.tag_ids tags in
        let held =
          tag_split config.tags p.tag_ids q id (find (λ x. x.id == id) config.tags) refl m t in
        inr (inr (inr (inr held)))
  ]

  listed_search :
      (config : AppConfig) (q : Text) (p : ConnectionProfile)
      → PassesSearch config q p
      → (is_empty_list q
          || contains (texts.to_lowercase p.name) q
          || contains (texts.to_lowercase p.endpoint.host) q
          || contains (texts.to_lowercase p.username) q
          || any (tag_contains config.tags q) p.tag_ids)
        ≡ true
  unfolding tag_contains
  listed_search config q p h =
      true_five (is_empty_list q) (contains (texts.to_lowercase p.name) q)
        (contains (texts.to_lowercase p.endpoint.host) q)
        (contains (texts.to_lowercase p.username) q) (any (tag_contains config.tags q) p.tag_ids)
        (elim h [
          | inl none_typed ↦ inl (rw none_typed refl)
          | inr (inl name) ↦ inr (inl (part_found (texts.to_lowercase p.name) q name))
          | inr (inr (inl host)) ↦
              inr (inr (inl (part_found (texts.to_lowercase p.endpoint.host) q host)))
          | inr (inr (inr (inl username))) ↦
              inr (inr (inr (inl (part_found (texts.to_lowercase p.username) q username))))
          | inr (inr (inr (inr (id, t, m, found, held)))) ↦
              let has_it : tag_contains config.tags q id ≡ true =
                rw found (part_found (texts.to_lowercase t.name) q held) in
              inr (inr (inr (inr (found_any (tag_contains config.tags q) p.tag_ids id m has_it))))
        ])

  -- What the sidebar lists, from the text in its search field.
  abbrev pub IsListed : AppConfig → TagFilter → Text → ConnectionProfile → Type 0
  IsListed config filter search p =
      PassesTags filter p.tag_ids × PassesSearch config (lower_query search) p

  shown_iff :
      (config : AppConfig) (filter : TagFilter) (search : Text) (p : ConnectionProfile)
      → (is_shown config filter (lower_query search) p ≡ true) ↔ IsListed config filter search p
  unfolding is_shown
  shown_iff config filter search p =
      let q = lower_query search in
      (
        (λ h. let (a, b) = both_true _ _ h in (tags_listed filter p a, search_listed config q p b)),
        (λ l. rw (listed_tags filter p l.0) (listed_search config q p l.1)),
      )

  -- The sidebar's list, for any test of profiles that says which are listed: those with no tag chosen, or
  -- without tags where these are chosen, or with a chosen tag; and of these the ones where the trimmed
  -- search in lower case is empty, or stands in the lower case of the name, the host, the user or
  -- the name of one of the profile's tags. Each is there as often as the configuration holds it, and
  -- they are sorted by their names in lower case and, where these are equal, by their identifiers.
  pub filtered_profiles_lem :
      (config : AppConfig) (filter : TagFilter) (search : Text) (listed : ConnectionProfile → Bool)
      → ((p : ConnectionProfile) → (listed p ≡ true) ↔ IsListed config filter search p)
      → Perm (filtered_profiles config filter search) (retain listed config.profiles)
        × IsSorted (cmp_by lower_name profile_id) (filtered_profiles config filter search)
  unfolding filtered_profiles
  filtered_profiles_lem config filter search listed says =
      let q = lower_query search in
      let shown = retain (is_shown config filter q) config.profiles in
      let same : shown ≡ retain listed config.profiles =
        retain_same (is_shown config filter q) listed
          (λ p.
            same_test _ _ (λ h. (says p).1 ((shown_iff config filter search p).0 h))
              (λ h. (shown_iff config filter search p).1 ((says p).0 h)))
          config.profiles in
      (
        subst (λ xs. Perm (filtered_profiles config filter search) xs) same (sort_by-perm _ shown),
        sort_by-IsSorted _ (cmp_by-IsOrder lower_name profile_id) shown,
      )
