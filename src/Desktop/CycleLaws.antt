-- ===== src/Desktop/CycleLaws.antt =====
-- crates/oxide-ssh-desktop/src/app/mod.rs: `cycle_tab` on a valid collection.
use oxide_ssh.Prelude.{
  ℕ, zero, suc, ◌<◌, ◌≤◌, ◌≡◌, refl, sym, ap, ◌∙◌, inl, inr, ◌==◌, Bool, true, false, not, List, [],
  ◌∷◌, Option, none, some, is_some, length, ltb, position, get_elem?, Apart, arith, subst,
  Bool-cases,
}
use oxide_ssh.Tabs.Modals.{TabId}
use oxide_ssh.Tabs.Tab.{Tab}
use oxide_ssh.Tabs.Collection.{TabCollection, has_id, tab, set_active}
use oxide_ssh.Tabs.Ids.{contains, ids, contains-find, contains_of_apart}
use oxide_ssh.Tabs.Valid.{IsValid, ActiveKnown}
use oxide_ssh.Desktop.View.{AppView, MainView}
use oxide_ssh.Desktop.Controls.{next_place, or_first, place_of, cycle_tab}
use oxide_ssh.Desktop.ControlLaws.{next_place-bound, next_place-not}

get_elem?-bound {ℓ} :
    {A : Type ℓ} (xs : List A) (i : ℕ) → i < length xs → (x : A) × (get_elem? xs i ≡ some x)
get_elem?-bound [] i h = ground arith
get_elem?-bound (x ∷ xs) zero h = (x, refl)
get_elem?-bound (x ∷ xs) (suc i) h = get_elem?-bound xs i (omega (arith, h))

position-bound {ℓ} :
    {A : Type ℓ} (p : A → Bool) (xs : List A) {i : ℕ} → position p xs ≡ some i → i < length xs
position-bound p [] e = cc
position-bound p (x ∷ xs) {i = zero} e = omega arith
position-bound p (x ∷ xs) {i = suc i} e =
    let h : i < length xs = position-bound p xs (ground arith) in omega (arith, h)

module _ {T Q : Type 0} where
  get_elem?-contains :
      (ts : List (Tab T Q)) (i : ℕ) {t : Tab T Q}
      → get_elem? ts i ≡ some t
      → contains t.id (ids ts) ≡ true
  get_elem?-contains [] i e = cc
  get_elem?-contains (u ∷ us) zero {t} e =
      let same : u ≡ t = cc in let e0 : u.id ≡ t.id = ap (λ x. x.id) same in ground arith
  get_elem?-contains (u ∷ us) (suc i) {t} e = ground (arith, get_elem?-contains us i e)

  -- The tab at a place is found at that place where identifiers are distinct.
  get_elem?-position :
      (ts : List (Tab T Q)) (i : ℕ) {t : Tab T Q}
      → Apart ◌≡◌ (ids ts)
      → get_elem? ts i ≡ some t
      → position (has_id t.id) ts ≡ some i
  get_elem?-position [] i h e = cc
  get_elem?-position (u ∷ us) zero {t} h e =
      let same : u ≡ t = cc in let e0 : u.id ≡ t.id = ap (λ x. x.id) same in ground arith
  get_elem?-position (u ∷ us) (suc i) {t} h e =
      let there : contains t.id (ids us) ≡ true = get_elem?-contains us i e in
      let other : contains u.id (ids us) ≡ false = contains_of_apart u.id (ids us) h.0 in
      let rest : position (has_id t.id) us ≡ some i = get_elem?-position us i h.1 e in
      let apart : ¬ (u.id ≡ t.id) = λ same. cc (ap (λ a. contains a (ids us)) same, there, other) in
      ground (arith, rest, apart)

  position-id :
      (id : TabId) (ts : List (Tab T Q)) {i : ℕ} {t : Tab T Q}
      → position (has_id id) ts ≡ some i
      → get_elem? ts i ≡ some t
      → t.id ≡ id
  position-id id [] e g = cc
  position-id id (u ∷ us) {i = zero} {t} e g =
      let same : u ≡ t = cc in
      let e0 : u.id ≡ t.id = ap (λ x. x.id) same in
      let hit : u.id ≡ id = ground arith in sym e0 ∙ hit
  position-id id (u ∷ us) {i = suc i} e g = position-id id us (ground arith) g

  contains-position :
      (id : TabId) (ts : List (Tab T Q))
      → contains id (ids ts) ≡ true
      → (i : ℕ) × (position (has_id id) ts ≡ some i)
  contains-position id [] h = cc
  contains-position id (u ∷ us) h = elim (Bool-cases (u.id == id)) [
    | inl hit ↦ (0, rw hit refl)
    | inr miss ↦ let (i, e) = contains-position id us (ground arith) in (suc i, rw (miss, e) refl)
  ]

  place_of_at :
      (c : TabCollection T Q) (o : Option TabId) {a : TabId} {i : ℕ}
      → o ≡ some a
      → position (has_id a) c.tabs ≡ some i
      → place_of c o ≡ i
  place_of_at c none e place = cc
  place_of_at c (some x) {a} e place =
      let same : x ≡ a = cc in ap or_first (ap (λ y. position (has_id y) c.tabs) same ∙ place)

  -- One step of a valid collection with two tabs or more, from the place of its active tab.
  cycle_step :
      (v : AppView T Q) (b : Bool) (a : TabId) (i : ℕ)
      → Apart ◌≡◌ (ids v.tabs.tabs)
      → 2 ≤ length v.tabs.tabs
      → v.tabs.active ≡ some a
      → position (has_id a) v.tabs.tabs ≡ some i
      → (t : Tab T Q) × (get_elem? v.tabs.tabs (next_place b i (length v.tabs.tabs)) ≡ some t)
        × (cycle_tab v b
            ≡ some (record v {
              tabs = record v.tabs { active = some t.id };
              main_view = MainView.sessions;
            }))
  unfolding cycle_tab set_active
  cycle_step v b a i distinct two active place =
      let ts = v.tabs.tabs in
      let n = length ts in
      let (t, e) =
        get_elem?-bound ts (next_place b i n)
          (next_place-bound b i n (position-bound (has_id a) ts place)) in
      let many : ltb n 2 ≡ false = ground arith in
      let from : place_of v.tabs v.tabs.active ≡ i =
        place_of_at v.tabs v.tabs.active active place in
      let known : is_some (tab v.tabs t.id) ≡ true =
        contains-find t.id ts ∙ get_elem?-contains ts (next_place b i n) e in
      (t, e, rw (many, from, e, known) refl)

  active_in :
      (ts : List (Tab T Q)) (o : Option TabId)
      → ActiveKnown (ids ts) o
      → 2 ≤ length ts
      → (a : TabId) × (o ≡ some a) × (i : ℕ) × (position (has_id a) ts ≡ some i)
  active_in [] o known two = ground arith
  active_in (t ∷ ts) none known two = cc
  active_in (t ∷ ts) (some a) known two =
      let (i, e) = contains-position a (t ∷ ts) known in (a, refl, i, e)

  active_place :
      (c : TabCollection T Q)
      → IsValid c
      → 2 ≤ length c.tabs
      → (a : TabId) × (c.active ≡ some a) × (i : ℕ) × (position (has_id a) c.tabs ≡ some i)
  active_place c valid two = active_in c.tabs c.active valid.active_known two

  -- In a valid collection with two tabs or more, a step through the tabs returns, and the step back
  -- returns to the tab that was active.
  pub cycle_tab-back :
      (v : AppView T Q) (b : Bool)
      → IsValid v.tabs
      → 2 ≤ length v.tabs.tabs
      → (w : AppView T Q) × (cycle_tab v b ≡ some w)
        × (w.main_view ≡ MainView.sessions)
        × (cycle_tab w (not b) ≡ some (record v { main_view = MainView.sessions }))
  cycle_tab-back v b valid two =
      let ts = v.tabs.tabs in
      let n = length ts in
      let (a, active, i, place) = active_place v.tabs valid two in
      let (t, e, forth) = cycle_step v b a i valid.distinct two active place in
      let w : AppView T Q = record v {
        tabs = record v.tabs { active = some t.id };
        main_view = MainView.sessions;
      } in
      let there = get_elem?-position ts (next_place b i n) valid.distinct e in
      let (u, g, back) =
        cycle_step w (not b) t.id (next_place b i n) valid.distinct two refl there in
      let home : get_elem? ts i ≡ some u =
        subst (λ j. get_elem? ts j ≡ some u)
          (next_place-not b i n (position-bound (has_id a) ts place)) g in
      let same : some u.id ≡ v.tabs.active = ap some (position-id a ts place home) ∙ sym active in
      (
        w,
        forth,
        refl,
        back
            ∙ ap
                (λ o.
                  some (record v {
                    tabs = record v.tabs { active = o };
                    main_view = MainView.sessions;
                  }))
                same,
      )
