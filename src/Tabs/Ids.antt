-- ===== src/Tabs/Ids.antt =====
-- crates/oxide-ssh-app/src/tabs.rs: the identifiers of a list of tabs, which the invariant speaks of.
use mathlib.Core.Option
use oxide_ssh.Prelude.{
  ℕ, zero, suc, Bool, true, false, ◌||◌, ◌≡◌, refl, ap, inl, inr, ◌≢◌, List, [], ◌∷◌, ◌++◌, Option,
  none, some, ◌==◌, if◌then◌else◌, map, All, Apart, find, position, erase_idx, update_first,
  get_elem?, get_last?, is_some, next, subst, arith, Bool-cases,
}
use oxide_ssh.Tabs.Modals.{TabId}
use oxide_ssh.Tabs.Tab.{Tab}
use oxide_ssh.Tabs.Collection.{has_id}

abbrev pub contains : TabId → List TabId → Bool
contains a [] = false
contains a (x ∷ xs) = x == a || contains a xs

abbrev pub index_of : TabId → List TabId → Option ℕ
index_of id [] = none
index_of id (x ∷ xs) = if x == id then some 0 else next (index_of id xs)

abbrev pub ids : {T Q : Type 0} → List (Tab T Q) → List TabId
ids [] = []
ids (t ∷ ts) = t.id ∷ ids ts

pub All-erase_idx {ℓ κ} :
    {A : Type ℓ} (P : A → Type κ) (xs : List A) (i : ℕ) → All P xs → All P (erase_idx xs i)
All-erase_idx P [] i a = a
All-erase_idx P (x ∷ xs) zero a = a.1
All-erase_idx P (x ∷ xs) (suc i) a = (a.0, All-erase_idx P xs i a.1)

module _ {T Q : Type 0} where
  pub ids-update_first :
      (id : TabId) (f : Tab T Q → Tab T Q) (ts : List (Tab T Q))
      → ((t : Tab T Q) → (f t).id ≡ t.id)
      → ids (update_first (has_id id) f ts) ≡ ids ts
  ids-update_first id f [] h = refl
  ids-update_first id f (t ∷ ts) h = ground (arith, h t, ids-update_first id f ts h)

  pub All-update_first :
      (P : Tab T Q → Type 0) (id : TabId) (f : Tab T Q → Tab T Q) (ts : List (Tab T Q))
      → ((t : Tab T Q) → P t → P (f t))
      → All P ts
      → All P (update_first (has_id id) f ts)
  All-update_first P id f [] h a = tt
  All-update_first P id f (t ∷ ts) h a = elim (Bool-cases (has_id id t)) [
    | inl hit ↦ rw hit (h t a.0, a.1)
    | inr miss ↦ rw miss (a.0, All-update_first P id f ts h a.1)
  ]

  pub ids-append : (ts us : List (Tab T Q)) → ids (ts ++ us) ≡ ids ts ++ ids us
  ids-append [] us = refl
  ids-append (t ∷ ts) us = ap (◌∷◌ t.id) (ids-append ts us)

  pub ids-map :
      (f : Tab T Q → Tab T Q) (ts : List (Tab T Q))
      → ((t : Tab T Q) → (f t).id ≡ t.id)
      → ids (map f ts) ≡ ids ts
  ids-map f [] h = refl
  ids-map f (t ∷ ts) h = ground (arith, h t, ids-map f ts h)

  pub All-map_fun :
      (P : Tab T Q → Type 0) (f : Tab T Q → Tab T Q) (ts : List (Tab T Q))
      → ((t : Tab T Q) → P t → P (f t))
      → All P ts
      → All P (map f ts)
  All-map_fun P f [] h a = tt
  All-map_fun P f (t ∷ ts) h a = (h t a.0, All-map_fun P f ts h a.1)

  pub ids-erase_idx : (ts : List (Tab T Q)) (i : ℕ) → ids (erase_idx ts i) ≡ erase_idx (ids ts) i
  ids-erase_idx [] i = refl
  ids-erase_idx (t ∷ ts) zero = refl
  ids-erase_idx (t ∷ ts) (suc i) = ap (◌∷◌ t.id) (ids-erase_idx ts i)

  pub position-ids :
      (id : TabId) (ts : List (Tab T Q)) → position (has_id id) ts ≡ index_of id (ids ts)
  position-ids id [] = refl
  position-ids id (t ∷ ts) = ground (arith, position-ids id ts)

  pub contains-find :
      (id : TabId) (ts : List (Tab T Q)) → is_some (find (has_id id) ts) ≡ contains id (ids ts)
  contains-find id [] = refl
  contains-find id (t ∷ ts) = ground (arith, contains-find id ts)

  pub get_elem?-ids :
      (ts : List (Tab T Q)) (i : ℕ) → get_elem? (ids ts) i ≡ Option.map (λ t. t.id) (get_elem? ts i)
  get_elem?-ids [] i = refl
  get_elem?-ids (t ∷ ts) zero = refl
  get_elem?-ids (t ∷ ts) (suc i) = get_elem?-ids ts i

  pub get_last?-ids :
      (ts : List (Tab T Q)) → get_last? (ids ts) ≡ Option.map (λ t. t.id) (get_last? ts)
  get_last?-ids [] = refl
  get_last?-ids (t ∷ []) = refl
  get_last?-ids (t ∷ u ∷ ts) = get_last?-ids (u ∷ ts)

index_of_hit : (id x : TabId) (xs : List TabId) → index_of id (x ∷ xs) ≡ some 0 → x ≡ id
index_of_hit id x xs e = ground arith

index_of_miss :
    (id x : TabId) (xs : List TabId) {i : ℕ}
    → index_of id (x ∷ xs) ≡ some (suc i)
    → (x ≢ id) × (index_of id xs ≡ some i)
index_of_miss id x xs e = ground arith

-- Taking out the element that `position` found.
pub contains-erase_idx :
    (id a : TabId) (xs : List TabId) {i : ℕ}
    → index_of id xs ≡ some i
    → a ≢ id
    → contains a (erase_idx xs i) ≡ contains a xs
contains-erase_idx id a [] e h = cc
contains-erase_idx id a (x ∷ xs) {i = zero} e h = ground (arith, index_of_hit id x xs e)
contains-erase_idx id a (x ∷ xs) {i = suc i} e h =
    ground (arith, contains-erase_idx id a xs ((index_of_miss id x xs e).1) h)

pub contains-get_elem? :
    (xs : List TabId) (i : ℕ) {a : TabId} → get_elem? xs i ≡ some a → contains a xs ≡ true
contains-get_elem? [] i e = cc
contains-get_elem? (x ∷ xs) zero e = ground arith
contains-get_elem? (x ∷ xs) (suc i) e = ground (arith, contains-get_elem? xs i e)

pub contains-get_last? :
    (xs : List TabId) {a : TabId} → get_last? xs ≡ some a → contains a xs ≡ true
contains-get_last? [] e = cc
contains-get_last? (x ∷ []) e = ground arith
contains-get_last? (x ∷ y ∷ xs) e = ground (arith, contains-get_last? (y ∷ xs) e)

pub nil_of_get_last?-eq-none : (xs : List TabId) → get_last? xs ≡ none → xs ≡ []
nil_of_get_last?-eq-none [] e = refl
nil_of_get_last?-eq-none (x ∷ []) e = cc
nil_of_get_last?-eq-none (x ∷ y ∷ xs) e = cc (nil_of_get_last?-eq-none (y ∷ xs) e)

pub erase_idx-Apart : (xs : List TabId) (i : ℕ) → Apart ◌≡◌ xs → Apart ◌≡◌ (erase_idx xs i)
erase_idx-Apart [] i h = h
erase_idx-Apart (x ∷ xs) zero h = h.1
erase_idx-Apart (x ∷ xs) (suc i) h = (All-erase_idx _ xs i h.0, erase_idx-Apart xs i h.1)

pub contains_of_apart :
    (id : TabId) (xs : List TabId) → All (λ y. ¬ id ≡ y) xs → contains id xs ≡ false
contains_of_apart id [] h = refl
contains_of_apart id (x ∷ xs) h = ground (arith, contains_of_apart id xs h.1)

-- With distinct elements nothing equal is left.
pub contains-erase_idx_self :
    (id : TabId) (xs : List TabId) {i : ℕ}
    → Apart ◌≡◌ xs
    → index_of id xs ≡ some i
    → contains id (erase_idx xs i) ≡ false
contains-erase_idx_self id [] h e = cc
contains-erase_idx_self id (x ∷ xs) {i = zero} h e = ground (
  arith,
  index_of_hit id x xs e,
  contains_of_apart id xs (subst (λ z. All (λ y. ¬ z ≡ y) xs) (index_of_hit id x xs e) h.0),
)
contains-erase_idx_self id (x ∷ xs) {i = suc i} h e =
    ground (
      arith,
      contains-erase_idx_self id xs h.1 (index_of_miss id x xs e).1,
      index_of_miss id x xs e,
    )

pub contains-snoc :
    (a b : TabId) (xs : List TabId) → contains a (xs ++ b ∷ []) ≡ (contains a xs || b == a)
contains-snoc a b [] = ground arith
contains-snoc a b (x ∷ xs) = ground (arith, contains-snoc a b xs)

pub apart_of_fresh : (b : TabId) (xs : List TabId) → contains b xs ≡ false → All (λ x. ¬ x ≡ b) xs
apart_of_fresh b [] h = tt
apart_of_fresh b (x ∷ xs) h = (ground arith, apart_of_fresh b xs (ground arith))
