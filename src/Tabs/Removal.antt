-- ===== src/Tabs/Removal.antt =====
-- crates/oxide-ssh-app/src/tabs.rs: `TabCollection::remove`, which tab becomes active, and what stays.
use oxide_ssh.Prelude.{
  length, ==_refl, append-nil, ℕ, false, ◌≡◌, refl, ap, sym, ◌∙◌, inl, inr, List, [], ◌∷◌, ◌++◌,
  Option, none, some, ◌==◌, if◌then◌else◌, All-zip, position, erase_idx, get_elem?, get_last?,
  arith, Bool-cases, Option-cases,
}
use oxide_ssh.Session.Handle.{Channel}
use oxide_ssh.Tabs.Modals.{TabId, tab_id, remove_tab}
use oxide_ssh.Tabs.ModalLaws.{remove_tab_lem}
use oxide_ssh.Tabs.Tab.{Tab}
use oxide_ssh.Tabs.Tab as TabOps
use oxide_ssh.Tabs.Collection.{TabCollection, has_id, is_active, next_active, remove_at, remove}
use oxide_ssh.Tabs.Ids.{
  contains, ids, index_of, ids-erase_idx, All-erase_idx, position-ids, get_elem?-ids, get_last?-ids,
  contains-erase_idx, contains-get_elem?, contains-get_last?, nil_of_get_last?-eq-none,
  erase_idx-Apart,
}
use oxide_ssh.Tabs.Valid.{IsValid, ActiveKnown, remove_tab-ModalsKnown, remove_tab-IsValid}

module _ {T Q : Type 0} where
  next_active-Known : (ts : List (Tab T Q)) (i : ℕ) → ActiveKnown (ids ts) (next_active ts i)
  unfolding next_active
  next_active-Known ts i = elim (Option-cases (get_elem? ts i)) [
    | inl missing ↦ elim (Option-cases (get_last? ts)) [
      | inl empty ↦
          rw (missing, next_active, empty)
            (nil_of_get_last?-eq-none (ids ts) (rw (get_last?-ids ts, empty)))
      | inr (t, last) ↦
          rw (missing, next_active, last)
            (contains-get_last? (ids ts) (rw (get_last?-ids ts, last)))
    ]
    | inr (t, found) ↦
        rw (found, next_active) (contains-get_elem? (ids ts) i (rw (get_elem?-ids ts i, found)))
  ]

  active_after :
      (c : TabCollection T Q) (id : TabId) (i : ℕ) (active : Option TabId)
      → index_of id (ids c.tabs) ≡ some i
      → ActiveKnown (ids c.tabs) active
      → ActiveKnown
          (ids (erase_idx c.tabs i))
          (if is_active active id then next_active (erase_idx c.tabs i) i else active)
  active_after c id i none e k = cc (rw k at e)
  active_after c id i (some a) e k = elim (Bool-cases (a == id)) [
    | inl own ↦ rw own (next_active-Known (erase_idx c.tabs i) i)
    | inr other ↦ rw (other, ids-erase_idx, contains-erase_idx id a (ids c.tabs) e (ground arith)) k
  ]

  remove_at-IsValid :
      (c : TabCollection T Q) (id : TabId) (i : ℕ)
      → index_of id (ids c.tabs) ≡ some i
      → IsValid c
      → IsValid (remove_at c id i)
  unfolding remove_at
  remove_at-IsValid c id i e v = record {
    distinct = rw ids-erase_idx (erase_idx-Apart _ i v.distinct);
    consistent = All-erase_idx _ _ i v.consistent;
    active_known = active_after c id i c.active e v.active_known;
    modals_known = rw ids-erase_idx (
        All-zip _ _ _ (remove_tab c.modals id).1
          (λ r other known. contains-erase_idx id (tab_id r) (ids c.tabs) e other ∙ known)
          (remove_tab_lem c.modals id).1 (remove_tab-ModalsKnown _ c.modals id v.modals_known));
    settled = (remove_tab-IsValid c id v).settled;
  }

  module _ ⦃channel : Channel Q⦄ where
    pub remove-IsValid : (c : TabCollection T Q) (id : TabId) → IsValid c → IsValid (remove c id).0
    unfolding remove
    remove-IsValid c id v = elim (Option-cases (position (has_id id) c.tabs)) [
      | inl missing ↦ rw (missing, remove) v
      | inr (i, found) ↦ elim (Option-cases (get_elem? c.tabs i)) [
        | inl none_there ↦ rw (found, remove, none_there) v
        | inr (t, there) ↦
            rw (found, remove, there)
              (remove_at-IsValid c id i (sym (position-ids id c.tabs) ∙ found) v)
      ]
    ]

-- The tab that stood behind the removed one, or else the one before it.
abbrev pub neighbour : {T Q : Type 0} → List (Tab T Q) → List (Tab T Q) → Option TabId
neighbour before (u ∷ after) = some u.id
neighbour before [] = get_last? (ids before)

module _ {T Q : Type 0} where
  position-split :
      (before after : List (Tab T Q)) (t : Tab T Q)
      → contains t.id (ids before) ≡ false
      → position (has_id t.id) (before ++ t ∷ after) ≡ some (length before)
  position-split [] after t h = ground (arith, ==_refl t.id)
  position-split (b ∷ before) after t h = ground (arith, position-split before after t)

  get_elem?-split :
      (before after : List (Tab T Q)) (t : Tab T Q)
      → get_elem? (before ++ t ∷ after) (length before) ≡ some t
  get_elem?-split [] after t = refl
  get_elem?-split (b ∷ before) after t = get_elem?-split before after t

  erase_idx-split :
      (before after : List (Tab T Q)) (t : Tab T Q)
      → erase_idx (before ++ t ∷ after) (length before) ≡ before ++ after
  erase_idx-split [] after t = refl
  erase_idx-split (b ∷ before) after t = ap (◌∷◌ b) (erase_idx-split before after t)

  get_elem?-length : (before : List (Tab T Q)) → get_elem? before (length before) ≡ none
  get_elem?-length [] = refl
  get_elem?-length (b ∷ before) = get_elem?-length before

  next_active-end : (ts : List (Tab T Q)) → next_active ts (length ts) ≡ get_last? (ids ts)
  unfolding next_active
  next_active-end ts = elim (Option-cases (get_last? ts)) [
    | inl empty ↦ rw (get_elem?-length ts, next_active, get_last?-ids ts, empty)
    | inr (u, last) ↦ rw (get_elem?-length ts, next_active, get_last?-ids ts, last)
  ]

  next_active-split :
      (before after : List (Tab T Q))
      → next_active (before ++ after) (length before) ≡ neighbour before after
  next_active-split before (u ∷ after) =
      unfold next_active in rw (get_elem?-split before after u, next_active)
  next_active-split before [] = rw (append-nil before) (next_active-end before)

  module _ ⦃channel : Channel Q⦄ where
    -- Removing the first tab with an identifier takes out that tab alone, with its session
    -- disconnected and its dialogs gone. If it was the active tab, the one behind it becomes
    -- active, or else the one before it; otherwise the active tab stays.
    pub remove-split :
        (c : TabCollection T Q) (before after : List (Tab T Q)) (t : Tab T Q)
        → c.tabs ≡ before ++ t ∷ after
        → contains t.id (ids before) ≡ false
        → remove c t.id ≡ (
          record {
            tabs = before ++ after;
            active = if is_active c.active t.id then neighbour before after else c.active;
            modals = (remove_tab c.modals t.id).1;
          },
          some (TabOps.disconnect t),
        )
    unfolding remove remove_at
    remove-split c before after t e h = rw (
      e,
      position-split before after t h,
      remove,
      e,
      get_elem?-split before after t,
      remove_at,
      e,
      erase_idx-split before after t,
      next_active-split before after,
    )
