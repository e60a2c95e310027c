-- ===== src/Tabs/Valid.antt =====
-- crates/oxide-ssh-app/src/tabs.rs: the invariant of `TabCollection`, and the methods that change its
-- list of tabs or its modals.
use oxide_ssh.Prelude.{
  Bool, true, false, ◌≡◌, refl, inl, inr, List, [], Option, none, some, All, All-append, All-retain,
  Apart,
}
use oxide_ssh.Model.Types.{Uuid}
use oxide_ssh.Session.Events.{
  SessionError, SessionEvent, unknown_host_key, changed_host_key, exited, error,
}
use oxide_ssh.Tabs.Modals.{
  complete_current, complete_current_if, TabId, ModalRequest, ModalQueue, tab_id, push, remove_tab,
}
use oxide_ssh.Tabs.ModalLaws.{
  complete_current-IsSettled, complete_current_if-IsSettled, complete_current-All,
  complete_current_if-All, IsSettled, push-cases, push-IsSettled, remove_tab-IsSettled,
}
use oxide_ssh.Tabs.Tab.{Tab}
use oxide_ssh.Tabs.TabLaws.{IsConsistent}
use oxide_ssh.Tabs.Collection.{TabCollection, event_modals, update_tab}
use oxide_ssh.Tabs.Ids.{contains, ids, ids-update_first, All-update_first}

-- The events that ask for a dialog on a host key.
abbrev pub is_host_key_event : SessionEvent → Bool
is_host_key_event (unknown_host_key p e a f) = true
is_host_key_event (changed_host_key e x p) = true
is_host_key_event _ = false

abbrev pub ActiveKnown : List TabId → Option TabId → Type 0
ActiveKnown xs none = xs ≡ []
ActiveKnown xs (some a) = contains a xs ≡ true

-- Every waiting dialog belongs to a tab that is there.
abbrev pub ModalsKnown : List TabId → ModalQueue → Type 0
ModalsKnown xs = All (λ r. contains (tab_id r) xs ≡ true)

pub record IsValid {T Q : Type 0} (c : TabCollection T Q) : Type 0 where
  pub distinct : Apart ◌≡◌ (ids c.tabs)
  pub consistent : All IsConsistent c.tabs
  pub active_known : ActiveKnown (ids c.tabs) c.active
  pub modals_known : ModalsKnown (ids c.tabs) c.modals
  pub settled : IsSettled c.modals

pub push-ModalsKnown :
    (xs : List TabId) (q : ModalQueue) (r : ModalRequest)
    → contains (tab_id r) xs ≡ true
    → ModalsKnown xs q
    → ModalsKnown xs (push q r)
push-ModalsKnown xs q r known h = elim (push-cases q r) [
  | inl (_, e) ↦ rw e (All-append _ q _ h (known, tt))
  | inr (_, e) ↦ rw e h
]

pub remove_tab-ModalsKnown :
    (xs : List TabId) (q : ModalQueue) (t : TabId)
    → ModalsKnown xs q
    → ModalsKnown xs (remove_tab q t).1
unfolding remove_tab
remove_tab-ModalsKnown xs q t h = All-retain _ _ q h

module _ {T Q : Type 0} where
  pub update_tab-IsValid :
      (c : TabCollection T Q) (id : TabId) (f : Tab T Q → Tab T Q)
      → ((t : Tab T Q) → (f t).id ≡ t.id)
      → ((t : Tab T Q) → IsConsistent t → IsConsistent (f t))
      → IsValid c
      → IsValid (update_tab c id f)
  update_tab-IsValid c id f same keeps v =
      let e = ids-update_first id f c.tabs same in
      record {
        distinct = rw e v.distinct;
        consistent = All-update_first IsConsistent id f c.tabs keeps v.consistent;
        active_known = rw e v.active_known;
        modals_known = rw e v.modals_known;
        settled = v.settled;
      }

  pub with_modals-IsValid :
      (c : TabCollection T Q) (q : ModalQueue)
      → IsValid c
      → ModalsKnown (ids c.tabs) q
      → IsSettled q
      → IsValid (record c { modals = q })
  with_modals-IsValid c q v known settled = record {
    distinct = v.distinct;
    consistent = v.consistent;
    active_known = v.active_known;
    modals_known = known;
    settled = settled;
  }

  pub push-IsValid :
      (c : TabCollection T Q) (r : ModalRequest)
      → contains (tab_id r) (ids c.tabs) ≡ true
      → IsValid c
      → IsValid (record c { modals = push c.modals r })
  push-IsValid c r known v =
      with_modals-IsValid c _ v (push-ModalsKnown _ c.modals r known v.modals_known)
        (push-IsSettled c.modals r v.settled)

  pub remove_tab-IsValid :
      (c : TabCollection T Q) (id : TabId)
      → IsValid c
      → IsValid (record c { modals = (remove_tab c.modals id).1 })
  remove_tab-IsValid c id v =
      with_modals-IsValid c _ v (remove_tab-ModalsKnown _ c.modals id v.modals_known)
        (remove_tab-IsSettled c.modals id v.settled)

  pub event_modals-IsValid :
      (c : TabCollection T Q) (id : TabId) (fresh : Uuid) (e : SessionEvent)
      → (is_host_key_event e ≡ true → contains id (ids c.tabs) ≡ true)
      → IsValid c
      → IsValid (record c { modals = event_modals c.modals id fresh e })
  unfolding event_modals
  event_modals-IsValid c id fresh (unknown_host_key p e a f) k v = push-IsValid c _ (k refl) v
  event_modals-IsValid c id fresh (changed_host_key e x p) k v = push-IsValid c _ (k refl) v
  event_modals-IsValid c id fresh (error SessionError.host_key_changed) k v = v
  event_modals-IsValid c id fresh (error _) k v = remove_tab-IsValid c id v
  event_modals-IsValid c id fresh (exited s) k v = remove_tab-IsValid c id v
  event_modals-IsValid c id fresh _ k v = v

  pub complete_current-IsValid :
      (c : TabCollection T Q)
      → IsValid c
      → IsValid (record c { modals = (complete_current c.modals).1 })
  complete_current-IsValid c v =
      with_modals-IsValid c _ v (complete_current-All _ c.modals v.modals_known)
        (complete_current-IsSettled c.modals v.settled)

  pub complete_current_if-IsValid :
      (c : TabCollection T Q) (m : ModalRequest → Bool)
      → IsValid c
      → IsValid (record c { modals = (complete_current_if c.modals m).1 })
  complete_current_if-IsValid c m v =
      with_modals-IsValid c _ v (complete_current_if-All _ c.modals m v.modals_known)
        (complete_current_if-IsSettled c.modals m v.settled)
