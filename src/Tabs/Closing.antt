-- ===== src/Tabs/Closing.antt =====
-- crates/oxide-ssh-app/src/tabs.rs: an event, a request for a secret and the start of a close, seen
-- from the whole collection.
use oxide_ssh.Prelude.{
  ℕ, Bool, true, false, ◌≡◌, refl, ap, sym, subst, ◌∙◌, inl, inr, ◌≢◌, List, [], ◌∷◌, none, some,
  ◌==◌, ==_refl, ==_iff, zero, suc, append-nil, All-map, retain, retain-append, find, update_first,
  is_some, is_some_and, arith, Bool-cases, Option-cases, position, get_elem?,
}
use oxide_ssh.Model.Types.{Uuid}
use oxide_ssh.Session.Events.{
  SessionError, SessionEvent, unknown_host_key, changed_host_key, exited, error,
}
use oxide_ssh.Session.Handle.{Channel, Handle}
use oxide_ssh.Session.Handle as Handle
use oxide_ssh.Terminal.Types.{Emulator}
use oxide_ssh.Tabs.Modals.{
  TabId, ModalRequest, host_key, changed_host_key, secret, confirm_close, ModalQueue, tab_id, push,
  remove_tab,
}
use oxide_ssh.Tabs.ModalLaws.{Conflict, push-cases, remove_tab_lem}
use oxide_ssh.Tabs.Tab.{
  Tab, Session, awaiting_secret, handle, disconnect_session, with_handle, await_secret,
}
use oxide_ssh.Tabs.Tab as TabOps
use oxide_ssh.Tabs.Calls.{id-apply_event}
use oxide_ssh.Tabs.Collection.{
  TabCollection, has_id, tab, event_modals, apply_event, request_secret, begin_close, remove,
  remove_at,
}
use oxide_ssh.Tabs.Ids.{
  index_of, contains, ids, position-ids, ids-erase_idx, contains-erase_idx_self,
}
use oxide_ssh.Tabs.Valid.{IsValid, ModalsKnown}

-- The dialogs of a tab.
abbrev pub dialogs : TabId → ModalQueue → ModalQueue
dialogs id = retain (λ r. tab_id r == id)

dialogs-push_other :
    (j : TabId) (q : ModalQueue) (r : ModalRequest)
    → tab_id r ≢ j
    → dialogs j (push q r) ≡ dialogs j q
dialogs-push_other j q r other = elim (push-cases q r) [
  | inl (_, e) ↦ rw (e, retain-append) (ground (arith, append-nil (dialogs j q)))
  | inr (_, e) ↦ rw e
]

dialogs-remove_tab :
    (id j : TabId) (q : ModalQueue) → j ≢ id → dialogs j (remove_tab q id).1 ≡ dialogs j q
unfolding remove_tab
dialogs-remove_tab id j [] other = refl
dialogs-remove_tab id j (r ∷ rs) other = ground (arith, dialogs-remove_tab id j rs other)

dialogs-event_modals :
    (id j : TabId) (fresh : Uuid) (q : ModalQueue) (e : SessionEvent)
    → j ≢ id
    → dialogs j (event_modals q id fresh e) ≡ dialogs j q
unfolding event_modals
dialogs-event_modals id j fresh q (unknown_host_key p e a f) o =
    dialogs-push_other j q _ (λ h. o (sym h))
dialogs-event_modals id j fresh q (SessionEvent.changed_host_key e x p) o =
    dialogs-push_other j q _ (λ h. o (sym h))
dialogs-event_modals id j fresh q (error SessionError.host_key_changed) o = refl
dialogs-event_modals id j fresh q (error _) o = dialogs-remove_tab id j q o
dialogs-event_modals id j fresh q (exited s) o = dialogs-remove_tab id j q o
dialogs-event_modals id j fresh q _ o = refl

dialogs-removed : (id : TabId) (q : ModalQueue) → dialogs id (remove_tab q id).1 ≡ []
unfolding remove_tab
dialogs-removed id [] = refl
dialogs-removed id (r ∷ rs) = ground (arith, dialogs-removed id rs)

own-Conflict : (r : ModalRequest) (id : TabId) → ¬ (tab_id r ≡ id) → ¬ Conflict r (secret id)
own-Conflict (secret t) id h = h
own-Conflict (host_key t p e a f) id h = λ c. c
own-Conflict (changed_host_key t r e x p) id h = λ c. c
own-Conflict (confirm_close t) id h = λ c. c

dialogs-push_own :
    (id : TabId) (q : ModalQueue)
    → dialogs id (push (remove_tab q id).1 (secret id)) ≡ secret id ∷ []
dialogs-push_own id q = elim (push-cases (remove_tab q id).1 (secret id)) [
  | inl (_, e) ↦ rw (e, retain-append, dialogs-removed id q) (ground (arith, ==_refl id))
  | inr (blocked, _) ↦ absurd (
      blocked
        (All-map _ _ (remove_tab q id).1 (λ r h. own-Conflict r id h) (remove_tab_lem q id).1))
]

contains_of_missing :
    (id : TabId) (xs : List TabId) → index_of id xs ≡ none → contains id xs ≡ false
contains_of_missing id [] h = refl
contains_of_missing id (x ∷ xs) h = ground (arith, contains_of_missing id xs)

dialogs_of_unknown :
    (id : TabId) (xs : List TabId) (q : ModalQueue)
    → contains id xs ≡ false
    → ModalsKnown xs q
    → dialogs id q ≡ []
dialogs_of_unknown id xs [] absent known = refl
dialogs_of_unknown id xs (r ∷ rs) absent known = elim (Bool-cases (tab_id r == id)) [
  | inl own ↦ cc (subst (λ a. contains a xs ≡ true) ((==_iff (tab_id r) id).0 own) known.0, absent)
  | inr other ↦ rw other (dialogs_of_unknown id xs rs absent known.1)
]

position-get_elem? {ℓ} :
    {A : Type ℓ} (p : A → Bool) (xs : List A) {i : ℕ}
    → position p xs ≡ some i
    → get_elem? xs i ≢ none
position-get_elem? p [] e = cc
position-get_elem? p (x ∷ xs) {i = zero} e = λ h. cc
position-get_elem? p (x ∷ xs) {i = suc i} e = position-get_elem? p xs (ground arith)

disconnect_lem :
    {Q : Type 0} ⦃channel : Channel Q⦄ (s : Session Q)
    → ((handle (with_handle s (Handle.disconnect (handle s)))).id ≡ (handle s).id)
      × ((handle (with_handle s (Handle.disconnect (handle s)))).disconnect_started ≡ true)
unfolding Handle.disconnect
disconnect_lem (Session.ssh h) = ground arith
disconnect_lem (Session.local h) = ground arith

module _ {T Q : Type 0} where
  find-update_other :
      (id j : TabId) (f : Tab T Q → Tab T Q) (ts : List (Tab T Q))
      → ((t : Tab T Q) → (f t).id ≡ t.id)
      → j ≢ id
      → find (has_id j) (update_first (has_id id) f ts) ≡ find (has_id j) ts
  find-update_other id j f [] same o = refl
  find-update_other id j f (t ∷ ts) same o =
      ground (arith, same t, find-update_other id j f ts same o)

  find-update_self :
      (id : TabId) (f : Tab T Q → Tab T Q) (ts : List (Tab T Q)) {t : Tab T Q}
      → ((t : Tab T Q) → (f t).id ≡ t.id)
      → find (has_id id) ts ≡ some t
      → find (has_id id) (update_first (has_id id) f ts) ≡ some (f t)
  find-update_self id f [] same e = cc
  find-update_self id f (u ∷ ts) {t} same e = elim (Bool-cases (has_id id u)) [
    | inl hit ↦ ground (arith, same u)
    | inr miss ↦ rw (miss, miss) (find-update_self id f ts same (rw miss at e))
  ]

  -- Asking for a secret: the tab waits for it with no session, and of its dialogs the one for the
  -- secret is there and no other.
  pub request_secret_lem :
      (c : TabCollection T Q) (id : TabId) {t : Tab T Q}
      → tab c id ≡ some t
      → let d = (request_secret c id).0 in
        (dialogs id d.modals ≡ secret id ∷ [])
        × ((u : Tab T Q) × (tab d id ≡ some u) × (u.state ≡ awaiting_secret) × (u.session ≡ none))
  unfolding request_secret
  request_secret_lem c id {t} found =
      rw (found, request_secret)
        (
          dialogs-push_own id c.modals,
          (
            await_secret t,
            find-update_self id await_secret c.tabs (λ u. unfold await_secret in refl) found,
            unfold await_secret in refl,
            unfold await_secret in refl,
          ),
        )

  module _ ⦃channel : Channel Q⦄ where
    abbrev closing_tab : Tab T Q → Tab T Q
    closing_tab t = TabOps.disconnect (record t { closing = true })

    -- Removing a tab leaves no tab with its identifier and no dialog of it.
    pub remove_gone :
        (c : TabCollection T Q) (id : TabId)
        → IsValid c
        → let d = (remove c id).0 in (contains id (ids d.tabs) ≡ false) × (dialogs id d.modals ≡ [])
    unfolding remove remove_at
    remove_gone c id v = elim (Option-cases (position (has_id id) c.tabs)) [
      | inl missing ↦
          let absent =
            contains_of_missing id (ids c.tabs) (sym (position-ids id c.tabs) ∙ missing) in
          rw (missing, remove)
            (absent, dialogs_of_unknown id (ids c.tabs) c.modals absent v.modals_known)
      | inr (i, found) ↦ elim (Option-cases (get_elem? c.tabs i)) [
        | inl out ↦ absurd (position-get_elem? (has_id id) c.tabs found out)
        | inr (t, there) ↦
            rw (found, remove, there)
              (
                rw ids-erase_idx (
                    contains-erase_idx_self id (ids c.tabs) v.distinct
                      (sym (position-ids id c.tabs) ∙ found)),
                dialogs-removed id c.modals,
              )
      ]
    ]

    -- Starting to close a tab that has a live session answers true; the tab stays, marked as
    -- closing and with that session told to disconnect.
    pub begin_close_live :
        (c : TabCollection T Q) (id : TabId) {t : Tab T Q} {s : Session Q}
        → tab c id ≡ some t
        → t.session ≡ some s
        → let (d, waits) = begin_close c id in
          (waits ≡ true)
          × ((u : Tab T Q) × (h : Session Q) × (tab d id ≡ some u)
              × (u.closing ≡ true)
              × (u.session ≡ some h)
              × ((handle h).id ≡ (handle s).id)
              × ((handle h).disconnect_started ≡ true))
    unfolding begin_close
    begin_close_live c id {t} {s} found live =
        let test : is_some_and (tab c id) (λ t. is_some t.session) ≡ true =
          rw found (ap is_some live) in
        rw test (
          refl,
          (
            closing_tab t,
            with_handle s (Handle.disconnect (handle s)),
            find-update_self id closing_tab c.tabs (λ u. unfold TabOps.disconnect in refl) found,
            unfold TabOps.disconnect in refl,
            unfold TabOps.disconnect disconnect_session in ap disconnect_session live,
            (disconnect_lem s).0,
            (disconnect_lem s).1,
          ),
        )

    -- Starting to close a tab with no session answers false, and the tab is gone at once with its
    -- dialogs.
    pub begin_close_idle :
        (c : TabCollection T Q) (id : TabId)
        → IsValid c
        → is_some_and (tab c id) (λ t. is_some t.session) ≡ false
        → let (d, waits) = begin_close c id in
          (waits ≡ false) × (contains id (ids d.tabs) ≡ false) × (dialogs id d.modals ≡ [])
    unfolding begin_close
    begin_close_idle c id v idle = rw idle (refl, (remove_gone c id v).0, (remove_gone c id v).1)

    module _ ⦃em : Emulator T⦄ where
      -- An event of one tab's session leaves every other tab and its dialogs as they were.
      pub apply_event-other :
          (c : TabCollection T Q) (id j : TabId) (fresh : Uuid) (e : SessionEvent)
          → j ≢ id
          → let d = (apply_event c id fresh e).0 in
            (tab d j ≡ tab c j) × (dialogs j d.modals ≡ dialogs j c.modals) × (d.active ≡ c.active)
      unfolding apply_event
      apply_event-other c id j fresh e o = (
        find-update_other id j _ c.tabs (λ t. id-apply_event t e) o,
        dialogs-event_modals id j fresh c.modals e o,
        refl,
      )
