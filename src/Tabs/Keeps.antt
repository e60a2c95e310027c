-- ===== src/Tabs/Keeps.antt =====
-- crates/oxide-ssh-app/src/tabs.rs: every method of `TabCollection` keeps the invariant.
use oxide_ssh.Prelude.{
  Bool, true, false, ◌≡◌, refl, ap, sym, subst, ◌∙◌, inl, inr, [], ◌∷◌, ◌++◌, some, if◌then◌else◌,
  map, All-append, All-map, Apart-snoc, is_some, is_some_and, arith, Bool-cases, Option-cases,
  Result-cases,
}
use oxide_ssh.Model.Types.{Uuid, ConnectionProfile}
use oxide_ssh.Session.Events.{SessionEvent}
use oxide_ssh.Session.Handle.{Channel}
use oxide_ssh.Terminal.Types.{TerminalSize, TerminalColors, Emulator}
use oxide_ssh.Tabs.Modals.{TabId, tab_id, push, remove_tab, secret, confirm_close}
use oxide_ssh.Tabs.Tab.{Tab, TabKind}
use oxide_ssh.Tabs.Tab as TabOps
use oxide_ssh.Tabs.TabLaws.{
  IsConsistent, new-IsConsistent, apply_event-IsConsistent, await_secret-IsConsistent,
  disconnect-IsConsistent, prepare_reconnect-IsConsistent,
}
use oxide_ssh.Tabs.Calls.{
  TabCall, call, call-IsConsistent, id-call, id-apply_event, id-prepare_reconnect,
}
use oxide_ssh.Tabs.Collection.{
  TabCollection, event_modals, empty, tab, update_tab, set_active, recolor, set_terminal_colors,
  begin_close, request_close, disconnect_all, open_tab, open_local, apply_event, prepare_reconnect,
  request_secret,
}
use oxide_ssh.Tabs.Ids.{
  contains, ids, contains-find, ids-append, ids-map, All-map_fun, contains-snoc, apart_of_fresh,
}
use oxide_ssh.Tabs.Valid.{
  is_host_key_event, IsValid, update_tab-IsValid, push-IsValid, remove_tab-IsValid,
  event_modals-IsValid,
}
use oxide_ssh.Tabs.Removal.{remove-IsValid}

module _ {T Q : Type 0} where
  pub empty-IsValid : IsValid (empty {T = T} {Q = Q})
  unfolding empty
  empty-IsValid = record {
    distinct = tt;
    consistent = tt;
    active_known = refl;
    modals_known = tt;
    settled = tt;
  }

  contains_of_tab :
      (c : TabCollection T Q) (id : TabId) {t : Tab T Q}
      → tab c id ≡ some t
      → contains id (ids c.tabs) ≡ true
  contains_of_tab c id e = sym (contains-find id c.tabs) ∙ ap is_some e

  pub set_active-IsValid :
      (c : TabCollection T Q) (id : TabId) → IsValid c → IsValid (set_active c id).0
  unfolding set_active
  set_active-IsValid c id v = elim (Option-cases (tab c id)) [
    | inl missing ↦ rw (missing, set_active) v
    | inr (t, found) ↦
        rw (found, set_active)
          (record {
            distinct = v.distinct;
            consistent = v.consistent;
            active_known = contains_of_tab c id found;
            modals_known = v.modals_known;
            settled = v.settled;
          })
  ]

  map-IsValid :
      (c : TabCollection T Q) (f : Tab T Q → Tab T Q)
      → ((t : Tab T Q) → (f t).id ≡ t.id)
      → ((t : Tab T Q) → IsConsistent t → IsConsistent (f t))
      → IsValid c
      → IsValid (record c { tabs = map f c.tabs })
  map-IsValid c f same keeps v =
      let e = ids-map f c.tabs same in
      record {
        distinct = rw e v.distinct;
        consistent = All-map_fun IsConsistent f c.tabs keeps v.consistent;
        active_known = rw e v.active_known;
        modals_known = rw e v.modals_known;
        settled = v.settled;
      }

  pub set_terminal_colors-IsValid :
      (c : TabCollection T Q) (colors : TerminalColors)
      → IsValid c
      → IsValid (set_terminal_colors c colors)
  unfolding set_terminal_colors
  set_terminal_colors-IsValid c colors v =
      map-IsValid c (recolor colors) (λ t. refl)
        (λ t k. record { session_known = k.session_known; over = k.over }) v

  pub request_secret-IsValid :
      (c : TabCollection T Q) (id : TabId) → IsValid c → IsValid (request_secret c id).0
  unfolding request_secret
  request_secret-IsValid c id v = elim (Option-cases (tab c id)) [
    | inl missing ↦ rw (missing, request_secret) (remove_tab-IsValid c id v)
    | inr (t, found) ↦
        rw (found, request_secret)
          (update_tab-IsValid (record c { modals = push (remove_tab c.modals id).1 (secret id) }) id
            TabOps.await_secret (λ t. unfold TabOps.await_secret in refl) await_secret-IsConsistent
            (push-IsValid (record c { modals = (remove_tab c.modals id).1 }) (secret id)
              (contains_of_tab c id found) (remove_tab-IsValid c id v)))
  ]

  -- A tab that is put at the end, under a new identifier, and made active.
  append-IsValid :
      (c : TabCollection T Q) (t : Tab T Q)
      → contains t.id (ids c.tabs) ≡ false
      → IsConsistent t
      → IsValid c
      → IsValid (record { tabs = c.tabs ++ t ∷ []; active = some t.id; modals = c.modals })
  append-IsValid c t fresh k v = record {
    distinct =
        rw (ids-append c.tabs (t ∷ []))
          (Apart-snoc ◌≡◌ (ids c.tabs) t.id v.distinct (apart_of_fresh t.id (ids c.tabs) fresh));
    consistent = All-append IsConsistent c.tabs _ v.consistent (k, tt);
    active_known =
        rw (ids-append c.tabs (t ∷ [])) (ground (arith, contains-snoc t.id t.id (ids c.tabs)));
    modals_known = rw (ids-append c.tabs (t ∷ [])) (
        All-map _ _ c.modals (λ r h. ground (arith, contains-snoc (tab_id r) t.id (ids c.tabs)))
          v.modals_known);
    settled = v.settled;
  }

  open-IsValid :
      (c : TabCollection T Q) (id : TabId) (t : Tab T Q)
      → t.id ≡ id
      → contains id (ids c.tabs) ≡ false
      → IsConsistent t
      → IsValid c
      → IsValid (record { tabs = c.tabs ++ t ∷ []; active = some id; modals = c.modals })
  open-IsValid c id t e fresh k v =
      subst (λ a. IsValid (record { tabs = c.tabs ++ t ∷ []; active = some a; modals = c.modals }))
        e (append-IsValid c t (rw e fresh) k v)

  IsValid-of_some : {c d : TabCollection T Q} → some c ≡ some d → IsValid c → IsValid d
  IsValid-of_some e v = subst IsValid (cc) v

  module _ ⦃channel : Channel Q⦄ where
    pub begin_close-IsValid :
        (c : TabCollection T Q) (id : TabId) → IsValid c → IsValid (begin_close c id).0
    unfolding begin_close
    begin_close-IsValid c id v =
        elim (Bool-cases (is_some_and (tab c id) (λ t. is_some t.session))) [
          | inl live ↦ rw live (
              update_tab-IsValid c id _ (λ t. unfold TabOps.disconnect in refl)
                (λ t k.
                  disconnect-IsConsistent _
                    (record { session_known = k.session_known; over = k.over }))
                v)
          | inr idle ↦ rw idle (remove-IsValid c id v)
        ]

    pub request_close-IsValid :
        (c : TabCollection T Q) (id : TabId) → IsValid c → IsValid (request_close c id).0
    unfolding request_close
    request_close-IsValid c id v = elim (Option-cases (tab c id)) [
      | inl missing ↦ rw (missing, request_close) v
      | inr (t, found) ↦
          rw (found, request_close)
            (ground (
              arith,
              remove-IsValid c id v,
              push-IsValid c (confirm_close id) (contains_of_tab c id found) v,
            ))
    ]

    pub disconnect_all-IsValid : (c : TabCollection T Q) → IsValid c → IsValid (disconnect_all c)
    unfolding disconnect_all
    disconnect_all-IsValid c v =
        map-IsValid c TabOps.disconnect (λ t. unfold TabOps.disconnect in refl)
          disconnect-IsConsistent v

    module _ ⦃em : Emulator T⦄ where
      pub call-IsValid :
          (c : TabCollection T Q) (id : TabId) (k : TabCall Q)
          → IsValid c
          → IsValid (update_tab c id (λ t. call t k))
      call-IsValid c id k v =
          update_tab-IsValid c id _ (λ t. id-call t k) (λ t h. call-IsConsistent t k h) v

      pub apply_event-IsValid :
          (c : TabCollection T Q) (id : TabId) (fresh : Uuid) (e : SessionEvent)
          → (is_host_key_event e ≡ true → contains id (ids c.tabs) ≡ true)
          → IsValid c
          → IsValid (apply_event c id fresh e).0
      unfolding apply_event
      apply_event-IsValid c id fresh e known v =
          update_tab-IsValid (record c { modals = event_modals c.modals id fresh e }) id _
            (λ t. id-apply_event t e) (λ t h. apply_event-IsConsistent t e h)
            (event_modals-IsValid c id fresh e known v)

      pub prepare_reconnect-IsValid :
          (c : TabCollection T Q) (id : TabId) (size : TerminalSize) (colors : TerminalColors)
          → IsValid c
          → IsValid (prepare_reconnect c id size colors).0
      unfolding prepare_reconnect
      prepare_reconnect-IsValid c id size colors v =
          let cleared = remove_tab-IsValid c id v in
          elim (Option-cases (tab c id)) [
            | inl missing ↦ rw (missing, prepare_reconnect) cleared
            | inr (t, found) ↦
                rw (found, prepare_reconnect)
                  (update_tab-IsValid (record c { modals = (remove_tab c.modals id).1 }) id _
                    (λ x. id-prepare_reconnect x size colors)
                    (λ x h. prepare_reconnect-IsConsistent x size colors h) cleared)
          ]

      pub open_local-IsValid :
          (c : TabCollection T Q) (id : TabId) (size : TerminalSize) (colors : TerminalColors)
          {d : TabCollection T Q}
          → contains id (ids c.tabs) ≡ false
          → open_local c id size colors ≡ some d
          → IsValid c
          → IsValid d
      unfolding open_local
      open_local-IsValid c id size colors fresh e v =
          elim (Result-cases (TabOps.new {T = T} {Q = Q} id TabKind.local size colors false)) [
            | inr (error, refused) ↦ cc (rw (refused, open_local) at e)
            | inl (t, made) ↦
                let (k, same) = new-IsConsistent id TabKind.local size colors false made in
                IsValid-of_some (rw (made, open_local) at e) (open-IsValid c id t same fresh k v)
          ]

      pub open_tab-IsValid :
          (c : TabCollection T Q) (id : TabId) (profile : ConnectionProfile) (size : TerminalSize)
          (colors : TerminalColors) (awaiting : Bool) {d : TabCollection T Q}
          → contains id (ids c.tabs) ≡ false
          → open_tab c id profile size colors awaiting ≡ some d
          → IsValid c
          → IsValid d
      unfolding open_tab
      open_tab-IsValid c id profile size colors awaiting fresh e v =
          elim (Result-cases
            (TabOps.new {T = T} {Q = Q} id (TabKind.ssh profile) size colors awaiting)) [
              | inr (error, refused) ↦ cc (rw (refused, open_tab) at e)
              | inl (t, made) ↦
                  let (k, same) =
                    new-IsConsistent id (TabKind.ssh profile) size colors awaiting made in
                  let opened = open-IsValid c id t same fresh k v in
                  IsValid-of_some (rw (made, open_tab) at e)
                    (elim awaiting
                      as (λ b. IsValid (record {
                        tabs = c.tabs ++ t ∷ [];
                        active = some id;
                        modals = if b then push c.modals (secret id) else c.modals;
                      })) [
                        | true ↦ push-IsValid _ (secret id) opened.active_known opened
                        | false ↦ opened
                      ])
            ]
