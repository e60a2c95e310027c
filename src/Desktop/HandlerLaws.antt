-- ===== src/Desktop/HandlerLaws.antt =====
-- A batch of output and the bell.
use oxide_ssh.Prelude.{
  subst, sym, ℕ, Bool, true, false, ◌||◌, List, [], ◌∷◌, Option, none, some, is_some_and, any, ◌≡◌,
  refl, arith,
}
use oxide_ssh.Model.Types.{Uuid, SessionId}
use oxide_ssh.Input.Keys.{Bytes}
use oxide_ssh.Session.Events.{SessionEvent, output}
use oxide_ssh.Session.Handle.{Channel}
use oxide_ssh.Terminal.Types.{Emulator}
use oxide_ssh.Tabs.Modals.{TabId}
use oxide_ssh.Tabs.Tab.{Tab, TabNotification, local_error, repaint}
use oxide_ssh.Tabs.Tab as TabOps
use oxide_ssh.Tabs.Repaint.{is_repaint, apply_event-repaint}
use oxide_ssh.Tabs.Collection.{TabCollection, tab}
use oxide_ssh.Tabs.Collection as Tabs
use oxide_ssh.Desktop.View.{AppView}
use oxide_ssh.Desktop.Handlers.{
  is_session, Seen, see, see_all, is_current, apply_events, seen_nothing, handle_output_batch,
}

see_all-repainted :
    (s : Seen) (ns : List TabNotification)
    → (s.repainted || any is_repaint ns) ≡ true
    → (see_all s ns).repainted ≡ true
see_all-repainted s [] h = ground arith
see_all-repainted s (local_error e ∷ ns) h = see_all-repainted (see s (local_error e)) ns h
see_all-repainted s (TabNotification.bell ∷ ns) h =
    see_all-repainted (see s TabNotification.bell) ns h
see_all-repainted s (repaint ∷ ns) h = see_all-repainted (see s repaint) ns refl

or_right : (a b : Bool) → b ≡ true → (a || b) ≡ true
or_right a b h = ground arith

or_left : (a b : Bool) → a ≡ true → (a || b) ≡ true
or_left a b h = ground arith

found_tab :
    {A : Type 0} (o : Option A) (p : A → Bool) → is_some_and o p ≡ true → (a : A) × (o ≡ some a)
found_tab none p h = cc
found_tab (some a) p h = (a, refl)

module _ {T Q : Type 0} ⦃channel : Channel Q⦄ ⦃em : Emulator T⦄ where
  apply_events-repainted :
      (tabs : TabCollection T Q) (s : Seen) (id : TabId) (events : List (SessionEvent × Uuid))
      → s.repainted ≡ true
      → (apply_events tabs s id events).1.repainted ≡ true
  unfolding apply_events
  apply_events-repainted tabs s id [] h = h
  apply_events-repainted tabs s id ((event, fresh) ∷ rest) h =
      apply_events-repainted (Tabs.apply_event tabs id fresh event).0
        (see_all s (Tabs.apply_event tabs id fresh event).1) id rest
        (see_all-repainted s (Tabs.apply_event tabs id fresh event).1 (or_left _ _ h))

  output_repaints :
      (tabs : TabCollection T Q) (id : TabId) (fresh : Uuid) (t : Tab T Q) (b : ℕ) (bs : Bytes)
      → tab tabs id ≡ some t
      → any is_repaint (Tabs.apply_event tabs id fresh (output (b ∷ bs))).1 ≡ true
  unfolding Tabs.apply_event
  output_repaints tabs id fresh t b bs found =
      subst
        (λ (o : Option (Tab T Q)).
          any is_repaint
            (elim o [ none ↦ [] | some x ↦ (TabOps.apply_event x (output (b ∷ bs))).1 ])
          ≡ true)
        (sym found) (apply_event-repaint t b bs)

  -- After a batch that begins with output of at least one byte, for the session that its tab has, the
  -- view's bell is off, whatever rang in it.
  pub handle_output_batch-bell :
      (v : AppView T Q) (id : TabId) (session : SessionId) (b : ℕ) (bs : Bytes) (fresh : Uuid)
      (rest : List (SessionEvent × Uuid))
      → is_current v id session ≡ true
      → (handle_output_batch v id session ((output (b ∷ bs), fresh) ∷ rest)).bell ≡ false
  unfolding handle_output_batch is_current apply_events
  handle_output_batch-bell v id session b bs fresh rest h =
      let (t, found) = found_tab (tab v.tabs id) (λ x. is_session session x.session_id) h in
      let after = Tabs.apply_event v.tabs id fresh (output (b ∷ bs)) in
      let seen : (see_all (seen_nothing v) after.1).repainted ≡ true =
        see_all-repainted (seen_nothing v) after.1
          (or_right false _ (output_repaints v.tabs id fresh t b bs found)) in
      let all : (apply_events after.0 (see_all (seen_nothing v) after.1) id rest).1.repainted
          ≡ true =
        apply_events-repainted after.0 (see_all (seen_nothing v) after.1) id rest seen in
      rw (h, all) refl
