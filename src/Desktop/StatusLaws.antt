-- ===== src/Desktop/StatusLaws.antt =====
-- crates/oxide-ssh-desktop/src/app/mod.rs: when the message on the banner has a timer that will clear it.
use oxide_ssh.Prelude.{
  ℕ, zero, suc, true, false, List, [], ◌∷◌, ◌++◌, Option, none, some, get_elem?, erase_idx,
  append-nil, if◌then◌else◌, Bool-cases, ◌≡◌, refl, sym, ap, ◌∙◌, subst, ◌⊎◌, ◌≢◌, inl, inr,
}
use mathlib.Core.Logic.{ite}
use oxide_ssh.Desktop.Locale.{MessageId}
use oxide_ssh.Desktop.View.{AppView, Task, status_timer}
use oxide_ssh.Desktop.Commands.{
  MessageId-discrete, same_message, banner_timer, sync_status, status_expired,
}

eq_of_ite : {a b : MessageId} (d : Dec (a ≡ b)) → ite d true false ≡ true → a ≡ b
eq_of_ite (yes p) h = p
eq_of_ite (no n) h = cc

ite_refl : {a : MessageId} (d : Dec (a ≡ a)) → ite d true false ≡ true
ite_refl (yes p) = refl
ite_refl (no n) = absurd (n refl)

same_message-eq : (a b : Option MessageId) → same_message a b ≡ true → a ≡ b
unfolding same_message
same_message-eq none none h = refl
same_message-eq (some a) (some b) h = ap some (eq_of_ite (MessageId-discrete a b) h)
same_message-eq none (some b) h = cc
same_message-eq (some a) none h = cc

same_message_refl : (a : Option MessageId) → same_message a a ≡ true
unfolding same_message
same_message_refl none = refl
same_message_refl (some a) = ite_refl (MessageId-discrete a a)

-- The messages of the timers that a call starts.
abbrev pub timers_of : List Task → List MessageId
timers_of [] = []
timers_of (status_timer m ∷ ts) = m ∷ timers_of ts
timers_of (_ ∷ ts) = timers_of ts

abbrev pub IsWaiting : MessageId → List MessageId → Type 0
IsWaiting m [] = ⊥
IsWaiting m (k ∷ ks) = (k ≡ m) ⊎ IsWaiting m ks

-- What was drawn last has a timer.
abbrev pub IsTimed : Option MessageId → List MessageId → Type 0
IsTimed none timers = Unit
IsTimed (some m) timers = IsWaiting m timers

waits_behind : (m : MessageId) (ks : List MessageId) → IsWaiting m (ks ++ m ∷ [])
waits_behind m [] = inl refl
waits_behind m (k ∷ ks) = inr (waits_behind m ks)

-- The end of one timer leaves those of other messages.
waits_on :
    (m k : MessageId) (ks : List MessageId) (i : ℕ)
    → get_elem? ks i ≡ some k
    → ¬ (k ≡ m)
    → IsWaiting m ks
    → IsWaiting m (erase_idx ks i)
waits_on m k [] i g n w = absurd w
waits_on m k (x ∷ ks) zero g n (inl e) = absurd (n cc)
waits_on m k (x ∷ ks) zero g n (inr w) = w
waits_on m k (x ∷ ks) (suc i) g n (inl e) = inl e
waits_on m k (x ∷ ks) (suc i) g n (inr w) = inr (waits_on m k ks i g n w)

started_anew :
    (o : Option MessageId) (ks : List MessageId) → IsTimed o (ks ++ timers_of (banner_timer o))
started_anew none ks = tt
started_anew (some m) ks = waits_behind m ks

-- A timer that ends does not leave its own message.
not_left :
    (k : MessageId) (status : Option MessageId)
    → ¬ ((if same_message status (some k) then none else status) ≡ some k)
not_left k status h = elim (Bool-cases (same_message status (some k))) [
  | inl same ↦ let gone = rw same at h in cc
  | inr other ↦
      let kept : status ≡ some k = rw other at h in
      let same : same_message status (some k) ≡ true = rw kept (same_message_refl (some k)) in cc
]

-- What was drawn last has a timer, or is not shown any more.
abbrev pub IsCovered : Option MessageId → Option MessageId → List MessageId → Type 0
IsCovered none status timers = Unit
IsCovered (some m) status timers = IsWaiting m timers ⊎ (status ≢ some m)

neither :
    (k m : MessageId) (ks : List MessageId)
    → ¬ (k ≡ m)
    → ¬ (IsWaiting m ks)
    → ¬ (IsWaiting m (k ∷ ks))
neither k m ks other n (inl same) = other same
neither k m ks other n (inr w) = n w

find_waiting : (m : MessageId) (ks : List MessageId) → Dec (IsWaiting m ks)
find_waiting m [] = no (λ w. w)
find_waiting m (k ∷ ks) = elim (MessageId-discrete k m) [
  | yes same ↦ yes (inl same)
  | no other ↦ elim (find_waiting m ks) [ yes w ↦ yes (inr w) | no n ↦ no (neither k m ks other n) ]
]

kept_by_timer :
    (rendered status : Option MessageId) (ks : List MessageId)
    → IsTimed rendered ks
    → IsCovered rendered status ks
kept_by_timer none status ks h = tt
kept_by_timer (some m) status ks h = inl h

covered_shown :
    (rendered status : Option MessageId) (ks : List MessageId)
    → IsCovered rendered status ks
    → status ≡ rendered
    → IsTimed rendered ks
covered_shown none status ks h e = tt
covered_shown (some m) status ks (inl w) e = w
covered_shown (some m) status ks (inr gone) e = absurd (gone e)

-- The message that is left after a timer for `k` has ended.
still_gone :
    (k m : MessageId) (status : Option MessageId)
    → status ≢ some m
    → (if same_message status (some k) then none else status) ≢ some m
still_gone k m status gone h = elim (Bool-cases (same_message status (some k))) [
  | inl same ↦ let none_left = rw same at h in cc
  | inr other ↦ gone (rw other at h)
]

after_expiry :
    (k : MessageId) (status rendered : Option MessageId) (ks : List MessageId) (i : ℕ)
    → get_elem? ks i ≡ some k
    → IsCovered rendered status ks
    → IsCovered rendered (if same_message status (some k) then none else status) (erase_idx ks i)
after_expiry k status none ks i g h = tt
after_expiry k status (some m) ks i g (inr gone) = inr (still_gone k m status gone)
after_expiry k status (some m) ks i g (inl w) = elim (MessageId-discrete k m) [
  | yes same ↦ inr (λ h. not_left k status (h ∙ ap some (sym same)))
  | no other ↦ inl (waits_on m k ks i g other w)
]

-- What other calls do to the message, a frame that is drawn, and the end of a timer.
pub data Action : Type 0 where
  message : Option MessageId → Action
  frame : Action
  expire : ℕ → Action

-- That a call shows the very message that was drawn last, when its timer has ended.
abbrev pub IsShownAgain : Option MessageId → List MessageId → Action → Type 0
IsShownAgain rendered timers (message (some m)) = (rendered ≡ some m) × ¬ (IsWaiting m timers)
IsShownAgain rendered timers _ = ⊥

message_inj : {a b : MessageId} → ◌≡◌ {A = Option MessageId} (some a) (some b) → a ≡ b
message_inj h = cc

after_message :
    (rendered m : Option MessageId) (ks : List MessageId)
    → ¬ (IsShownAgain rendered ks (message m))
    → IsCovered rendered m ks
after_message none m ks fresh = tt
after_message (some d) none ks fresh = inr (λ e. cc)
after_message (some d) (some m) ks fresh = elim (MessageId-discrete m d) [
  | no other ↦ inr (λ e. other (message_inj e))
  | yes same ↦ elim (find_waiting m ks) [
    | yes w ↦ inl (subst (λ x. IsWaiting x ks) same w)
    | no n ↦ absurd (fresh (ap some (sym same), n))
  ]
]

module _ {T Q : Type 0} where
  unfoldable pub draw : AppView T Q × List MessageId → AppView T Q × List MessageId
  unfolding sync_status
  draw (v, timers) = let (w, tasks) = sync_status v in (w, timers ++ timers_of tasks)

  unfoldable pub expired :
      AppView T Q → List MessageId → ℕ → Option MessageId → AppView T Q × List MessageId
  unfolding status_expired
  expired v timers i none = (v, timers)
  expired v timers i (some m) = (status_expired v m, erase_idx timers i)

  unfoldable pub act : AppView T Q × List MessageId → Action → AppView T Q × List MessageId
  unfolding draw expired
  act (v, timers) (message m) = (record v { status_message = m }, timers)
  act (v, timers) frame = draw (v, timers)
  act (v, timers) (expire i) = expired v timers i (get_elem? timers i)

  unfoldable pub run : AppView T Q × List MessageId → List Action → AppView T Q × List MessageId
  unfolding act
  run d [] = d
  run d (a ∷ rest) = run (act d a) rest

  -- That this happens somewhere in a run.
  unfoldable pub ShowsAgain : AppView T Q × List MessageId → List Action → Type 0
  unfolding act
  ShowsAgain d [] = ⊥
  ShowsAgain d (a ∷ rest) = IsShownAgain d.0.status_rendered d.1 a ⊎ ShowsAgain (act d a) rest

  drawn-Timed :
      (v : AppView T Q) (timers : List MessageId)
      → (v.status_message ≡ v.status_rendered → IsTimed v.status_rendered timers)
      → let (w, left) = draw (v, timers) in
        (w.status_rendered ≡ w.status_message) × IsTimed w.status_rendered left
  unfolding draw sync_status
  drawn-Timed v timers h = elim (Bool-cases (same_message v.status_message v.status_rendered)) [
    | inl same ↦
        let e = same_message-eq v.status_message v.status_rendered same in
        rw (same, append-nil) (sym e, h e)
    | inr other ↦ rw other (refl, started_anew v.status_message timers)
  ]

  drawn_covered :
      (v : AppView T Q) (timers : List MessageId)
      → IsCovered v.status_rendered v.status_message timers
      → let (w, left) = draw (v, timers) in
        (w.status_rendered ≡ w.status_message) × IsTimed w.status_rendered left
  drawn_covered v timers h =
      drawn-Timed v timers (covered_shown v.status_rendered v.status_message timers h)

  expired-Covered :
      (v : AppView T Q) (timers : List MessageId) (i : ℕ) (o : Option MessageId)
      → get_elem? timers i ≡ o
      → IsCovered v.status_rendered v.status_message timers
      → let (w, left) = expired v timers i o in IsCovered w.status_rendered w.status_message left
  unfolding expired status_expired
  expired-Covered v timers i none g h = h
  expired-Covered v timers i (some k) g h =
      after_expiry k v.status_message v.status_rendered timers i g h

  act-Covered :
      (v : AppView T Q) (timers : List MessageId) (a : Action)
      → ¬ (IsShownAgain v.status_rendered timers a)
      → IsCovered v.status_rendered v.status_message timers
      → let (w, left) = act (v, timers) a in IsCovered w.status_rendered w.status_message left
  unfolding act
  act-Covered v timers (message m) fresh h = after_message v.status_rendered m timers fresh
  act-Covered v timers frame fresh h =
      let (w, left) = draw (v, timers) in
      kept_by_timer w.status_rendered w.status_message left (drawn_covered v timers h).1
  act-Covered v timers (expire i) fresh h = expired-Covered v timers i (get_elem? timers i) refl h

  run-Covered :
      (v : AppView T Q) (timers : List MessageId) (actions : List Action)
      → ¬ (ShowsAgain (v, timers) actions)
      → IsCovered v.status_rendered v.status_message timers
      → let (w, left) = run (v, timers) actions in IsCovered w.status_rendered w.status_message left
  unfolding run ShowsAgain
  run-Covered v timers [] fresh h = h
  run-Covered v timers (a ∷ rest) fresh h =
      let (w, left) = act (v, timers) a in
      run-Covered w left rest (λ s. fresh (inr s)) (act-Covered v timers a (λ s. fresh (inl s)) h)

  -- From a view in which the message that was drawn last, if any, has a timer: whatever other calls do to
  -- the message, and whenever timers end and frames are drawn, the message of the next frame has a timer
  -- that will clear it. The condition is that no call shows the message that was drawn last once
  -- more after its timer has ended and before another frame.
  pub run-Cleared :
      (v : AppView T Q) (timers : List MessageId) (actions : List Action) (m : MessageId)
      → IsTimed v.status_rendered timers
      → ¬ (ShowsAgain (v, timers) actions)
      → (draw (run (v, timers) actions)).0.status_message ≡ some m
      → IsWaiting m (draw (run (v, timers) actions)).1
  run-Cleared v timers actions m h fresh shown =
      let (w, left) = run (v, timers) actions in
      let covered =
        run-Covered v timers actions fresh
          (kept_by_timer v.status_rendered v.status_message timers h) in
      let (same, timed) = drawn_covered w left covered in
      subst (λ o. IsTimed o (draw (w, left)).1) (same ∙ shown) timed

  -- Without the condition: the message of a timer that ended is shown again before a frame, and the
  -- frame starts no timer for it.
  shown_again :
      (v : AppView T Q) (m : MessageId)
      → v.status_rendered ≡ some m
      → let again = record (status_expired v m) { status_message = some m } in
        sync_status again ≡ (again, [])
  unfolding sync_status status_expired
  shown_again v m h = rw (h, same_message_refl (some m)) refl
