-- ===== src/Tabs/ModalLaws.antt =====
-- crates/oxide-ssh-app/src/tabs.rs: the order of the modal queue, and that no two dialogs ask the
-- same question.
use mathlib.Core.List.{Perm, perm_middle}
use mathlib.Core.List.Perm
use oxide_ssh.Prelude.{
  Bool, true, false, ◌&&◌, ◌||◌, ◌≡◌, refl, ◌⊎◌, inl, inr, List, [], ◌∷◌, ◌++◌, none, some, ◌==◌,
  if◌then◌else◌, any, All, All-map, Apart, Apart-retain, Apart-snoc, head?, is_some_and, arith,
  Bool-cases, All-of_any-eq-false,
}
use oxide_ssh.Model.Types.{Uuid}
use oxide_ssh.Tabs.Modals.{
  TabId, ModalRequest, host_key, changed_host_key, secret, confirm_close, tab_id, is_duplicate,
  shares_prompt, push, ModalQueue, complete_current, complete_current_if, remove_tab,
  is_host_key_for,
}

-- Two dialogs that ask the same: of one kind for one tab, or about one host-key prompt.
abbrev pub Conflict : ModalRequest → ModalRequest → Type 0
Conflict (host_key t p e a f) (host_key u q e' a' f') = (t ≡ u) ⊎ (p ≡ q)
Conflict (changed_host_key t r e x p) (changed_host_key u s e' x' p') = t ≡ u
Conflict (secret t) (secret u) = t ≡ u
Conflict (confirm_close t) (confirm_close u) = t ≡ u
Conflict _ _ = ⊥

refused : ModalRequest → ModalRequest → Bool
refused request existing = is_duplicate request existing || shares_prompt request existing

refused-Conflict : (x r : ModalRequest) → refused r x ≡ true → Conflict x r
unfolding refused is_duplicate shares_prompt
refused-Conflict (host_key t p e a f) (host_key u q e' a' f') h = ground arith
refused-Conflict (changed_host_key t r e x p) (changed_host_key u s e' x' p') h = ground arith
refused-Conflict (secret t) (secret u) h = ground arith
refused-Conflict (confirm_close t) (confirm_close u) h = ground arith
refused-Conflict _ _ h = ground arith

not-Conflict : (x r : ModalRequest) → refused r x ≡ false → ¬ Conflict x r
unfolding refused is_duplicate shares_prompt
not-Conflict (host_key t p e a f) (host_key u q e' a' f') h = ground arith
not-Conflict (changed_host_key t r e x p) (changed_host_key u s e' x' p') h = ground arith
not-Conflict (secret t) (secret u) h = ground arith
not-Conflict (confirm_close t) (confirm_close u) h = ground arith
not-Conflict _ _ h = λ c. c

any-or :
    (p q : ModalRequest → Bool) (xs : ModalQueue)
    → any (λ x. p x || q x) xs ≡ (any p xs || any q xs)
any-or p q [] = refl
any-or p q (x ∷ xs) = ground (arith, any-or p q xs)

push-refused :
    (q : ModalQueue) (r : ModalRequest) → push q r ≡ (if any (refused r) q then q else q ++ r ∷ [])
unfolding push refused
push-refused q r = ground (arith, any-or (is_duplicate r) (shares_prompt r) q)

hit :
    (p : ModalRequest → Bool) (P : ModalRequest → Type 0) (xs : ModalQueue)
    → ((x : ModalRequest) → p x ≡ true → P x)
    → any p xs ≡ true
    → ¬ All (λ x. ¬ P x) xs
hit p P [] f h k = cc
hit p P (x ∷ xs) f h k = elim (Bool-cases (p x)) [
  | inl here ↦ k.0 (f x here)
  | inr there ↦ hit p P xs f (ground arith) k.1
]

-- A request is put at the end of the queue exactly when no waiting request asks the same;
-- otherwise the queue stays as it is.
pub push-cases :
    (q : ModalQueue) (r : ModalRequest)
    → (All (λ x. ¬ Conflict x r) q × (push q r ≡ q ++ r ∷ []))
      ⊎ ((¬ All (λ x. ¬ Conflict x r) q) × (push q r ≡ q))
push-cases q r = elim (Bool-cases (any (refused r) q)) [
  | inl old ↦
      inr (hit (refused r) _ q (λ x h. refused-Conflict x r h) old, rw (push-refused q r, old))
  | inr fresh ↦ inl (
    All-map _ _ q (λ x h. not-Conflict x r h) (All-of_any-eq-false (refused r) q fresh),
    rw (push-refused q r, fresh),
  )
]

-- No two waiting requests ask the same.
abbrev pub IsSettled : ModalQueue → Type 0
IsSettled = Apart Conflict

pub push-IsSettled : (q : ModalQueue) (r : ModalRequest) → IsSettled q → IsSettled (push q r)
push-IsSettled q r h = elim (push-cases q r) [
  | inl (apart, e) ↦ rw e (Apart-snoc Conflict q r h apart)
  | inr (_, e) ↦ rw e h
]

pub remove_tab-IsSettled : (q : ModalQueue) (t : TabId) → IsSettled q → IsSettled (remove_tab q t).1
unfolding remove_tab
remove_tab-IsSettled q t h = Apart-retain Conflict _ q h

pub complete_current-IsSettled : (q : ModalQueue) → IsSettled q → IsSettled (complete_current q).1
unfolding complete_current
complete_current-IsSettled [] h = h
complete_current-IsSettled (r ∷ rs) h = h.1

pub complete_current_if-IsSettled :
    (q : ModalQueue) (m : ModalRequest → Bool) → IsSettled q → IsSettled (complete_current_if q m).1
unfolding complete_current_if
complete_current_if-IsSettled [] m h = h
complete_current_if-IsSettled (r ∷ rs) m h = ground arith

pub complete_current-All :
    (P : ModalRequest → Type 0) (q : ModalQueue) → All P q → All P (complete_current q).1
unfolding complete_current
complete_current-All P [] h = h
complete_current-All P (r ∷ rs) h = h.1

pub complete_current_if-All :
    (P : ModalRequest → Type 0) (q : ModalQueue) (m : ModalRequest → Bool)
    → All P q
    → All P (complete_current_if q m).1
unfolding complete_current_if
complete_current_if-All P [] m h = h
complete_current_if-All P (r ∷ rs) m h = ground arith

pub data ModalCall : Type 0 where
  pushed : ModalRequest → ModalCall
  completed : ModalCall
  completed_if : (ModalRequest → Bool) → ModalCall
  removed_tab : TabId → ModalCall

unfoldable pub run : ModalQueue → List ModalCall → ModalQueue
run q [] = q
run q (pushed r ∷ cs) = run (push q r) cs
run q (completed ∷ cs) = run (complete_current q).1 cs
run q (completed_if m ∷ cs) = run (complete_current_if q m).1 cs
run q (removed_tab t ∷ cs) = run (remove_tab q t).1 cs

-- From a queue in which no two requests ask the same, any calls of its methods lead to one.
pub run-IsSettled : (q : ModalQueue) (cs : List ModalCall) → IsSettled q → IsSettled (run q cs)
unfolding run
run-IsSettled q [] h = h
run-IsSettled q (pushed r ∷ cs) h = run-IsSettled (push q r) cs (push-IsSettled q r h)
run-IsSettled q (completed ∷ cs) h = run-IsSettled _ cs (complete_current-IsSettled q h)
run-IsSettled q (completed_if m ∷ cs) h = run-IsSettled _ cs (complete_current_if-IsSettled q m h)
run-IsSettled q (removed_tab t ∷ cs) h = run-IsSettled _ cs (remove_tab-IsSettled q t h)

no_other_prompt :
    (r : ModalRequest) (rs : ModalQueue) (t u : TabId) (p : Uuid)
    → is_host_key_for t p r ≡ true
    → All (λ y. ¬ Conflict r y) rs
    → is_some_and (head? rs) (is_host_key_for u p) ≡ false
no_other_prompt (host_key t' p' e a f) [] t u p h k = refl
no_other_prompt (host_key t' p' e a f) (host_key t2 p2 e2 a2 f2 ∷ rs) t u p h k =
    elim (Bool-cases (t2 == u && p2 == p)) [
      | inl same ↦ absurd (k.0 (inr (ground arith)))
      | inr other ↦ other
    ]
no_other_prompt (host_key t' p' e a f) (changed_host_key t2 p2 e2 a2 f2 ∷ rs) t u p h k = refl
no_other_prompt (host_key t' p' e a f) (secret t2 ∷ rs) t u p h k = refl
no_other_prompt (host_key t' p' e a f) (confirm_close t2 ∷ rs) t u p h k = refl
no_other_prompt _ rs t u p h k = cc

-- In a queue where no two requests ask the same, a host-key prompt is answered once: after the
-- callback for it has taken the front request, the callback of any tab for the same prompt takes
-- nothing and leaves the queue as it is.
pub answered_once :
    (q rest : ModalQueue) (r : ModalRequest) (t u : TabId) (p : Uuid)
    → IsSettled q
    → complete_current_if q (is_host_key_for t p) ≡ (some r, rest)
    → complete_current_if rest (is_host_key_for u p) ≡ (none, rest)
unfolding complete_current_if complete_current
answered_once [] rest r t u p v e = ground arith
answered_once (x ∷ xs) rest r t u p v e =
    ground (arith, no_other_prompt x xs t u p (ground arith) v.0)

-- What `remove_tab` gives back are that tab's requests, what it leaves are the others, and
-- together they are the queue.
pub remove_tab_lem :
    (q : ModalQueue) (t : TabId)
    → All (λ r. tab_id r ≡ t) (remove_tab q t).0
      × All (λ r. ¬ (tab_id r ≡ t)) (remove_tab q t).1
      × Perm ((remove_tab q t).0 ++ (remove_tab q t).1) q
unfolding remove_tab
remove_tab_lem [] t = (tt, tt, Perm.refl [])
remove_tab_lem (x ∷ xs) t =
    let ih = remove_tab_lem xs t in
    elim (Bool-cases (tab_id x == t)) [
      | inl own ↦ rw own ((ground arith, ih.0), ih.1, Perm.cons x ih.2)
      | inr other ↦
          rw other (ih.0, (ground arith, ih.1), Perm.trans (perm_middle _ _) (Perm.cons x ih.2))
    ]
