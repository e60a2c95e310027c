-- ===== src/Trust/Steps.antt =====
-- The steps that sessions and dialogs take on the coordinator, in any order: each is one stretch
-- under the lock of `pending`, or one look into the store.
use oxide_ssh.Prelude.{
  ℕ, Bool, List, [], ◌∷◌, Option, none, some, Result, ok, err, ◌==◌, find, update_first, All,
  All-map, Apart-retain, Bool-cases, ◌≡◌, refl, sym, subst, ◌∙◌, inl, inr, arith,
}
use oxide_ssh.Model.Types.{Uuid, Endpoint}
use oxide_ssh.Model.Validate.{Texts}
use oxide_ssh.Session.Events.{HostKeyDecision, host_key_rejected}
use oxide_ssh.Storage.Types.{KnownHosts, KnownHostEntry, StorageError}
use oxide_ssh.Storage.Config.{canonicalize_endpoint}
use oxide_ssh.Storage.Files.{Codec, Io}
use oxide_ssh.Storage.Store.{known_host, AppStore}
use oxide_ssh.Trust.Coordinator.{
  PresentedHostKey, PendingTrust, PendingTrustGuard, HostTrustCoordinator, has_prompt_id, is_for,
  mark, add_sender, drop_sender, settle, set_awaiting, join, clash, insert_pending, enter_found,
  enter, drop_found, drop_guard, same_presented_key, key_of, subscribe_found, subscribe_awaiting,
}
use oxide_ssh.Trust.Decide.{decide, verify_at, verify_known, check_known}
use oxide_ssh.Trust.PromptLaws.{PromptsApart, others, decided_pending, decide_again}

abbrev prompt_of : Endpoint × PendingTrust → Uuid
prompt_of x = x.1.prompt_id

abbrev Clash : Endpoint × PendingTrust → Endpoint × PendingTrust → Type 0
Clash a b = a.1.prompt_id ≡ b.1.prompt_id

All-update :
    (x : Endpoint × PendingTrust) (p : Endpoint × PendingTrust → Bool)
    (f : Endpoint × PendingTrust → Endpoint × PendingTrust) (xs : List (Endpoint × PendingTrust))
    → ((y : Endpoint × PendingTrust) → prompt_of (f y) ≡ prompt_of y)
    → All (λ y. ¬ Clash x y) xs
    → All (λ y. ¬ Clash x y) (update_first p f xs)
All-update x p f [] same h = tt
All-update x p f (y ∷ ys) same h = elim (Bool-cases (p y)) [
  | inl hit ↦ rw hit ((λ e. h.0 (e ∙ same y)), h.1)
  | inr miss ↦ rw miss (h.0, All-update x p f ys same h.1)
]

apart_update :
    (p : Endpoint × PendingTrust → Bool) (f : Endpoint × PendingTrust → Endpoint × PendingTrust)
    (xs : List (Endpoint × PendingTrust))
    → ((y : Endpoint × PendingTrust) → prompt_of (f y) ≡ prompt_of y)
    → PromptsApart xs
    → PromptsApart (update_first p f xs)
apart_update p f [] same h = tt
apart_update p f (y ∷ ys) same h = elim (Bool-cases (p y)) [
  | inl hit ↦ rw hit (All-map _ _ ys (λ z k e. k (sym (same y) ∙ e)) h.0, h.1)
  | inr miss ↦ rw miss (All-update y p f ys same h.0, apart_update p f ys same h.1)
]

apart_others :
    (e : Endpoint) (xs : List (Endpoint × PendingTrust))
    → PromptsApart xs
    → PromptsApart (others e xs)
apart_others e xs h = Apart-retain Clash _ xs h

fresh_prompt :
    (prompt : Uuid) (xs : List (Endpoint × PendingTrust))
    → find (has_prompt_id prompt) xs ≡ none
    → All (λ y. ¬ (prompt ≡ y.1.prompt_id)) xs
fresh_prompt prompt [] h = tt
fresh_prompt prompt ((e, s) ∷ xs) h = elim (Bool-cases (s.prompt_id == prompt)) [
  | inl hit ↦ ground arith
  | inr miss ↦ ((λ k. ground arith), fresh_prompt prompt xs (rw miss at h))
]

entered-Apart :
    (c : HostTrustCoordinator) (e : Endpoint) (presented : PresentedHostKey) (session : ℕ)
    (prompt token : Uuid) (o : Option (Endpoint × PendingTrust))
    → find (has_prompt_id prompt) c.pending ≡ none
    → PromptsApart c.pending
    → PromptsApart (enter_found c e presented session prompt token o).0.pending
unfolding enter_found join clash insert_pending set_awaiting settle
entered-Apart c e presented session prompt token none fresh h =
    (fresh_prompt prompt c.pending fresh, h)
entered-Apart c e presented session prompt token (some (d, existing)) fresh h =
    elim (Bool-cases (same_presented_key existing.presented presented)) [
      | inl same ↦
          rw same (apart_update (is_for e) (add_sender token session) c.pending (λ y. refl) h)
      | inr other ↦ rw other (apart_others e c.pending h)
    ]

dropped-Apart :
    (c : HostTrustCoordinator) (g : PendingTrustGuard) (o : Option (Endpoint × PendingTrust))
    → PromptsApart c.pending
    → PromptsApart (drop_found c g o).pending
unfolding drop_found settle set_awaiting
dropped-Apart c g none h = h
dropped-Apart c g (some (e, state)) h = elim (Bool-cases (state.prompt_id == g.prompt_id)) [
  | inr other ↦ rw other h
  | inl same ↦ elim (Bool-cases g.owner) [
    | inl owns ↦ rw (same, owns) (apart_others g.endpoint c.pending h)
    | inr waits ↦
        rw (same, waits)
          (apart_update (is_for g.endpoint) (drop_sender g.waiter_token) c.pending (λ y. refl) h)
  ]
]

module _ ⦃texts : Texts⦄ ⦃hosts : Codec KnownHosts⦄ where
  -- A prompt that a session draws is new.
  pub data Step (c d : HostTrustCoordinator) : Type 0 where
    looked :
        (sys : Io) (e : Endpoint) (presented : PresentedHostKey) (session : ℕ)
        → (verify_known sys c e presented session).0 ≡ d
        → Step c d
    entered :
        (e : Endpoint) (presented : PresentedHostKey) (session : ℕ) (prompt token : Uuid)
        → find (has_prompt_id prompt) c.pending ≡ none
        → (enter c e presented session prompt token).0 ≡ d
        → Step c d
    decided :
        (sys : Io) (now : ℕ) (prompt : Uuid) (decision : HostKeyDecision)
        → (decide sys now c prompt decision).0 ≡ d
        → Step c d
    dropped : (g : PendingTrustGuard) → drop_guard c g ≡ d → Step c d
    subscribed : (e : Endpoint) → (subscribe_awaiting c e).0 ≡ d → Step c d
    stored : (s : AppStore) → record c { store = s } ≡ d → Step c d

  looked-pending :
      (c : HostTrustCoordinator) (e : Endpoint) (presented : PresentedHostKey) (session : ℕ)
      (r : Result StorageError (Option KnownHostEntry))
      → (check_known c e presented session r).0.pending ≡ c.pending
  unfolding check_known
  looked-pending c e presented session (err x) = refl
  looked-pending c e presented session (ok none) = refl
  looked-pending c e presented session (ok (some k)) =
      elim (Bool-cases (same_presented_key (key_of k) presented)) [
        | inl same ↦ rw same refl
        | inr other ↦ rw other refl
      ]

  verified-pending :
      (sys : Io) (c : HostTrustCoordinator) (presented : PresentedHostKey) (session : ℕ)
      (r : Result StorageError Endpoint)
      → (verify_at sys c presented session r).0.pending ≡ c.pending
  unfolding verify_at
  verified-pending sys c presented session (err x) = refl
  verified-pending sys c presented session (ok e) =
      looked-pending c e presented session (known_host sys c.store e)

  subscribed-pending :
      (c : HostTrustCoordinator) (e : Endpoint) (o : Option (Endpoint × Bool))
      → (subscribe_found c e o).0.pending ≡ c.pending
  subscribed-pending c e (some x) = refl
  subscribed-pending c e none = refl

  Step-Apart :
      {c d : HostTrustCoordinator} → Step c d → PromptsApart c.pending → PromptsApart d.pending
  unfolding verify_known enter drop_guard subscribe_awaiting
  Step-Apart {c} (looked sys e p session q) h =
      subst (λ x. PromptsApart x.pending) q
        (subst PromptsApart (sym (verified-pending sys c p session (canonicalize_endpoint e))) h)
  Step-Apart {c} (entered e p session prompt token fresh q) h =
      subst (λ x. PromptsApart x.pending) q
        (entered-Apart c e p session prompt token (find (is_for e) c.pending) fresh h)
  Step-Apart {c} (decided sys now prompt decision q) h =
      subst (λ x. PromptsApart x.pending) q
        (decided_pending PromptsApart sys now c prompt decision h (λ e.
          apart_others e _ (apart_update (has_prompt_id prompt) mark c.pending (λ y. refl) h)))
  Step-Apart {c} (dropped g q) h =
      subst (λ x. PromptsApart x.pending) q
        (dropped-Apart c g (find (is_for g.endpoint) c.pending) h)
  Step-Apart {c} (subscribed e q) h =
      subst (λ x. PromptsApart x.pending) q
        (subst PromptsApart (sym (subscribed-pending c e (find (is_for e) c.awaiting))) h)
  Step-Apart (stored s q) h = subst (λ x. PromptsApart x.pending) q h

  pub data Reach (c : HostTrustCoordinator) : HostTrustCoordinator → Type 0 where
    here : Reach c c
    next : {d e : HostTrustCoordinator} → Reach c d → Step d e → Reach c e

  pub Reach-Apart :
      {c d : HostTrustCoordinator} → PromptsApart c.pending → Reach c d → PromptsApart d.pending
  Reach-Apart h here = h
  Reach-Apart h (next r s) = Step-Apart s (Reach-Apart h r)

  -- In every state that sessions and dialogs reach from a coordinator with nothing pending, whatever
  -- they do in whatever order, each new prompt being drawn fresh, a prompt is decided once: a second
  -- `decide` for it is refused and changes nothing.
  pub decide_once :
      {c d : HostTrustCoordinator} (sys sys' : Io) (now now' : ℕ) (prompt : Uuid)
      (first second : HostKeyDecision)
      → c.pending ≡ []
      → Reach c d
      → let after = (decide sys now d prompt first).0 in
        decide sys' now' after prompt second ≡ (after, err host_key_rejected)
  decide_once {c} {d} sys sys' now now' prompt first second idle r =
      decide_again sys sys' now now' d prompt first second
        (Reach-Apart (subst PromptsApart (sym idle) tt) r)
