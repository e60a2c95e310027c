-- ===== src/Trust/PromptLaws.antt =====
-- A prompt is decided once: after `decide` its entry is gone, and a second decision is refused.
use oxide_ssh.Prelude.{
  ℕ, true, false, not, List, [], ◌∷◌, Option, none, some, Result, ok, err, ◌==◌, if◌then◌else◌,
  find, retain, update_first, All, All-map, All-retain, Apart, Bool-cases, Option-cases, ◌≡◌, refl,
  sym, ap, subst, ◌∙◌, inl, inr, arith,
}
use oxide_ssh.Model.Types.{Uuid, Endpoint}
use oxide_ssh.Model.Text.{text_eq_refl}
use oxide_ssh.Model.Validate.{Texts}
use oxide_ssh.Session.Events.{HostKeyDecision, accept_and_store, reject, host_key_rejected}
use oxide_ssh.Storage.Types.{KnownHosts, StorageError, host_key_conflict}
use oxide_ssh.Storage.Files.{Codec, Io}
use oxide_ssh.Storage.Store.{accept_host_key}
use oxide_ssh.Trust.Coordinator.{
  PendingTrust, HostTrustCoordinator, has_prompt_id, is_for, mark, endpoint_eq, settle,
  set_awaiting, mark_deciding,
}
use oxide_ssh.Trust.Decide.{entry_of, decide_stored, decide_on, decide_found, decide, with_store}

-- No two entries have one prompt.
abbrev pub PromptsApart : List (Endpoint × PendingTrust) → Type 0
PromptsApart xs = Apart (λ a b. a.1.prompt_id ≡ b.1.prompt_id) xs

endpoint_eq_refl : (e : Endpoint) → endpoint_eq e e ≡ true
endpoint_eq_refl e = ground (arith, text_eq_refl e.host)

-- What is left of the entries when one is settled.
abbrev pub others : Endpoint → List (Endpoint × PendingTrust) → List (Endpoint × PendingTrust)
others e xs = retain (λ x. not (is_for e x)) xs

find-none :
    (p : Uuid) (xs : List (Endpoint × PendingTrust))
    → All (λ x. has_prompt_id p x ≡ false) xs
    → find (has_prompt_id p) xs ≡ none
find-none p [] h = refl
find-none p (x ∷ xs) h = rw h.0 (find-none p xs h.1)

abbrev key_or : Endpoint → Option (Endpoint × PendingTrust) → Endpoint
key_or e none = e
key_or e (some x) = x.0

prompt_gone :
    (p : Uuid) (xs : List (Endpoint × PendingTrust)) {e : Endpoint} {state : PendingTrust}
    → PromptsApart xs
    → find (has_prompt_id p) xs ≡ some (e, state)
    → find (has_prompt_id p) (others e (update_first (has_prompt_id p) mark xs)) ≡ none
prompt_gone p [] a h = cc
prompt_gone p ((d, s) ∷ xs) {e} a h = elim (Bool-cases (s.prompt_id == p)) [
  | inl hit ↦
      let same : d ≡ e = ap (key_or e) (rw hit at h) in
      rw (hit, same, endpoint_eq_refl e)
        (find-none p (others e xs) (All-retain _ _ xs (All-map _ _ xs (λ y k. ground arith) a.0)))
  | inr miss ↦ elim (Bool-cases (endpoint_eq d e)) [
    | inl own ↦ rw (miss, own) (prompt_gone p xs a.1 (rw miss at h))
    | inr other ↦ rw (miss, other, miss) (prompt_gone p xs a.1 (rw miss at h))
  ]
]

stored-pending :
    (c : HostTrustCoordinator) (e : Endpoint) (prompt : Uuid)
    (answer : Result StorageError (Unit {0}))
    → (decide_stored c e prompt answer).0.pending ≡ others e c.pending
unfolding decide_stored settle set_awaiting
stored-pending c e prompt (ok u) = refl
stored-pending c e prompt (err host_key_conflict) = refl
stored-pending c e prompt (err _) = refl

module _ ⦃texts : Texts⦄ ⦃hosts : Codec KnownHosts⦄ where
  on-pending :
      (sys : Io) (now : ℕ) (c : HostTrustCoordinator) (e : Endpoint) (state : PendingTrust)
      (d : HostKeyDecision)
      → (decide_on sys now c e state d).0.pending ≡ others e c.pending
  unfolding decide_on settle set_awaiting
  on-pending sys now c e state reject = refl
  on-pending sys now c e state accept_and_store =
      let (s, answer) = accept_host_key sys c.store (entry_of e state.presented now) in
      stored-pending (with_store c s) e state.prompt_id answer

  refused :
      (sys : Io) (now : ℕ) (c : HostTrustCoordinator) (prompt : Uuid) (d : HostKeyDecision)
      → find (has_prompt_id prompt) c.pending ≡ none
      → decide sys now c prompt d ≡ (c, err host_key_rejected)
  unfolding decide decide_found
  refused sys now c prompt d gone = ap (decide_found sys now c prompt d) gone

  busy_refused :
      (sys : Io) (now : ℕ) (c : HostTrustCoordinator) (prompt : Uuid) (d : HostKeyDecision)
      {e : Endpoint} {state : PendingTrust}
      → find (has_prompt_id prompt) c.pending ≡ some (e, state)
      → state.deciding ≡ true
      → decide sys now c prompt d ≡ (c, err host_key_rejected)
  unfolding decide decide_found
  busy_refused sys now c prompt d {e} {state} found busy =
      ap (decide_found sys now c prompt d) found
      ∙ ap
          (λ b.
            if b
            then (c, err host_key_rejected)
            else decide_on sys now (mark_deciding c prompt) e state d)
          busy

  free_pending :
      (sys : Io) (now : ℕ) (c : HostTrustCoordinator) (prompt : Uuid) (d : HostKeyDecision)
      {e : Endpoint} {state : PendingTrust}
      → find (has_prompt_id prompt) c.pending ≡ some (e, state)
      → state.deciding ≡ false
      → (decide sys now c prompt d).0.pending
        ≡ others e (update_first (has_prompt_id prompt) mark c.pending)
  unfolding decide decide_found mark_deciding
  free_pending sys now c prompt d {e} {state} found free =
      ap (λ o. (decide_found sys now c prompt d o).0.pending) found
      ∙ ap
          (λ b.
            (if b
              then (c, err host_key_rejected)
              else decide_on sys now (mark_deciding c prompt) e state d).0.pending)
          free
      ∙ on-pending sys now (mark_deciding c prompt) e state d

  -- Where no two pending entries have one prompt, a prompt is decided once: whatever the first call
  -- of `decide` answers, a second one for the same prompt is refused and changes nothing.
  pub decide_again :
      (sys sys' : Io) (now now' : ℕ) (c : HostTrustCoordinator) (prompt : Uuid)
      (d d' : HostKeyDecision)
      → PromptsApart c.pending
      → let after = (decide sys now c prompt d).0 in
        decide sys' now' after prompt d' ≡ (after, err host_key_rejected)
  decide_again sys sys' now now' c prompt d d' a =
      elim (Option-cases (find (has_prompt_id prompt) c.pending)) [
        | inl gone ↦ unmoved (refused sys now c prompt d gone) (refused sys' now' c prompt d' gone)
        | inr ((e, state), found) ↦ elim (Bool-cases state.deciding) [
          | inl busy ↦
              unmoved (busy_refused sys now c prompt d found busy)
                (busy_refused sys' now' c prompt d' found busy)
          | inr free ↦ refused sys' now' _ prompt d' (
              ap (find (has_prompt_id prompt)) (free_pending sys now c prompt d found free)
              ∙ prompt_gone prompt c.pending a found)
        ]
      ]
    where
      unmoved :
          decide sys now c prompt d ≡ (c, err host_key_rejected)
          → decide sys' now' c prompt d' ≡ (c, err host_key_rejected)
          → decide sys' now' (decide sys now c prompt d).0 prompt d'
            ≡ ((decide sys now c prompt d).0, err host_key_rejected)
      unmoved first second =
          subst (λ x. decide sys' now' x prompt d' ≡ (x, err host_key_rejected))
            (ap (λ r. r.0) (sym first)) second

  -- What `decide` does to the pending entries.
  pub decided_pending :
      (P : List (Endpoint × PendingTrust) → Type 0) (sys : Io) (now : ℕ) (c : HostTrustCoordinator)
      (prompt : Uuid) (d : HostKeyDecision)
      → P c.pending
      → ((e : Endpoint) → P (others e (update_first (has_prompt_id prompt) mark c.pending)))
      → P (decide sys now c prompt d).0.pending
  decided_pending P sys now c prompt d same left =
      elim (Option-cases (find (has_prompt_id prompt) c.pending)) [
        | inl gone ↦ subst (λ r. P r.0.pending) (sym (refused sys now c prompt d gone)) same
        | inr ((e, state), found) ↦ elim (Bool-cases state.deciding) [
          | inl busy ↦
              subst (λ r. P r.0.pending) (sym (busy_refused sys now c prompt d found busy)) same
          | inr free ↦ subst P (sym (free_pending sys now c prompt d found free)) (left e)
        ]
      ]
