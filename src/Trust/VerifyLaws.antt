-- ===== src/Trust/VerifyLaws.antt =====
-- crates/oxide-ssh-core/src/session.rs: when `verify` lets a connection go on, and what a cancelled
-- session does to the others.
use oxide_ssh.Prelude.{
  ℕ, ◌≡◌, refl, sym, ◌∙◌, ◌⊎◌, inl, inr, true, false, List, [], ◌∷◌, Option, none, some, Result, ok,
  err, find, Bool-cases, if◌then◌else◌,
}
use oxide_ssh.Model.Types.{Uuid, Endpoint}
use oxide_ssh.Model.Validate.{Texts}
use oxide_ssh.Session.Events.{SessionError, reject, host_key_rejected}
use oxide_ssh.Storage.Types.{KnownHosts, KnownHostEntry, StorageError}
use oxide_ssh.Storage.Config.{canonicalize_endpoint}
use oxide_ssh.Storage.Files.{Codec, Io}
use oxide_ssh.Storage.Store.{known_host}
use oxide_ssh.Trust.Coordinator.{
  PresentedHostKey, TrustOutcome, PendingTrust, HostTrustCoordinator, PendingTrustGuard, Progress,
  returned, continued, first_outcome, read_outcome, is_for, enter, has_prompt_id,
  same_presented_key, key_of, settle, set_awaiting, mark_deciding, enter_found, join, clash,
  insert_pending,
}
use oxide_ssh.Trust.Decide.{decide, decide_found, decide_on, verify_known, verify_at, check_known}
use oxide_ssh.Trust.DecideLaws.{find_test}
use oxide_ssh.Trust.Verify.{
  Wake, changed, sender_gone, cancelled, Answer, Standing, or_waiting, Turns, wait, dropping, ask,
  entered, looked, verify,
}

-- The outcome is read at the start, or where a change wakes the loop.
abbrev pub Sees : TrustOutcome → Uuid → HostTrustCoordinator → List Wake → Type 0
Sees o prompt c (changed d ∷ ws) = (first_outcome prompt c.outcomes ≡ o) ⊎ Sees o prompt d ws
Sees o prompt c _ = first_outcome prompt c.outcomes ≡ o

refused_is_no_ok : {e : SessionError} → ◌≡◌ {A = Option Answer} (some (err e)) (some (ok tt)) → ⊥
refused_is_no_ok h = cc

or_waiting-ok :
    (o : TrustOutcome) (c : HostTrustCoordinator) (rest : Standing)
    → (or_waiting (read_outcome o) c rest).1 ≡ some (ok tt)
    → (o ≡ TrustOutcome.accepted) ⊎ (rest.1 ≡ some (ok tt))
unfolding read_outcome
or_waiting-ok TrustOutcome.accepted c rest h = inl refl
or_waiting-ok TrustOutcome.rejected c rest h = cc
or_waiting-ok TrustOutcome.conflict c rest h = cc
or_waiting-ok TrustOutcome.waiting c rest h = inr h

module _ ⦃texts : Texts⦄ ⦃hosts : Codec KnownHosts⦄ (sys : Io) (now : ℕ) where
  wait-Sees :
      (prompt : Uuid) (c : HostTrustCoordinator) (ws : List Wake)
      → (wait sys now prompt c ws).1 ≡ some (ok tt)
      → Sees TrustOutcome.accepted prompt c ws
  unfolding wait
  wait-Sees prompt c [] h = elim (or_waiting-ok (first_outcome prompt c.outcomes) c _ h) [
    | inl seen ↦ seen
    | inr rest ↦ cc
  ]
  wait-Sees prompt c (changed d ∷ ws) h =
      elim (or_waiting-ok (first_outcome prompt c.outcomes) c _ h) [
        | inl seen ↦ inl seen
        | inr rest ↦ inr (wait-Sees prompt d ws rest)
      ]
  wait-Sees prompt c (sender_gone d ∷ ws) h =
      elim (or_waiting-ok (first_outcome prompt c.outcomes) c _ h) [
        | inl seen ↦ seen
        | inr rest ↦ cc
      ]
  wait-Sees prompt c (cancelled d ∷ ws) h =
      elim (or_waiting-ok (first_outcome prompt c.outcomes) c _ h) [
        | inl seen ↦ seen
        | inr rest ↦ cc
      ]

  -- What a session waits on: the owner from the state after its event was sent.
  abbrev pub start_of : HostTrustCoordinator → Turns → PendingTrustGuard → HostTrustCoordinator
  start_of d turns g = if g.owner then turns.after_send else d

  ask-Sees :
      (d : HostTrustCoordinator) (turns : Turns) (g : PendingTrustGuard)
      → (ask sys now d turns g).1 ≡ some (ok tt)
      → Sees TrustOutcome.accepted g.prompt_id (start_of d turns g) turns.wakes
  unfolding ask
  ask-Sees d turns g h = elim (Bool-cases g.owner) [
    | inr waits ↦ rw waits (wait-Sees g.prompt_id d turns.wakes (rw waits at h))
    | inl owns ↦ elim (Bool-cases turns.sent) [
      | inl went ↦
          rw owns (wait-Sees g.prompt_id turns.after_send turns.wakes (rw (owns, went) at h))
      | inr lost ↦ absurd (refused_is_no_ok (rw (owns, lost) at h))
    ]
  ]

  dropping-answer : (g : PendingTrustGuard) (s : Standing) → (dropping sys now g s).1 ≡ s.1
  dropping-answer g (c, none) = refl
  dropping-answer g (c, some answer) = refl

  -- A key that the store has for the endpoint, as it stands in `c`.
  abbrev pub IsKnown : HostTrustCoordinator → Endpoint → PresentedHostKey → Type 0
  IsKnown c endpoint presented =
      (e : Endpoint) × (k : KnownHostEntry) × (canonicalize_endpoint endpoint ≡ ok e)
      × (known_host sys c.store e ≡ ok (some k))
      × (same_presented_key (key_of k) presented ≡ true)

  -- A session that went on to a prompt, and read that it was accepted.
  abbrev pub IsAccepted :
      HostTrustCoordinator → Endpoint → PresentedHostKey → ℕ → Uuid → Uuid → Turns → Type 0
  IsAccepted c endpoint presented session prompt token turns =
      (e : Endpoint) × (d : HostTrustCoordinator) × (g : PendingTrustGuard) × (canonicalize_endpoint
          endpoint
        ≡ ok e)
      × (known_host sys c.store e ≡ ok none)
      × (enter turns.before_entry e presented session prompt token ≡ (d, continued g))
      × Sees TrustOutcome.accepted g.prompt_id (start_of d turns g) turns.wakes

  entered-Sees :
      (turns : Turns) (r : HostTrustCoordinator × Progress PendingTrustGuard)
      → (entered sys now turns r).1 ≡ some (ok tt)
      → ((d : HostTrustCoordinator) × (r ≡ (d, returned (ok tt))))
        ⊎ ((d : HostTrustCoordinator) × (g : PendingTrustGuard) × (r ≡ (d, continued g))
            × Sees TrustOutcome.accepted g.prompt_id (start_of d turns g) turns.wakes)
  unfolding entered ask
  entered-Sees turns (d, returned (ok u)) h = inl (d, refl)
  entered-Sees turns (d, returned (err e)) h = absurd (refused_is_no_ok h)
  entered-Sees turns (d, continued g) h =
      inr (d, g, refl, ask-Sees d turns g (sym (dropping-answer g (ask sys now d turns g)) ∙ h))

  enter-refuses :
      (c d : HostTrustCoordinator) (e : Endpoint) (presented : PresentedHostKey) (session : ℕ)
      (prompt token : Uuid) (o : Option (Endpoint × PendingTrust))
      → ¬ (enter_found c e presented session prompt token o ≡ (d, returned (ok tt)))
  unfolding enter_found join clash insert_pending
  enter-refuses c d e presented session prompt token none h = cc h
  enter-refuses c d e presented session prompt token (some (x, existing)) h =
      elim (Bool-cases (same_presented_key existing.presented presented)) [
        | inl same ↦ cc (rw same at h)
        | inr other ↦ cc (rw other at h)
      ]

  looked-Sees :
      (c : HostTrustCoordinator) (e : Endpoint) (presented : PresentedHostKey) (session : ℕ)
      (prompt token : Uuid) (turns : Turns)
      → (looked sys now turns presented session prompt token (c, continued e)).1 ≡ some (ok tt)
      → (d : HostTrustCoordinator) × (g : PendingTrustGuard) × (enter turns.before_entry e presented
            session prompt token
          ≡ (d, continued g))
        × Sees TrustOutcome.accepted g.prompt_id (start_of d turns g) turns.wakes
  unfolding looked enter
  looked-Sees c e presented session prompt token turns h =
      elim (entered-Sees turns (enter turns.before_entry e presented session prompt token) h) [
        | inl (d, k) ↦ absurd (
            enter-refuses turns.before_entry d e presented session prompt token
              (find (is_for e) turns.before_entry.pending) k)
        | inr found ↦ found
      ]

  checked-cases :
      (c : HostTrustCoordinator) (endpoint e : Endpoint) (presented : PresentedHostKey)
      (session : ℕ) (prompt token : Uuid) (turns : Turns)
      (r : Result StorageError (Option KnownHostEntry))
      → canonicalize_endpoint endpoint ≡ ok e
      → known_host sys c.store e ≡ r
      → (looked sys now turns presented session prompt token
          (check_known c e presented session r)).1
        ≡ some (ok tt)
      → IsKnown c endpoint presented ⊎ IsAccepted c endpoint presented session prompt token turns
  unfolding check_known looked
  checked-cases c endpoint e presented session prompt token turns (err x) canon there h =
      absurd (refused_is_no_ok h)
  checked-cases c endpoint e presented session prompt token turns (ok none) canon there h =
      let (d, g, entry, seen) = looked-Sees c e presented session prompt token turns h in
      inr (e, d, g, canon, there, entry, seen)
  checked-cases c endpoint e presented session prompt token turns (ok (some k)) canon there h =
      elim (Bool-cases (same_presented_key (key_of k) presented)) [
        | inl same ↦ inl (e, k, canon, there, same)
        | inr other ↦ absurd (refused_is_no_ok (rw other at h))
      ]

  verified-cases :
      (c : HostTrustCoordinator) (endpoint : Endpoint) (presented : PresentedHostKey) (session : ℕ)
      (prompt token : Uuid) (turns : Turns) (r : Result StorageError Endpoint)
      → canonicalize_endpoint endpoint ≡ r
      → (looked sys now turns presented session prompt token
          (verify_at sys c presented session r)).1
        ≡ some (ok tt)
      → IsKnown c endpoint presented ⊎ IsAccepted c endpoint presented session prompt token turns
  unfolding verify_at looked
  verified-cases c endpoint presented session prompt token turns (err x) canon h =
      absurd (refused_is_no_ok h)
  verified-cases c endpoint presented session prompt token turns (ok e) canon h =
      checked-cases c endpoint e presented session prompt token turns (known_host sys c.store e)
        canon refl h

  -- Whatever other tasks do meanwhile, `verify` answers a success only where the store has the very key
  -- that was presented, or where the store has no key and the session read that the prompt it waits
  -- on, its own or one for the same endpoint, was accepted.
  pub verify-cases :
      (c : HostTrustCoordinator) (endpoint : Endpoint) (presented : PresentedHostKey) (session : ℕ)
      (prompt token : Uuid) (turns : Turns)
      → (verify sys now c endpoint presented session prompt token turns).1 ≡ some (ok tt)
      → IsKnown c endpoint presented ⊎ IsAccepted c endpoint presented session prompt token turns
  unfolding verify verify_known
  verify-cases c endpoint presented session prompt token turns h =
      verified-cases c endpoint presented session prompt token turns
        (canonicalize_endpoint endpoint) refl h

  reject-outcome :
      (d : HostTrustCoordinator) (prompt : Uuid) {e : Endpoint} {state : PendingTrust}
      → find (has_prompt_id prompt) d.pending ≡ some (e, state)
      → state.deciding ≡ false
      → first_outcome prompt (decide sys now d prompt reject).0.outcomes ≡ TrustOutcome.rejected
  unfolding decide decide_found decide_on settle set_awaiting mark_deciding
  reject-outcome d prompt {e} {state} found free =
      let own = find_test (has_prompt_id prompt) d.pending found in rw (found, free, own) refl

  -- A session that reads a rejection answers it, whatever it would be woken by.
  rejected-wait :
      (prompt : Uuid) (c : HostTrustCoordinator) (ws : List Wake)
      → first_outcome prompt c.outcomes ≡ TrustOutcome.rejected
      → wait sys now prompt c ws ≡ (c, some (err host_key_rejected))
  unfolding wait read_outcome
  rejected-wait prompt c [] h = rw h refl
  rejected-wait prompt c (changed d ∷ ws) h = rw h refl
  rejected-wait prompt c (sender_gone d ∷ ws) h = rw h refl
  rejected-wait prompt c (cancelled d ∷ ws) h = rw h refl

  -- Where a session that only waits on another's prompt is cancelled before it is decided, its own
  -- answer is that it was disconnected, and the prompt is rejected for every session: each that waits
  -- on it and reads its outcome then answers that the host key was rejected.
  pub cancelled_waiter :
      (c d : HostTrustCoordinator) (turns : Turns) (g : PendingTrustGuard) (ws others : List Wake)
      {e : Endpoint} {state : PendingTrust}
      → g.owner ≡ false
      → first_outcome g.prompt_id c.outcomes ≡ TrustOutcome.waiting
      → turns.wakes ≡ cancelled d ∷ ws
      → find (has_prompt_id g.prompt_id) d.pending ≡ some (e, state)
      → state.deciding ≡ false
      → let (after, answer) = ask sys now c turns g in
        (answer ≡ some (err SessionError.disconnected))
        × (wait sys now g.prompt_id after others ≡ (after, some (err host_key_rejected)))
  unfolding ask wait read_outcome
  cancelled_waiter c d turns g ws others waits waiting wakes found free =
      let rejected = reject-outcome d g.prompt_id found free in
      rw (waits, wakes, waiting)
        (refl, rejected-wait g.prompt_id (decide sys now d g.prompt_id reject).0 others rejected)
