-- ===== src/Trust/DecideLaws.antt =====
-- What `decide` leaves behind: the store, the outcome that the waiting sessions see, and the prompts.
use oxide_ssh.Prelude.{
  ℕ, Bool, true, false, List, [], ◌∷◌, Option, none, some, Result, ok, err, ==_refl, find,
  Bool-cases, ◌≡◌, refl, sym, ap, ◌∙◌, inl, inr, arith,
}
use oxide_ssh.Model.Types.{Uuid, Endpoint}
use oxide_ssh.Model.Validate.{Texts}
use oxide_ssh.Session.Events.{accept_and_store, SessionError}
use oxide_ssh.Storage.Types.{KnownHosts, KnownHostEntry, StorageError, host_key_conflict}
use oxide_ssh.Storage.Files.{Codec, Io}
use oxide_ssh.Storage.Store.{known_host, accept_host_key}
use oxide_ssh.Storage.FileLaws.{IsFaithful}
use oxide_ssh.Storage.TrustLaws.{accept_host_key_lem}
use oxide_ssh.Trust.Coordinator.{
  TrustOutcome, PendingTrust, HostTrustCoordinator, has_prompt_id, same_presented_key, key_of,
  first_outcome, settle, set_awaiting, mark_deciding,
}
use oxide_ssh.Trust.Decide.{entry_of, decide_stored, decide_on, decide_found, decide, with_store}

err_is_no_ok : {x : SessionError} → ¬ (◌≡◌ {A = Result SessionError (Unit {0})} (err x) (ok tt))
err_is_no_ok h = cc

pub find_test : {A : Type 0} (p : A → Bool) (xs : List A) {x : A} → find p xs ≡ some x → p x ≡ true
find_test p [] h = cc
find_test p (x ∷ xs) h = elim (Bool-cases (p x)) [
  | inl hit ↦ ap p (sym (some_inj (rw hit at h))) ∙ hit
  | inr miss ↦ find_test p xs (rw miss at h)
]
  where
    some_inj : {A : Type 0} {a b : A} → ◌≡◌ {A = Option A} (some a) (some b) → a ≡ b
    some_inj h = cc

module _ ⦃texts : Texts⦄ ⦃hosts : Codec KnownHosts⦄ where
  stored-accepted :
      (c : HostTrustCoordinator) (e : Endpoint) (prompt : Uuid)
      (answer : Result StorageError (Unit {0}))
      → (decide_stored c e prompt answer).1 ≡ ok tt
      → (answer ≡ ok tt)
        × (first_outcome prompt (decide_stored c e prompt answer).0.outcomes
            ≡ TrustOutcome.accepted)
        × ((decide_stored c e prompt answer).0.store ≡ c.store)
  unfolding decide_stored settle set_awaiting
  stored-accepted c e prompt (ok u) h = (refl, rw (==_refl prompt) refl, refl)
  stored-accepted c e prompt (err host_key_conflict) h = cc
  stored-accepted c e prompt (err _) h = cc

  module _ (faithful : IsFaithful hosts (λ k. k.schema_version)) where
    on_accept :
        (sys next : Io) (now : ℕ) (c : HostTrustCoordinator) (e : Endpoint) (state : PendingTrust)
        → (decide_on sys now c e state accept_and_store).1 ≡ ok tt
        → next.read_ok ≡ true
        → let d = (decide_on sys now c e state accept_and_store).0 in
          (k : KnownHostEntry) × (known_host next d.store e ≡ ok (some k))
          × (same_presented_key (key_of k) state.presented ≡ true)
          × (first_outcome state.prompt_id d.outcomes ≡ TrustOutcome.accepted)
    unfolding decide_on
    on_accept sys next now c e state h r =
        let x = entry_of e state.presented now in
        let (s, answer) = accept_host_key sys c.store x in
        let (won, seen, same_store) = stored-accepted (with_store c s) e state.prompt_id answer h in
        let (k, there, same) = accept_host_key_lem faithful sys next c.store x won r in
        (k, ap (λ t. known_host next t e) same_store ∙ there, same, seen)

    free_run :
        (sys : Io) (now : ℕ) (c : HostTrustCoordinator) (prompt : Uuid) (e : Endpoint)
        (state : PendingTrust)
        → state.deciding ≡ false
        → decide_found sys now c prompt accept_and_store (some (e, state))
          ≡ decide_on sys now (mark_deciding c prompt) e state accept_and_store
    unfolding decide_found
    free_run sys now c prompt e state free = rw free refl

    found_accept :
        (sys next : Io) (now : ℕ) (c : HostTrustCoordinator) (prompt : Uuid)
        (o : Option (Endpoint × PendingTrust))
        → (decide_found sys now c prompt accept_and_store o).1 ≡ ok tt
        → next.read_ok ≡ true
        → let d = (decide_found sys now c prompt accept_and_store o).0 in
          (e : Endpoint) × (state : PendingTrust) × (k : KnownHostEntry) × (o ≡ some (e, state))
          × (known_host next d.store e ≡ ok (some k))
          × (same_presented_key (key_of k) state.presented ≡ true)
          × (first_outcome state.prompt_id d.outcomes ≡ TrustOutcome.accepted)
    unfolding decide_found mark_deciding
    found_accept sys next now c prompt none h r = cc
    found_accept sys next now c prompt (some (e, state)) h r = elim (Bool-cases state.deciding) [
      | inl busy ↦ absurd (err_is_no_ok (rw busy at h))
      | inr free ↦
          let run = free_run sys now c prompt e state free in
          let (k, there, same, seen) =
            on_accept sys next now (mark_deciding c prompt) e state (ap (λ d. d.1) (sym run) ∙ h)
              r in
          (
            e,
            state,
            k,
            refl,
            ap (λ d. known_host next d.0.store e) run ∙ there,
            same,
            ap (λ d. first_outcome state.prompt_id d.0.outcomes) run ∙ seen,
          )
    ]

    -- Where `decide` answers an acceptance with a success, the prompt's entry was pending, a later
    -- look into the store that can be read finds for its endpoint an entry with the very key that
    -- was presented, and the sessions that wait on the prompt read that it was accepted. The format
    -- of the file reads back what it writes.
    pub decide_accept_lem :
        (sys next : Io) (now : ℕ) (c : HostTrustCoordinator) (prompt : Uuid)
        → (decide sys now c prompt accept_and_store).1 ≡ ok tt
        → next.read_ok ≡ true
        → let d = (decide sys now c prompt accept_and_store).0 in
          (e : Endpoint) × (state : PendingTrust) × (k : KnownHostEntry) × (find
              (has_prompt_id prompt)
              c.pending
            ≡ some (e, state))
          × (known_host next d.store e ≡ ok (some k))
          × (same_presented_key (key_of k) state.presented ≡ true)
          × (first_outcome prompt d.outcomes ≡ TrustOutcome.accepted)
    unfolding decide
    decide_accept_lem sys next now c prompt h r =
        let (e, state, k, found, there, same, seen) =
          found_accept sys next now c prompt (find (has_prompt_id prompt) c.pending) h r in
        let own = find_test (has_prompt_id prompt) c.pending found in
        let named : state.prompt_id ≡ prompt = ground arith in
        (e, state, k, found, there, same, (rw named at seen))
