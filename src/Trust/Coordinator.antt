-- ===== src/Trust/Coordinator.antt =====
-- crates/oxide-ssh-core/src/session.rs: `HostTrustCoordinator` and `PendingTrustGuard`.
-- Each part of `verify` between two points where another task can run is one function: the look into
-- the store, the entry under the lock of `pending`, and the look at the outcome. A hash map is an
-- association list. The watch channel of a prompt is its entry in `outcomes`, the last one first; an
-- event sender is the number of its session, and `events` is what is sent, in order.
use oxide_ssh.Prelude.{
  Option, ℕ, Bool, true, false, not, ◌&&◌, List, [], ◌∷◌, ◌++◌, none, some, Result, ok, err, ◌==◌,
  if◌then◌else◌, map, find, update_first, retain,
}
use oxide_ssh.Model.Types.{Uuid, Text, Endpoint}
use oxide_ssh.Model.Text.{text_eq}
use oxide_ssh.Session.Events.{
  SessionError, SessionEvent, changed_host_key, host_key_changed, host_key_rejected,
}
use oxide_ssh.Storage.Types.{KnownHostEntry}
use oxide_ssh.Storage.Store.{AppStore}

pub record PresentedHostKey : Type 0 where
  pub algorithm : Text
  pub public_key : Text
  pub fingerprint_sha256 : Text

pub data TrustOutcome : Type 0 where
  waiting accepted rejected conflict : TrustOutcome

pub record PendingTrust : Type 0 where
  pub prompt_id : Uuid
  pub presented : PresentedHostKey
  pub event_senders : List (Uuid × ℕ)
  pub deciding : Bool

pub record HostTrustCoordinator : Type 0 where
  pub store : AppStore
  pub pending : List (Endpoint × PendingTrust)
  pub outcomes : List (Uuid × TrustOutcome)
  pub awaiting : List (Endpoint × Bool)
  pub events : List (ℕ × SessionEvent)

-- What a waiting `verify` keeps: its `PendingTrustGuard`.
pub record PendingTrustGuard : Type 0 where
  pub endpoint : Endpoint
  pub prompt_id : Uuid
  pub owner : Bool
  pub waiter_token : Uuid

-- Where a part of `verify` leads: to its answer, or on.
pub data Progress {ℓ} (A : Type ℓ) : Type ℓ where
  returned : Result SessionError (Unit {0}) → Progress A
  continued : A → Progress A

abbrev pub endpoint_eq : Endpoint → Endpoint → Bool
endpoint_eq a b = text_eq a.host b.host && a.port == b.port

abbrev pub is_for {ℓ} : {A : Type ℓ} → Endpoint → Endpoint × A → Bool
is_for e (d, a) = endpoint_eq d e

abbrev pub has_prompt_id : Uuid → Endpoint × PendingTrust → Bool
has_prompt_id prompt (e, state) = state.prompt_id == prompt

abbrev pub same_presented_key : PresentedHostKey → PresentedHostKey → Bool
same_presented_key left right =
    text_eq left.algorithm right.algorithm
    && text_eq left.public_key right.public_key
    && text_eq left.fingerprint_sha256 right.fingerprint_sha256

-- The stored entry's key, for the same comparison.
abbrev pub key_of : KnownHostEntry → PresentedHostKey
key_of k = record {
  algorithm = k.algorithm;
  public_key = k.public_key;
  fingerprint_sha256 = k.fingerprint_sha256;
}

-- `*outcome.borrow()`.
abbrev pub first_outcome : Uuid → List (Uuid × TrustOutcome) → TrustOutcome
first_outcome prompt [] = TrustOutcome.waiting
first_outcome prompt ((p, o) ∷ rest) = if p == prompt then o else first_outcome prompt rest

unfoldable pub set_awaiting : HostTrustCoordinator → Endpoint → Bool → HostTrustCoordinator
set_awaiting c e value = record c {
  awaiting = update_first (is_for e) (λ x. (x.0, value)) c.awaiting;
}

abbrev pub subscribe_found :
    HostTrustCoordinator → Endpoint → Option (Endpoint × Bool) → HostTrustCoordinator × Bool
subscribe_found c e (some x) = (c, x.1)
subscribe_found c e none = (record c { awaiting = (e, false) ∷ c.awaiting }, false)

-- The coordinator with a channel for the endpoint, and the value that a subscriber sees.
unfoldable pub subscribe_awaiting : HostTrustCoordinator → Endpoint → HostTrustCoordinator × Bool
subscribe_awaiting c e = subscribe_found c e (find (is_for e) c.awaiting)

-- `pending.remove(&endpoint)` with the word to the prompt's channel, and to `awaiting`: one step here,
-- where the source mostly releases the lock of `pending` before it sends `false`.
unfoldable pub settle : HostTrustCoordinator → Endpoint → Uuid → TrustOutcome → HostTrustCoordinator
unfolding set_awaiting
settle c e prompt outcome =
    set_awaiting
      (record c {
        pending = retain (λ x. not (is_for e x)) c.pending;
        outcomes = (prompt, outcome) ∷ c.outcomes;
      })
      e false

-- `deciding = true`, for the entry with the prompt.
abbrev pub mark : Endpoint × PendingTrust → Endpoint × PendingTrust
mark (e, state) = (e, record state { deciding = true })

unfoldable pub mark_deciding : HostTrustCoordinator → Uuid → HostTrustCoordinator
mark_deciding c prompt = record c { pending = update_first (has_prompt_id prompt) mark c.pending }

-- The senders of a conflict, the new session last, with the same event for each.
abbrev pub conflict_events : List (Uuid × ℕ) → ℕ → SessionEvent → List (ℕ × SessionEvent)
conflict_events senders session event = map (λ s. (s.1, event)) senders ++ (session, event) ∷ []

abbrev pub add_sender : Uuid → ℕ → Endpoint × PendingTrust → Endpoint × PendingTrust
add_sender token session (e, state) =
    (e, record state { event_senders = state.event_senders ++ (token, session) ∷ [] })

-- The three branches of the block under the lock of `pending`: a session that waits on the entry,
-- a key that conflicts with it, and a new entry.
unfoldable pub join :
    HostTrustCoordinator
    → Endpoint
    → PendingTrust
    → ℕ
    → Uuid
    → HostTrustCoordinator × Progress PendingTrustGuard
join c e existing session token = (
  record c { pending = update_first (is_for e) (add_sender token session) c.pending },
  continued (record {
    endpoint = e;
    prompt_id = existing.prompt_id;
    owner = false;
    waiter_token = token;
  }),
)

unfoldable pub clash :
    HostTrustCoordinator
    → Endpoint
    → PresentedHostKey
    → PendingTrust
    → ℕ
    → HostTrustCoordinator × Progress PendingTrustGuard
unfolding settle set_awaiting
clash c e presented existing session = (
  record (settle c e existing.prompt_id TrustOutcome.conflict) {
    events =
        c.events
        ++ conflict_events existing.event_senders session
            (changed_host_key e existing.presented.fingerprint_sha256 presented.fingerprint_sha256);
  },
  returned (err host_key_changed),
)

unfoldable pub insert_pending :
    HostTrustCoordinator
    → Endpoint
    → PresentedHostKey
    → ℕ
    → Uuid
    → HostTrustCoordinator × Progress PendingTrustGuard
unfolding set_awaiting
insert_pending c e presented session prompt = (
  set_awaiting
      (record c {
        pending =
            (
              e,
              record {
                prompt_id = prompt;
                presented = presented;
                event_senders = (prompt, session) ∷ [];
                deciding = false;
              },
            )
            ∷ c.pending;
        outcomes = (prompt, TrustOutcome.waiting) ∷ c.outcomes;
      })
      e true,
  continued (record { endpoint = e; prompt_id = prompt; owner = true; waiter_token = prompt }),
)

unfoldable pub enter_found :
    HostTrustCoordinator
    → Endpoint
    → PresentedHostKey
    → ℕ
    → Uuid
    → Uuid
    → Option (Endpoint × PendingTrust)
    → HostTrustCoordinator × Progress PendingTrustGuard
unfolding join clash insert_pending
enter_found c e presented session prompt token none = insert_pending c e presented session prompt
enter_found c e presented session prompt token (some (d, existing)) =
    if same_presented_key existing.presented presented
    then join c e existing session token
    else clash c e presented existing session

-- `prompt` and `token` are the fresh UUIDs.
unfoldable pub enter :
    HostTrustCoordinator
    → Endpoint
    → PresentedHostKey
    → ℕ
    → Uuid
    → Uuid
    → HostTrustCoordinator × Progress PendingTrustGuard
unfolding enter_found
enter c e presented session prompt token =
    enter_found c e presented session prompt token (find (is_for e) c.pending)

-- The `match` at the head of the waiting loop.
unfoldable pub read_outcome : TrustOutcome → Progress (Unit {0})
read_outcome TrustOutcome.accepted = returned (ok tt)
read_outcome TrustOutcome.rejected = returned (err host_key_rejected)
read_outcome TrustOutcome.conflict = returned (err host_key_changed)
read_outcome TrustOutcome.waiting = continued tt

-- The `Drop` of `PendingTrustGuard`, on the entry that stands for its endpoint.
abbrev pub drop_sender : Uuid → Endpoint × PendingTrust → Endpoint × PendingTrust
drop_sender token (e, state) =
    (e, record state { event_senders = retain (λ s. not (s.0 == token)) state.event_senders })

unfoldable pub drop_found :
    HostTrustCoordinator
    → PendingTrustGuard
    → Option (Endpoint × PendingTrust)
    → HostTrustCoordinator
unfolding settle
drop_found c g none = c
drop_found c g (some (e, state)) =
    if not (state.prompt_id == g.prompt_id)
    then c
    else if g.owner
    then settle c g.endpoint g.prompt_id TrustOutcome.rejected
    else record c {
      pending = update_first (is_for g.endpoint) (drop_sender g.waiter_token) c.pending;
    }

unfoldable pub drop_guard : HostTrustCoordinator → PendingTrustGuard → HostTrustCoordinator
unfolding drop_found
drop_guard c g = drop_found c g (find (is_for g.endpoint) c.pending)
