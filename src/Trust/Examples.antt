-- ===== src/Trust/Examples.antt =====
-- Runs of the coordinator at concrete inputs.
use oxide_ssh.Prelude.{true, false, [], ◌∷◌, none, some, ok, err, find, ◌≡◌, refl}
use oxide_ssh.Model.Types.{Endpoint}
use oxide_ssh.Session.Events.{accept_and_store, reject, host_key_rejected}
use oxide_ssh.Storage.Types.{KnownHostEntry, endpoint_of}
use oxide_ssh.Storage.Store.{known_host}
use oxide_ssh.Storage.Samples.{plain_texts, working, host_a, host_codec, hosts-IsFaithful}
use oxide_ssh.Trust.Coordinator.{
  TrustOutcome, PendingTrust, HostTrustCoordinator, same_presented_key, key_of, first_outcome,
  has_prompt_id, enter,
}
use oxide_ssh.Trust.Decide.{decide}
use oxide_ssh.Trust.DecideLaws.{decide_accept_lem}
use oxide_ssh.Trust.Steps.{Reach, here, next, entered, decide_once}

-- One session asks about host `a`.
abbrev pub asking : HostTrustCoordinator
asking = record {
  store = record { config = none; known_hosts = none };
  pending =
      (
        endpoint_of host_a,
        record {
          prompt_id = 5;
          presented = key_of host_a;
          event_senders = (5, 1) ∷ [];
          deciding = false;
        },
      )
      ∷ [];
  outcomes = (5, TrustOutcome.waiting) ∷ [];
  awaiting = (endpoint_of host_a, true) ∷ [];
  events = [];
}

accepts : (decide working 7 asking 5 accept_and_store).1 ≡ ok tt
unfolding decide oxide_ssh.Storage.Store.accept_host_key oxide_ssh.Storage.Files.read_versioned
    oxide_ssh.Storage.Config.canonicalize_endpoint oxide_ssh.Model.Validate.bad_host
    oxide_ssh.Storage.Store.accept_entry oxide_ssh.Storage.Types.default_known_hosts
    oxide_ssh.Storage.Files.atomic_write host_codec plain_texts
accepts = refl

decide_accept_lem_example :
    let d = (decide working 7 asking 5 accept_and_store).0 in
    (e : Endpoint) × (state : PendingTrust) × (k : KnownHostEntry) × (find
        (has_prompt_id 5)
        asking.pending
      ≡ some (e, state))
    × (known_host working d.store e ≡ ok (some k))
    × (same_presented_key (key_of k) state.presented ≡ true)
    × (first_outcome 5 d.outcomes ≡ TrustOutcome.accepted)
decide_accept_lem_example =
    decide_accept_lem hosts-IsFaithful working working 7 asking 5 accepts refl

-- Before the session asked.
abbrev pub idle : HostTrustCoordinator
idle = record asking { pending = []; outcomes = []; awaiting = (endpoint_of host_a, false) ∷ [] }

asked : Reach idle asking
unfolding enter
asked = next here (entered (endpoint_of host_a) (key_of host_a) 1 5 9 refl refl)

decide_once_example :
    let after = (decide working 7 asking 5 accept_and_store).0 in
    decide working 8 after 5 reject ≡ (after, err host_key_rejected)
decide_once_example = decide_once working working 7 8 5 accept_and_store reject refl asked
