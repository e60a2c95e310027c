-- ===== src/Trust/VerifyExamples.antt =====
-- `verify` at concrete inputs: witnesses.
use oxide_ssh.Prelude.{true, false, [], ◌∷◌, some, ok, err, ◌≡◌, ◌⊎◌, refl}
use oxide_ssh.Session.Events.{SessionError, host_key_rejected}
use oxide_ssh.Storage.Types.{endpoint_of}
use oxide_ssh.Storage.Samples.{plain_texts, working, host_a, host_codec}
use oxide_ssh.Trust.Coordinator.{
  TrustOutcome, HostTrustCoordinator, PendingTrustGuard, key_of, enter,
}
use oxide_ssh.Trust.Verify.{Turns, changed, cancelled, wait, ask, verify}
use oxide_ssh.Trust.VerifyLaws.{IsKnown, IsAccepted, verify-cases, cancelled_waiter}
use oxide_ssh.Trust.Examples.{asking, idle}

-- The prompt of the first session, accepted while it waits.
abbrev accepted : HostTrustCoordinator
accepted = record idle { outcomes = (5, TrustOutcome.accepted) ∷ [] }

abbrev turns : Turns
turns = record {
  before_entry = idle;
  after_send = asking;
  sent = true;
  wakes = changed accepted ∷ [];
}

verifies : (verify working 7 idle (endpoint_of host_a) (key_of host_a) 1 5 9 turns).1 ≡ some (ok tt)
unfolding verify enter oxide_ssh.Storage.Store.known_host
    oxide_ssh.Storage.Config.canonicalize_endpoint oxide_ssh.Model.Validate.bad_host plain_texts
    oxide_ssh.Storage.Files.read_versioned oxide_ssh.Storage.Types.default_known_hosts
verifies = refl

verify-cases_example :
    IsKnown working 7 idle (endpoint_of host_a) (key_of host_a)
    ⊎ IsAccepted working 7 idle (endpoint_of host_a) (key_of host_a) 1 5 9 turns
verify-cases_example =
    verify-cases working 7 idle (endpoint_of host_a) (key_of host_a) 1 5 9 turns verifies

-- A second session, which waits on the prompt of the first.
abbrev waiter : PendingTrustGuard
waiter = record { endpoint = endpoint_of host_a; prompt_id = 5; owner = false; waiter_token = 9 }

cancelled_waiter_example :
    let (after, answer) =
      ask working 7 asking (record turns { wakes = cancelled asking ∷ [] }) waiter in
    (answer ≡ some (err SessionError.disconnected))
    × (wait working 7 5 after [] ≡ (after, some (err host_key_rejected)))
cancelled_waiter_example =
    cancelled_waiter working 7 asking asking (record turns { wakes = cancelled asking ∷ [] }) waiter
      [] [] refl refl refl refl refl
