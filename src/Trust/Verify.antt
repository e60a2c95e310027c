-- ===== src/Trust/Verify.antt =====
-- crates/oxide-ssh-core/src/session.rs: `verify` as a whole, and what asks for a decision. Other tasks run
-- while `verify` waits: what they leave of the coordinator is an argument wherever it resumes;
-- the prompt's event is among the events of the state after the send.
use oxide_ssh.Prelude.{ℕ, Bool, List, [], ◌∷◌, Option, none, some, Result, err, if◌then◌else◌}
use oxide_ssh.Model.Types.{Uuid, Endpoint}
use oxide_ssh.Model.Validate.{Texts}
use oxide_ssh.Session.Events.{HostKeyDecision, reject, SessionError, host_key_rejected}
use oxide_ssh.Storage.Types.{KnownHosts}
use oxide_ssh.Storage.Files.{Codec, Io}
use oxide_ssh.Trust.Coordinator.{
  PresentedHostKey, HostTrustCoordinator, PendingTrustGuard, Progress, returned, continued,
  first_outcome, read_outcome, enter, drop_guard,
}
use oxide_ssh.Trust.Decide.{decide, verify_known}
use oxide_ssh.Tabs.Tab.{Tab, Session}

-- What wakes the waiting loop: the outcome changed, its sender is gone, or the token was cancelled.
pub data Wake : Type 0 where
  changed sender_gone cancelled : HostTrustCoordinator → Wake

abbrev pub Answer : Type 0
Answer = Result SessionError (Unit {0})

-- Where `verify` stands when it is given no more to wake on: it waits (`none`), or has answered.
abbrev pub Standing : Type 0
Standing = HostTrustCoordinator × Option Answer

abbrev pub or_waiting : Progress (Unit {0}) → HostTrustCoordinator → Standing → Standing
or_waiting (returned answer) c rest = (c, some answer)
or_waiting (continued u) c rest = rest

-- The environment: the state after the look into the store, and the one after the send of the
-- prompt's event with whether it was sent.
pub record Turns : Type 0 where
  pub before_entry : HostTrustCoordinator
  pub after_send : HostTrustCoordinator
  pub sent : Bool
  pub wakes : List Wake

module _ ⦃texts : Texts⦄ ⦃hosts : Codec KnownHosts⦄ (sys : Io) (now : ℕ) where
  -- The loop, from the look at the outcome on.
  unfoldable pub wait : Uuid → HostTrustCoordinator → List Wake → Standing
  unfolding read_outcome
  wait prompt c [] = or_waiting (read_outcome (first_outcome prompt c.outcomes)) c (c, none)
  wait prompt c (changed d ∷ ws) =
      or_waiting (read_outcome (first_outcome prompt c.outcomes)) c (wait prompt d ws)
  wait prompt c (sender_gone d ∷ ws) =
      or_waiting (read_outcome (first_outcome prompt c.outcomes)) c
        (d, some (err host_key_rejected))
  wait prompt c (cancelled d ∷ ws) =
      or_waiting (read_outcome (first_outcome prompt c.outcomes)) c
        ((decide sys now d prompt reject).0, some (err SessionError.disconnected))

  -- The guard is dropped when `verify` returns.
  abbrev pub dropping : PendingTrustGuard → Standing → Standing
  dropping g (c, none) = (c, none)
  dropping g (c, some answer) = (drop_guard c g, some answer)

  -- From the guard on; `c` is what the entry left. Only the owner sends the prompt's event.
  unfoldable pub ask : HostTrustCoordinator → Turns → PendingTrustGuard → Standing
  unfolding wait
  ask c turns g =
      if g.owner
      then if turns.sent then wait g.prompt_id turns.after_send turns.wakes else (
        (decide sys now turns.after_send g.prompt_id reject).0,
        some (err SessionError.disconnected),
      )
      else wait g.prompt_id c turns.wakes

  unfoldable pub entered : Turns → HostTrustCoordinator × Progress PendingTrustGuard → Standing
  unfolding ask
  entered turns (c, returned answer) = (c, some answer)
  entered turns (c, continued g) = dropping g (ask c turns g)

  unfoldable pub looked :
      Turns
      → PresentedHostKey
      → ℕ
      → Uuid
      → Uuid
      → HostTrustCoordinator × Progress Endpoint
      → Standing
  unfolding enter entered
  looked turns presented session prompt token (c, returned answer) = (c, some answer)
  looked turns presented session prompt token (c, continued e) =
      entered turns (enter turns.before_entry e presented session prompt token)

  unfoldable pub verify :
      HostTrustCoordinator → Endpoint → PresentedHostKey → ℕ → Uuid → Uuid → Turns → Standing
  unfolding verify_known looked
  verify c endpoint presented session prompt token turns =
      looked turns presented session prompt token (verify_known sys c endpoint presented session)

  -- `SessionHandle::decide_host_key` goes to the coordinator that all sessions share.
  abbrev pub decide_in :
      {Q : Type 0}
      → HostTrustCoordinator
      → Option (Session Q)
      → Uuid
      → HostKeyDecision
      → HostTrustCoordinator × Answer
  decide_in c (some (Session.ssh h)) prompt decision = decide sys now c prompt decision
  decide_in c (some (Session.local h)) prompt decision = (c, err SessionError.disconnected)
  decide_in c none prompt decision = (c, err SessionError.disconnected)

  unfoldable pub decide_host_key :
      {T Q : Type 0}
      → HostTrustCoordinator
      → Tab T Q
      → Uuid
      → HostKeyDecision
      → HostTrustCoordinator × Answer
  decide_host_key c t prompt decision = decide_in c t.session prompt decision
