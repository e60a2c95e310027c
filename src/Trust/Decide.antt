-- ===== src/Trust/Decide.antt =====
-- crates/oxide-ssh-core/src/session.rs: the two operations of `HostTrustCoordinator` that use the
-- store, `decide` and the head of `verify`.
use oxide_ssh.Prelude.{ℕ, [], ◌∷◌, ◌++◌, Option, none, some, Result, ok, err, if◌then◌else◌, find}
use oxide_ssh.Model.Types.{Uuid, Endpoint}
use oxide_ssh.Model.Validate.{Texts}
use oxide_ssh.Session.Events.{
  HostKeyDecision, accept_and_store, reject, SessionError, changed_host_key, invalid_profile,
  host_key_changed, host_key_store_failed, host_key_rejected,
}
use oxide_ssh.Storage.Types.{KnownHosts, KnownHostEntry, StorageError, host_key_conflict}
use oxide_ssh.Storage.Config.{canonicalize_endpoint}
use oxide_ssh.Storage.Files.{Codec, Io}
use oxide_ssh.Storage.Store.{AppStore, known_host, accept_host_key}
use oxide_ssh.Trust.Coordinator.{
  PresentedHostKey, TrustOutcome, PendingTrust, HostTrustCoordinator, Progress, returned, continued,
  has_prompt_id, same_presented_key, key_of, settle, mark_deciding,
}

-- The entry that `decide` asks the store to accept.
abbrev pub entry_of : Endpoint → PresentedHostKey → ℕ → KnownHostEntry
entry_of e p now = record {
  host = e.host;
  port = e.port;
  algorithm = p.algorithm;
  public_key = p.public_key;
  fingerprint_sha256 = p.fingerprint_sha256;
  accepted_at_unix = now;
}

-- The `match` on the store's answer, and the statements behind it.
unfoldable pub decide_stored :
    HostTrustCoordinator
    → Endpoint
    → Uuid
    → Result StorageError (Unit {0})
    → HostTrustCoordinator × Result SessionError (Unit {0})
unfolding settle
decide_stored c e prompt (ok u) = (settle c e prompt TrustOutcome.accepted, ok tt)
decide_stored c e prompt (err host_key_conflict) =
    (settle c e prompt TrustOutcome.conflict, err host_key_changed)
decide_stored c e prompt (err _) =
    (settle c e prompt TrustOutcome.rejected, err host_key_store_failed)

abbrev pub with_store : HostTrustCoordinator → AppStore → HostTrustCoordinator
with_store c s = record c { store = s }

module _ ⦃texts : Texts⦄ ⦃hosts : Codec KnownHosts⦄ where
  -- The function from `deciding = true` on; `now` is the seconds of the clock.
  unfoldable pub decide_on :
      Io
      → ℕ
      → HostTrustCoordinator
      → Endpoint
      → PendingTrust
      → HostKeyDecision
      → HostTrustCoordinator × Result SessionError (Unit {0})
  unfolding decide_stored settle
  decide_on sys now c e state reject = (settle c e state.prompt_id TrustOutcome.rejected, ok tt)
  decide_on sys now c e state accept_and_store =
      let (s, answer) = accept_host_key sys c.store (entry_of e state.presented now) in
      decide_stored (with_store c s) e state.prompt_id answer

  -- The function behind its search.
  unfoldable pub decide_found :
      Io
      → ℕ
      → HostTrustCoordinator
      → Uuid
      → HostKeyDecision
      → Option (Endpoint × PendingTrust)
      → HostTrustCoordinator × Result SessionError (Unit {0})
  unfolding decide_on mark_deciding
  decide_found sys now c prompt decision none = (c, err host_key_rejected)
  decide_found sys now c prompt decision (some (e, state)) =
      if state.deciding
      then (c, err host_key_rejected)
      else decide_on sys now (mark_deciding c prompt) e state decision

  unfoldable pub decide :
      Io
      → ℕ
      → HostTrustCoordinator
      → Uuid
      → HostKeyDecision
      → HostTrustCoordinator × Result SessionError (Unit {0})
  unfolding decide_found
  decide sys now c prompt decision =
      decide_found sys now c prompt decision (find (has_prompt_id prompt) c.pending)

  -- The `match` on what the store knows.
  unfoldable pub check_known :
      HostTrustCoordinator
      → Endpoint
      → PresentedHostKey
      → ℕ
      → Result StorageError (Option KnownHostEntry)
      → HostTrustCoordinator × Progress Endpoint
  check_known c e presented session (ok (some known)) =
      if same_presented_key (key_of known) presented then (c, returned (ok tt)) else (
        record c {
          events =
              c.events
              ++ (session, changed_host_key e known.fingerprint_sha256 presented.fingerprint_sha256)
                ∷ [];
        },
        returned (err host_key_changed),
      )
  check_known c e presented session (ok none) = (c, continued e)
  check_known c e presented session (err x) = (c, returned (err host_key_store_failed))

  unfoldable pub verify_at :
      Io
      → HostTrustCoordinator
      → PresentedHostKey
      → ℕ
      → Result StorageError Endpoint
      → HostTrustCoordinator × Progress Endpoint
  unfolding check_known
  verify_at sys c presented session (err x) = (c, returned (err invalid_profile))
  verify_at sys c presented session (ok e) =
      check_known c e presented session (known_host sys c.store e)

  -- The head of `verify`, for the session that the events go to.
  unfoldable pub verify_known :
      Io
      → HostTrustCoordinator
      → Endpoint
      → PresentedHostKey
      → ℕ
      → HostTrustCoordinator × Progress Endpoint
  unfolding verify_at
  verify_known sys c endpoint presented session =
      verify_at sys c presented session (canonicalize_endpoint endpoint)
