-- ===== src/Session/ConnectionLaws.antt =====
-- A session is shown as connected only behind its authentication.
use oxide_ssh.Prelude.{
  ℕ, zero, suc, ◌-◌, Bool, true, false, ◌||◌, List, [], ◌∷◌, Option, none, some, Result, ok, err,
  ltb, leb, length, if◌then◌else◌, any, any-append, Bool-cases, ◌≡◌, refl, sym, ap, ◌∙◌, inl, inr,
  arith,
}
use oxide_ssh.Model.Types.{Text, Endpoint, ConnectionProfile}
use oxide_ssh.Model.Validate.{Texts}
use oxide_ssh.Storage.Types.{StorageError}
use oxide_ssh.Storage.Config.{canonicalize_endpoint}
use oxide_ssh.Session.Events.{
  SessionState, authenticating, opening_shell, connected, connecting, SessionError, SessionEvent,
  state_changed, exited,
}
use oxide_ssh.Session.Authenticate.{Server, authenticate}
use oxide_ssh.Session.AuthenticateLaws.{IsAccepted, authenticate-IsAccepted}
use oxide_ssh.Session.Connection.{
  Sent, send, ConnectTurn, waited, awaiting_changed, key_presented, asked, warned, verified, made,
  handler_step, connect_loop, Turn, Ended, next_turn, shell_loop, Opening, open_shell, run_shell,
  after_connect, send_ignored, send_result, finished, run_at, run_session, session_task, first_sent,
  aborted, connect_timeout_secs, host_key_decision_timeout_secs,
}

abbrev pub is_connected_event : SessionEvent → Bool
is_connected_event (state_changed connected) = true
is_connected_event _ = false

abbrev Quiet : List SessionEvent → Type 0
Quiet events = any is_connected_event events ≡ false

or_both : (a b : Bool) → a ≡ false → b ≡ false → (a || (b || false)) ≡ false
or_both a b h k = ground arith

send-Quiet :
    (room : ℕ) (events : List SessionEvent) (e : SessionEvent)
    → Quiet events
    → is_connected_event e ≡ false
    → Quiet (send room events e).0
send-Quiet room events e h k = elim (Bool-cases (ltb (length events) room)) [
  | inl taken ↦ rw taken (
      any-append is_connected_event events (e ∷ [])
      ∙ or_both (any is_connected_event events) (is_connected_event e) h k)
  | inr gone ↦ rw gone h
]

abbrev AllQuiet : {A : Type 0} → Option (Sent A) → Type 0
AllQuiet none = Unit
AllQuiet (some (events, answer)) = Quiet events

step-AllQuiet :
    (x : Sent (Unit {0})) (rest : List SessionEvent → Option (Sent (Unit {0})))
    → Quiet x.0
    → ((events : List SessionEvent) → Quiet events → AllQuiet (rest events))
    → AllQuiet (handler_step x rest)
step-AllQuiet (events, ok u) rest h k = k events h
step-AllQuiet (events, err e) rest h k = h

connect_loop-AllQuiet :
    (room left : ℕ) (events : List SessionEvent) (turns : List ConnectTurn)
    → Quiet events
    → AllQuiet (connect_loop room left events turns)
connect_loop-AllQuiet room left events [] h = tt
connect_loop-AllQuiet room left events (waited n ∷ turns) h = elim (Bool-cases (leb left n)) [
  | inl over ↦ rw over h
  | inr more ↦ rw more (connect_loop-AllQuiet room (left - n) events turns h)
]
connect_loop-AllQuiet room left events (awaiting_changed none ∷ turns) h = h
connect_loop-AllQuiet room left events (awaiting_changed (some awaiting) ∷ turns) h =
    connect_loop-AllQuiet room
      (if awaiting then host_key_decision_timeout_secs else connect_timeout_secs) events turns h
connect_loop-AllQuiet room left events (key_presented ∷ turns) h =
    step-AllQuiet _ (λ sent. connect_loop room left sent turns) (send-Quiet room events _ h refl)
      (λ sent q. connect_loop-AllQuiet room left sent turns q)
connect_loop-AllQuiet room left events (asked p d a f ∷ turns) h =
    step-AllQuiet _ (λ sent. connect_loop room left sent turns) (send-Quiet room events _ h refl)
      (λ sent q. connect_loop-AllQuiet room left sent turns q)
connect_loop-AllQuiet room left events (warned d a f ∷ turns) h =
    step-AllQuiet _ (λ sent. connect_loop room left sent turns) (send-Quiet room events _ h refl)
      (λ sent q. connect_loop-AllQuiet room left sent turns q)
connect_loop-AllQuiet room left events (verified answer ∷ turns) h =
    step-AllQuiet (events, answer) (λ sent. connect_loop room left sent turns) h
      (λ sent q. connect_loop-AllQuiet room left sent turns q)
connect_loop-AllQuiet room left events (made answer ∷ turns) h = h

-- Where a run shows a connected session, `P` holds.
module _ (P : Type 0) where
  abbrev Shows : Ended → Type 0
  Shows none = Unit
  Shows (some (events, answer)) = any is_connected_event events ≡ true → P

  Shows-of : P → (x : Ended) → Shows x
  Shows-of p none = tt
  Shows-of p (some (events, answer)) = λ h. p

  quiet_shows :
      (events : List SessionEvent) → Quiet events → any is_connected_event events ≡ true → P
  quiet_shows events q h = absurd (ground (arith, q, h))

  turn-Shows :
      (x : Sent (Unit {0})) (rest : List SessionEvent → Ended)
      → Quiet x.0
      → (x.1 ≡ ok tt → (events : List SessionEvent) → Quiet events → Shows (rest events))
      → Shows (next_turn x rest)
  turn-Shows (events, ok u) rest q k = k refl events q
  turn-Shows (events, err e) rest q k = quiet_shows events q

  after-Shows :
      (x : Option (Sent (Unit {0}))) (rest : List SessionEvent → Ended)
      → AllQuiet x
      → ((events : List SessionEvent) → Quiet events → Shows (rest events))
      → Shows (after_connect x rest)
  after-Shows none rest q k = tt
  after-Shows (some sent) rest q k = turn-Shows sent rest q (λ e events h. k events h)

run_shell-Shows :
    (room : ℕ) (authenticated opened : Result SessionError (Unit {0})) (turns : List Turn)
    (events : List SessionEvent)
    → Quiet events
    → Shows
        ((authenticated ≡ ok tt) × (opened ≡ ok tt))
        (run_shell room authenticated opened turns events)
run_shell-Shows room authenticated opened turns events q =
    let P = (authenticated ≡ ok tt) × (opened ≡ ok tt) in
    turn-Shows P (send room events (state_changed authenticating)) _
      (send-Quiet room events (state_changed authenticating) q refl)
      (λ e1 events1 q1.
        turn-Shows P (events1, authenticated) _ q1
          (λ yes1 events2 q2.
            turn-Shows P (send room events2 (state_changed opening_shell)) _
              (send-Quiet room events2 (state_changed opening_shell) q2 refl)
              (λ e3 events3 q3.
                turn-Shows P (events3, opened) _ q3
                  (λ yes2 events4 q4.
                    Shows-of P (yes1, yes2)
                      (next_turn (send room events4 (state_changed connected))
                        (λ sent. shell_loop room sent none turns))))))

-- What is sent behind a run is no connected session.
earlier :
    (room : ℕ) (events : List SessionEvent) (e : SessionEvent)
    → is_connected_event e ≡ false
    → any is_connected_event (send_ignored room events e) ≡ true
    → any is_connected_event events ≡ true
earlier room events e k h = elim (Bool-cases (any is_connected_event events)) [
  | inl shown ↦ shown
  | inr quiet ↦ absurd (differ (sym (send-Quiet room events e quiet k) ∙ h))
]
  where
    differ : ¬ (◌≡◌ {A = Bool} false true)
    differ h = cc

result_earlier :
    (room : ℕ) (events : List SessionEvent) (answer : Result SessionError (Option ℕ))
    → any is_connected_event (send_result room (events, answer)) ≡ true
    → any is_connected_event events ≡ true
result_earlier room events (ok status) h = earlier room events (exited status) refl h
result_earlier room events (err SessionError.disconnected) h = h
result_earlier room events (err e) h = earlier room events _ refl h

some_inj : {A : Type 0} {a b : A} → ◌≡◌ {A = Option A} (some a) (some b) → a ≡ b
some_inj h = cc

finished_shows :
    (P : Type 0) (room : ℕ) (x : Ended) (events : List SessionEvent)
    → Shows P x
    → finished room x ≡ some events
    → any is_connected_event events ≡ true
    → P
finished_shows P room none events s h k = cc
finished_shows P room (some (before, answer)) events s h k =
    let last = send_result room (before, answer) in
    s (
      result_earlier room before answer (
        earlier room last (state_changed SessionState.disconnected) refl
          (ap (any is_connected_event) (some_inj h) ∙ k)))

first_shown :
    (n : ℕ) (events : List SessionEvent)
    → any is_connected_event (first_sent n events) ≡ true
    → any is_connected_event events ≡ true
first_shown zero events h = cc
first_shown (suc n) [] h = cc
first_shown (suc n) (e ∷ events) h = ground (arith, first_shown n events)

-- What the task would have sent without its abort shows what was sent.
before_abort :
    (abort : Option ℕ) (x : Option (List SessionEvent)) (events : List SessionEvent)
    → aborted abort x ≡ some events
    → any is_connected_event events ≡ true
    → (all : List SessionEvent) × (x ≡ some all) × (any is_connected_event all ≡ true)
before_abort abort none events h k = cc
before_abort none (some all) events h k = (all, refl, ap (any is_connected_event) (some_inj h) ∙ k)
before_abort (some n) (some all) events h k =
    (all, refl, first_shown n all (ap (any is_connected_event) (some_inj h) ∙ k))

open_shell_lem :
    (o : Opening)
    → open_shell o ≡ ok tt
    → (o.opens_channel ≡ true) × (o.takes_pty ≡ true) × (o.takes_shell ≡ true)
open_shell_lem o h = go o.opens_channel o.takes_pty o.takes_shell h
  where
    go :
        (a b c : Bool)
        → open_shell (record { opens_channel = a; takes_pty = b; takes_shell = c }) ≡ ok tt
        → (a ≡ true) × (b ≡ true) × (c ≡ true)
    go true true true h = (refl, refl, refl)
    go true true false h = cc
    go true false c h = cc
    go false b c h = cc

module _ ⦃texts : Texts⦄ {Key Identity Hash : Type 0} (server : Server Key Identity Hash) where
  run_at-Shows :
      (room : ℕ) (p : ConnectionProfile) (secret : Option Text) (connect_turns : List ConnectTurn)
      (opening : Opening) (turns : List Turn) (events : List SessionEvent)
      (endpoint : Result StorageError Endpoint)
      → Quiet events
      → Shows
          ((authenticate server p secret ≡ ok tt) × (open_shell opening ≡ ok tt))
          (run_at server room p secret connect_turns opening turns events endpoint)
  run_at-Shows room p secret connect_turns opening turns events (err e) q = quiet_shows _ events q
  run_at-Shows room p secret connect_turns opening turns events (ok endpoint) q =
      after-Shows _ (connect_loop room connect_timeout_secs events connect_turns)
        (run_shell room (authenticate server p secret) (open_shell opening) turns)
        (connect_loop-AllQuiet room connect_timeout_secs events connect_turns q)
        (λ sent h.
          run_shell-Shows room (authenticate server p secret) (open_shell opening) turns sent h)

  -- A session whose events show it connected has been accepted by the server: with the password that was
  -- given, with the key in the profile's file, or with an identity of the agent, by the profile's
  -- method. Its channel was opened, and the requests for a terminal and for a shell were sent. This is so
  -- whatever happens in what order while it connects and runs, whenever its receiver goes away, and
  -- whenever it is aborted.
  pub session_task-connected :
      (room : ℕ) (p : ConnectionProfile) (secret : Option Text) (connect_turns : List ConnectTurn)
      (opening : Opening) (turns : List Turn) (abort : Option ℕ) (events : List SessionEvent)
      → session_task server room p secret connect_turns opening turns abort ≡ some events
      → any is_connected_event events ≡ true
      → IsAccepted server p.username p.auth secret
        × (opening.opens_channel ≡ true)
        × (opening.takes_pty ≡ true)
        × (opening.takes_shell ≡ true)
  unfolding session_task run_session
  session_task-connected room p secret connect_turns opening turns abort events h k =
      let first = send_ignored room [] (state_changed connecting) in
      let run =
        run_at server room p secret connect_turns opening turns first
          (canonicalize_endpoint p.endpoint) in
      let (all, whole, shown) = before_abort abort (finished room run) events h k in
      let (accepted, opened) =
        finished_shows _ room run all
          (run_at-Shows room p secret connect_turns opening turns first
            (canonicalize_endpoint p.endpoint)
            (send-Quiet room [] (state_changed connecting) refl refl))
          whole shown in
      let (channel, pty, shell) = open_shell_lem opening opened in
      (authenticate-IsAccepted server p secret accepted, channel, pty, shell)
