-- ===== src/Desktop/Pump.antt =====
-- crates/oxide-ssh-desktop/src/app/session.rs: `spawn_event_pump`. What the receiver finds is a list, in
-- order: an event, or `none` where the queue is empty for now, which `try_recv` sees and `recv` waits
-- out. The end of the list is the closed queue. A round of the loop hands one event over, or a batch.
use oxide_ssh.Prelude.{
  ℕ, zero, suc, ◌+◌, ◌*◌, Bool, true, false, List, [], ◌∷◌, Option, none, some, ltb, if◌then◌else◌,
  length,
}
use oxide_ssh.Session.Events.{SessionEvent, output}

abbrev pub coalesce_bytes : ℕ
coalesce_bytes = 64 * 1024

-- The two calls of the pump.
pub data Round : Type 0 where
  handle_event : SessionEvent → Round
  handle_batch : List SessionEvent → Round

abbrev pub Queue : Type 0
Queue = List (Option SessionEvent)

abbrev pub is_output : SessionEvent → Bool
is_output (output bytes) = true
is_output _ = false

-- The inner loop: the rest of the batch, the event that is kept for the next round, and what is left
-- in the queue.
unfoldable pub coalesce : ℕ → Queue → List SessionEvent × Option SessionEvent × Queue
coalesce total [] = ([], none, [])
coalesce total (none ∷ queue) = ([], none, if ltb total coalesce_bytes then queue else none ∷ queue)
coalesce total (some (output bytes) ∷ queue) =
    let (batch, pending, rest) = coalesce (total + length bytes) queue in
    if ltb total coalesce_bytes
    then (output bytes ∷ batch, pending, rest)
    else ([], none, some (output bytes) ∷ queue)
coalesce total (some event ∷ queue) =
    if ltb total coalesce_bytes then ([], some event, queue) else ([], none, some event ∷ queue)

-- `pending.take()`, or what `recv` waits for.
abbrev pub receive : Queue → Option (SessionEvent × Queue)
receive [] = none
receive (none ∷ queue) = receive queue
receive (some event ∷ queue) = some (event, queue)

abbrev pub take_event : Option SessionEvent → Queue → Option (SessionEvent × Queue)
take_event (some event) queue = some (event, queue)
take_event none queue = receive queue

-- What the round does with its event, the event that it keeps, and what it leaves in the queue.
unfoldable pub round : SessionEvent → Queue → Round × Option SessionEvent × Queue
unfolding coalesce
round (output bytes) queue =
    let (batch, pending, rest) = coalesce (length bytes) queue in
    (handle_batch (output bytes ∷ batch), pending, rest)
round event queue = (handle_event event, none, queue)

abbrev pub before : Round → Option (List Round) → Option (List Round)
before r none = none
before r (some rounds) = some (r ∷ rounds)

-- A round for the event that was taken, and what `again` does with what it leaves. The view takes `views`
-- more calls: where it is gone, `update` fails, and the loop ends with its event unhandled.
abbrev pub pump_from :
    ℕ
    → (ℕ → Option SessionEvent → Queue → Option (List Round))
    → Option (SessionEvent × Queue)
    → Option (List Round)
pump_from views again none = some []
pump_from zero again (some taken) = some []
pump_from (suc views) again (some (event, rest)) =
    before (round event rest).0 (again views (round event rest).1 (round event rest).2)

-- The rounds of the loop, until the queue is closed or the view is gone; `none` is no fuel.
unfoldable pub run_pump : ℕ → ℕ → Option SessionEvent → Queue → Option (List Round)
run_pump zero views pending queue = none
run_pump (suc fuel) views pending queue = pump_from views (run_pump fuel) (take_event pending queue)

-- One round for each thing in the queue is enough.
unfoldable pub pump_events : ℕ → Queue → Option (List Round)
unfolding run_pump
pump_events views queue = run_pump (suc (length queue)) views none queue
