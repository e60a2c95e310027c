-- ===== src/Desktop/PumpLaws.antt =====
-- The pump ends when its queue is closed, and hands over every event in order.
use oxide_ssh.Prelude.{
  ℕ, zero, suc, ◌+◌, ◌≤◌, ◌<◌, true, false, List, [], ◌∷◌, ◌++◌, append_assoc, Option, none, some,
  ltb, length, Bool-cases, ◌≡◌, refl, sym, ap, ◌∙◌, inl, inr, arith, All, ◌⊎◌,
}
use oxide_ssh.Session.Events.{SessionEvent, output}
use oxide_ssh.Desktop.Pump.{
  coalesce_bytes, Round, handle_event, handle_batch, Queue, coalesce, is_output, receive,
  take_event, round, before, pump_from, run_pump, pump_events,
}

-- The events of a queue, of what is kept, and of the rounds.
abbrev pub present : Queue → List SessionEvent
present [] = []
present (none ∷ queue) = present queue
present (some event ∷ queue) = event ∷ present queue

abbrev pub kept : Option SessionEvent → List SessionEvent
kept none = []
kept (some event) = event ∷ []

abbrev pub handed : Round → List SessionEvent
handed (handle_event event) = event ∷ []
handed (handle_batch events) = events

abbrev pub all_handed : List Round → List SessionEvent
all_handed [] = []
all_handed (r ∷ rs) = handed r ++ all_handed rs

-- Output events only, each taken while the bytes before it were fewer than the limit.
abbrev pub Fits : ℕ → List SessionEvent → Type 0
Fits total [] = Unit
Fits total (output bytes ∷ events) =
    (ltb total coalesce_bytes ≡ true) × Fits (total + length bytes) events
Fits total (event ∷ events) = ⊥

-- A single event is no output, and a batch is output within the limit.
abbrev pub IsRound : Round → Type 0
IsRound (handle_event event) = is_output event ≡ false
IsRound (handle_batch events) = Fits 0 events

count : Option SessionEvent → ℕ
count none = 0
count (some event) = 1

-- What a part of the loop takes from a queue.
record Takes (total : ℕ) (queue : Queue) (batch : List SessionEvent) (pending : Option SessionEvent)
    (rest : Queue) : Type 0 where
  fits : Fits total batch
  order : batch ++ (kept pending ++ present rest) ≡ present queue
  size : count pending + length rest ≤ length queue

stops : (total : ℕ) (queue : Queue) → Takes total queue [] none queue
unfolding count
stops total queue = record { fits = tt; order = refl; size = omega arith }

coalesce-Takes :
    (total : ℕ) (queue : Queue)
    → let (batch, pending, rest) = coalesce total queue in Takes total queue batch pending rest
unfolding coalesce count
coalesce-Takes total [] = stops total []
coalesce-Takes total (none ∷ queue) = elim (Bool-cases (ltb total coalesce_bytes)) [
  | inl room ↦ rw room (record { fits = tt; order = refl; size = omega arith })
  | inr full ↦ rw full (stops total (none ∷ queue))
]
coalesce-Takes total (some (output bytes) ∷ queue) =
    let next = coalesce-Takes (total + length bytes) queue in
    elim (Bool-cases (ltb total coalesce_bytes)) [
      | inl room ↦ rw room (record {
        fits = (room, next.fits);
        order = ap (◌∷◌ (output bytes)) next.order;
        size = omega (arith, next.size);
      })
      | inr full ↦ rw full (stops total (some (output bytes) ∷ queue))
    ]
coalesce-Takes total (some event ∷ queue) = elim (Bool-cases (ltb total coalesce_bytes)) [
  | inl room ↦ rw room (record { fits = tt; order = refl; size = omega arith })
  | inr full ↦ rw full (stops total (some event ∷ queue))
]

zero_add : (n : ℕ) → 0 + n ≡ n
zero_add n = omega arith

-- What a round does with its event and a queue.
record Handles (event : SessionEvent) (queue : Queue) (r : Round) (pending : Option SessionEvent)
    (rest : Queue) : Type 0 where
  fits : IsRound r
  order : handed r ++ (kept pending ++ present rest) ≡ event ∷ present queue
  size : count pending + length rest ≤ length queue

round-Handles :
    (event : SessionEvent) (queue : Queue)
    → let (r, pending, rest) = round event queue in Handles event queue r pending rest
unfolding round count
round-Handles (output bytes) queue =
    let next = coalesce-Takes (length bytes) queue in
    record {
      fits = (refl, rw (zero_add (length bytes)) next.fits);
      order = ap (◌∷◌ (output bytes)) next.order;
      size = next.size;
    }
round-Handles event queue = record { fits = refl; order = refl; size = omega arith }

receive-cases :
    (queue : Queue)
    → ((receive queue ≡ none) × (present queue ≡ []))
      ⊎ ((event : SessionEvent) × (rest : Queue) × (receive queue ≡ some (event, rest))
          × (present queue ≡ event ∷ present rest)
          × (length rest < length queue))
receive-cases [] = inl (refl, refl)
receive-cases (some event ∷ queue) = inr (event, queue, refl, refl, omega arith)
receive-cases (none ∷ queue) = elim (receive-cases queue) [
  | inl closed ↦ inl closed
  | inr (event, rest, found, order, size) ↦ inr (event, rest, found, order, omega (arith, size))
]

take_event-cases :
    (pending : Option SessionEvent) (queue : Queue)
    → ((take_event pending queue ≡ none) × (kept pending ++ present queue ≡ []))
      ⊎ ((event : SessionEvent) × (rest : Queue) × (take_event pending queue ≡ some (event, rest))
          × (kept pending ++ present queue ≡ event ∷ present rest)
          × (length rest < count pending + length queue))
unfolding count
take_event-cases none queue = elim (receive-cases queue) [
  | inl closed ↦ inl closed
  | inr (event, rest, found, order, size) ↦ inr (event, rest, found, order, omega (arith, size))
]
take_event-cases (some event) queue = inr (event, queue, refl, refl, omega arith)

-- What the loop hands over, and what is lost because the view is gone.
record Pumps (views : ℕ) (all : List SessionEvent) (rounds : List Round) (lost : List SessionEvent)
    : Type 0 where
  fit : All IsRound rounds
  order : all_handed rounds ++ lost ≡ all
  within : length rounds ≤ views
  complete : length rounds < views → lost ≡ []

run_pump_lem :
    (fuel views : ℕ) (pending : Option SessionEvent) (queue : Queue)
    → count pending + length queue < fuel
    → (rounds : List Round) × (lost : List SessionEvent) × (run_pump fuel views pending queue
        ≡ some rounds)
      × Pumps views (kept pending ++ present queue) rounds lost
unfolding run_pump
run_pump_lem zero views pending queue h = absurd (omega arith)
run_pump_lem (suc fuel) zero pending queue h = elim (take_event-cases pending queue) [
  | inl (closed, empty) ↦ (
    [],
    [],
    ap (pump_from 0 (run_pump fuel)) closed,
    record { fit = tt; order = sym empty; within = omega arith; complete = λ k. refl },
  )
  | inr (event, rest, taken, order, size) ↦ (
    [],
    kept pending ++ present queue,
    ap (pump_from 0 (run_pump fuel)) taken,
    record {
      fit = tt;
      order = refl;
      within = omega arith;
      complete = λ k. absurd (omega (arith, k));
    },
  )
]
run_pump_lem (suc fuel) (suc views) pending queue h = elim (take_event-cases pending queue) [
  | inl (closed, empty) ↦ (
    [],
    [],
    ap (pump_from (suc views) (run_pump fuel)) closed,
    record { fit = tt; order = sym empty; within = omega arith; complete = λ k. refl },
  )
  | inr (event, rest, taken, order, size) ↦
      let r = round event rest in
      let did = round-Handles event rest in
      let (rounds, lost, ran, pumps) =
        run_pump_lem fuel views r.1 r.2 (omega (arith, h, size, did.size)) in
      (
        r.0 ∷ rounds,
        lost,
        ap (pump_from (suc views) (run_pump fuel)) taken ∙ ap (before r.0) ran,
        record {
          fit = (did.fits, pumps.fit);
          order =
              append_assoc (handed r.0) (all_handed rounds) lost
              ∙ ap (λ es. handed r.0 ++ es) pumps.order
              ∙ did.order
              ∙ sym order;
          within = omega (arith, pumps.within);
          complete = λ k. pumps.complete (omega (arith, k));
        },
      )
]

-- The pump ends once its queue is closed or the view has gone away, whenever its events come, if the
-- view takes `views` calls before it goes. It hands events over in the order in which they came: each
-- event that is no output alone, and output in batches of output alone, which take a further event
-- only while their bytes are fewer than 64 KiB. It makes no more than `views` calls, and where it
-- makes fewer, which is where the view outlives it, every event was handed over.
pub pump_events_lem :
    (views : ℕ) (queue : Queue)
    → (rounds : List Round) × (lost : List SessionEvent) × (pump_events views queue ≡ some rounds)
      × (all_handed rounds ++ lost ≡ present queue)
      × All IsRound rounds
      × (length rounds ≤ views)
      × (length rounds < views → lost ≡ [])
unfolding pump_events count
pump_events_lem views queue =
    let (rounds, lost, ran, pumps) =
      run_pump_lem (suc (length queue)) views none queue (omega arith) in
    (rounds, lost, ran, pumps.order, pumps.fit, pumps.within, pumps.complete)
