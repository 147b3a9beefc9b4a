-- ===== src/Obu/Fixed.antt =====
-- obu/main.go: `runFixedRate` and `writer`. The producer and the writers run concurrently; a run is a
-- sequence of their actions in some order. A writer's action is its next part up to a call of the
-- network, and the producer's is one tick or the end of a phase.
pub mod Conservation
pub mod Reconciliation
pub mod Drain
use toll_calc.Common.{
  ℕ, zero, suc, ◌+◌, ◌-◌, ◌%◌, Bool, true, false, List, [], ◌∷◌, ◌++◌, ltb, if◌then◌else◌,
}
use toll_calc.Common.Int.{ℤ, pos, pos_part, ltb_ℤ}
use toll_calc.Common.Text.{Text, length}
use toll_calc.Float.{Float64}
use toll_calc.Types.{ObuData}
use toll_calc.Obu.{
  LoadConfig, LoadStats, Sample, next_event, record_attempt, record_success, record_failure,
}
use toll_calc.Obu.Maximum.{Phase, idle, returned, writing, Sending}
use toll_calc.Obu.Ramp.{LoadPhase}

-- `make(chan types.OBUData, 1024)`
abbrev pub queue_capacity : ℕ
queue_capacity = 1024

-- A connection's queue, its next event first, and the writer that empties it.
pub record Writer (F : Type 0) : Type 0 where
  pub queue : List (ObuData F)
  pub phase : Phase F

-- The phases that are not over, the current one first; the queues are closed when none is left.
-- `live` is `ctx.Err() == nil`.
pub record FixedRun (F : Type 0) : Type 0 where
  pub phases : List (LoadPhase F)
  pub live : Bool
  pub writers : List (Writer F)
  pub sending : Sending

pub data WriterAction : Type 0 where
  take see_closed see_done write_succeeds write_fails : WriterAction

pub data FixedAction (F : Type 0) : Type 0 where
  -- the ticker fires; the clock and the random numbers give the sample
  tick : Sample F → FixedAction F
  -- the phase's context is done, and the interrupt
  end_of_phase interrupt : FixedAction F
  writer_at : ℕ → WriterAction → FixedAction F

-- The time between two ticks: `time.Second / phase.rate`, and at least a nanosecond.
unfoldable pub tick_interval : {F : Type 0} ⦃f : Float64 F⦄ → LoadPhase F → ℤ
tick_interval ⦃f⦄ phase =
    let interval = f.to_int (f.div (f.of_int (pos 1000000000)) phase.rate) in
    if ltb_ℤ interval (pos 1) then pos 1 else interval

module _ {F : Type 0} where
  abbrev pub is_over : List (LoadPhase F) → Bool
  is_over [] = true
  is_over (_ ∷ _) = false

  -- One action of a writer; an action that it cannot take in its phase does not happen.
  abbrev pub write_in :
      (closed live : Bool)
      → Phase F
      → List (ObuData F)
      → WriterAction
      → Writer F
      → Sending
      → Writer F × Sending
  write_in closed live idle (event ∷ queue) take w s =
      (record { queue = queue; phase = writing event }, s)
  write_in true live idle [] see_closed w s = (record w { phase = returned }, s)
  write_in closed false idle queue see_done w s = (record w { phase = returned }, s)
  write_in closed live (writing event) queue write_succeeds w s = (
    record w { phase = idle },
    record { stats = record_success event.event_id s.stats; sent = event.event_id ∷ s.sent },
  )
  write_in closed live (writing event) queue write_fails w s =
      (record w { phase = returned }, record s { stats = record_failure s.stats })
  write_in _ _ _ _ _ w s = (w, s)

  abbrev pub write_at :
      (closed live : Bool)
      → ℕ
      → WriterAction
      → List (Writer F)
      → Sending
      → List (Writer F) × Sending
  write_at closed live i a [] s = ([], s)
  write_at closed live zero a (w ∷ ws) s =
      let (w', s') = write_in closed live w.phase w.queue a w s in (w' ∷ ws, s')
  write_at closed live (suc i) a (w ∷ ws) s =
      let (ws', s') = write_at closed live i a ws s in (w ∷ ws', s')

  -- `jobs[i] <- data`, or a failure if the queue is full.
  abbrev pub offer : ObuData F → Writer F → Sending → Writer F × Sending
  offer event w s =
      if ltb (length w.queue) queue_capacity
      then (record w { queue = w.queue ++ (event ∷ []) }, s)
      else (w, record s { stats = record_failure s.stats })

  abbrev pub offer_at : ℕ → ObuData F → List (Writer F) → Sending → List (Writer F) × Sending
  offer_at i event [] s = ([], s)
  offer_at zero event (w ∷ ws) s = let (w', s') = offer event w s in (w' ∷ ws, s')
  offer_at (suc i) event (w ∷ ws) s = let (ws', s') = offer_at i event ws s in (w ∷ ws', s')

  -- `(data.OBUID - 1) % len(jobs)`; the OBU IDs of the generator start at 1.
  abbrev pub connection_of : ObuData F → List (Writer F) → ℕ
  connection_of event ws = (pos_part event.obu_id - 1) % length ws

  abbrev pub remaining : (live : Bool) → List (LoadPhase F) → List (LoadPhase F)
  remaining live [] = []
  remaining false (p ∷ ps) = []
  remaining true (p ∷ ps) = if ltb_ℤ (pos 0) p.duration then ps else p ∷ ps

  module _ (cfg : LoadConfig F) (padding : Text) where
    abbrev pub tick_in : Bool → Sample F → FixedRun F → FixedRun F
    tick_in true sample r = r
    tick_in false sample r =
        let (event, stats') = next_event cfg sample padding r.sending.stats in
        let (ws, s) =
          offer_at (connection_of event r.writers) event r.writers
            (record r.sending { stats = record_attempt stats' }) in
        record r { writers = ws; sending = s }

    abbrev pub fixed_act : FixedAction F → FixedRun F → FixedRun F
    fixed_act (tick sample) r = tick_in (is_over r.phases) sample r
    fixed_act end_of_phase r = record r { phases = remaining r.live r.phases }
    fixed_act interrupt r = record r { live = false }
    fixed_act (writer_at i a) r =
        let (ws, s) = write_at (is_over r.phases) r.live i a r.writers r.sending in
        record r { writers = ws; sending = s }

    unfoldable pub run_fixed_rate : List (FixedAction F) → FixedRun F → FixedRun F
    run_fixed_rate [] r = r
    run_fixed_rate (a ∷ actions) r = run_fixed_rate actions (fixed_act a r)
