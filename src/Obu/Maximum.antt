-- ===== src/Obu/Maximum.antt =====
-- obu/main.go: `runMaximumThroughput`. Its workers run concurrently; a run is a sequence of their
-- actions in some order, where an action is a worker's next part up to a call of the network.
use toll_calc.Common.{ℕ, zero, suc, ◌+◌, ◌%◌, List, [], ◌∷◌}
use toll_calc.Common.Int.{ℤ, pos}
use toll_calc.Common.Text.{Text, length}
use toll_calc.Types.{ObuData}
use toll_calc.Obu.{
  LoadConfig, LoadStats, Sample, event_for_obu, record_attempt, record_success, record_failure,
}

-- A worker at the head of its loop, in `writeEvent`, or after its return.
pub data Phase (F : Type 0) : Type 0 where
  idle returned : Phase F
  writing : ObuData F → Phase F

pub record Worker (F : Type 0) : Type 0 where
  pub obu_ids : List ℤ
  pub obu_index : ℕ
  pub phase : Phase F

-- What the workers share, and the IDs of the events whose write returned no error, newest first.
pub record Sending : Type 0 where
  pub stats : LoadStats
  pub sent : List Text

pub data Action (F : Type 0) : Type 0 where
  -- the context is live; the clock and the random numbers give the sample
  generate : Sample F → Action F
  context_done write_succeeds write_fails : Action F

-- `obuIDs[obuIndex]`; the index stays in range, since a worker has at least one OBU.
abbrev pub obu_at : List ℤ → ℕ → ℤ
obu_at [] i = pos 0
obu_at (obu ∷ obus) zero = obu
obu_at (obu ∷ obus) (suc i) = obu_at obus i

module _ {F : Type 0} (cfg : LoadConfig F) (padding : Text) where
  -- An action that a worker cannot take in its phase does not happen.
  abbrev pub act_in : Phase F → Action F → Worker F → Sending → Worker F × Sending
  act_in idle (generate sample) w s =
      let (event, stats') =
        event_for_obu cfg sample padding (obu_at w.obu_ids w.obu_index) s.stats in
      (
        record w { obu_index = (w.obu_index + 1) % length w.obu_ids; phase = writing event },
        record s { stats = record_attempt stats' },
      )
  act_in idle context_done w s = (record w { phase = returned }, s)
  act_in (writing event) write_succeeds w s = (
    record w { phase = idle },
    record { stats = record_success event.event_id s.stats; sent = event.event_id ∷ s.sent },
  )
  act_in (writing event) write_fails w s =
      (record w { phase = returned }, record s { stats = record_failure s.stats })
  act_in _ _ w s = (w, s)

  -- The action of the worker at an index.
  abbrev pub act_at : ℕ → Action F → List (Worker F) → Sending → List (Worker F) × Sending
  act_at i a [] s = ([], s)
  act_at zero a (w ∷ ws) s = let (w', s') = act_in w.phase a w s in (w' ∷ ws, s')
  act_at (suc i) a (w ∷ ws) s = let (ws', s') = act_at i a ws s in (w ∷ ws', s')

  unfoldable pub run_maximum_throughput :
      List (ℕ × Action F) → List (Worker F) → Sending → List (Worker F) × Sending
  run_maximum_throughput [] ws s = (ws, s)
  run_maximum_throughput ((i, a) ∷ actions) ws s =
      let (ws', s') = act_at i a ws s in run_maximum_throughput actions ws' s'
