-- ===== src/Examples/FixedLoads.antt =====
-- A fixed-rate run of the load generator.
use mathlib.Core.List.{Nodup}
use toll_calc.Common.{◌+◌, ◌%◌, ◌≡◌, refl, true, false, Bool, List, [], ◌∷◌, arith}
use toll_calc.Common.Int.{pos}
use toll_calc.Common.Text.{Text, text}
use toll_calc.Float.Grid.{Grid, Grid-Float64, whole}
use toll_calc.Types.{ObuData, word}
use toll_calc.Aggregator.Store.{reconciliation, new_memory_store}
use toll_calc.Aggregator.Store.Replay.{insert_all}
use toll_calc.Obu.{
  next_event, next_obu, event_for_obu, record_attempt, record_success, record_failure,
}
use toll_calc.Obu.Maximum.{returned, writing}
use toll_calc.Obu.Reconciliation.{nothing_sent}
use toll_calc.Obu.Fixed.{
  Writer, take, see_done, write_succeeds, write_fails, FixedRun, FixedAction, tick, end_of_phase,
  interrupt, writer_at, tick_interval, run_fixed_rate,
}
use toll_calc.Obu.Fixed.Conservation.{backlog, WithinCapacity}
use toll_calc.Obu.Fixed.Reconciliation.{fixed_outcome, fixed_run_conserves, fixed_run_reconciles}
use toll_calc.Obu.Fixed.Drain.{drain, succeeding, closed_writer_returns}
use toll_calc.Examples.Loads.{ramped, phases, sample, twice, recorded-twice}

-- Three events over two connections: the first one is written, the second one is not, and the
-- third one is still queued when the run is interrupted.
abbrev pub actions : List (FixedAction Grid)
actions =
    tick sample
    ∷ writer_at 0 take
    ∷ tick sample
    ∷ end_of_phase
    ∷ writer_at 1 take
    ∷ writer_at 0 write_succeeds
    ∷ tick sample
    ∷ writer_at 1 write_fails
    ∷ interrupt
    ∷ end_of_phase
    ∷ tick sample
    ∷ writer_at 0 see_done
    ∷ []

abbrev run : FixedRun Grid
run = fixed_outcome ramped (text "x") actions 2 phases (pos 9)

fixed_run_counts :
    (run.sending.stats.attempted ≡ 3)
    × (run.sending.stats.written ≡ 1)
    × (run.sending.stats.failed ≡ 1)
    × (backlog run.writers ≡ 1)
    × (run.phases ≡ [])
unfolding run_fixed_rate next_event next_obu event_for_obu record_attempt record_success
    record_failure
fixed_run_counts = (refl, refl, refl, refl, refl)

-- Ten events in a second, and the shortest interval for a rate of two in a nanosecond.
intervals :
    (tick_interval (record { duration = pos 5; rate = whole (pos 10) }) ≡ pos 100000000)
    × (tick_interval (record { duration = pos 5; rate = whole (pos 2000000000) }) ≡ pos 1)
unfolding tick_interval
intervals = (refl, refl)

fixed_run_conserves_example :
    (run.sending.stats.attempted
      ≡ (run.sending.stats.written + run.sending.stats.failed + backlog run.writers) % word)
    × Nodup run.sending.sent
    × WithinCapacity run.writers
fixed_run_conserves_example =
    fixed_run_conserves ramped (text "x") actions 2 phases (pos 9) (omega arith) (omega arith)

fixed_run_reconciles_example :
    let r = reconciliation (insert_all (twice run.sending.sent) new_memory_store).1 in
    (r.count ≡ run.sending.stats.written)
    × (r.xor_hash ≡ run.sending.stats.hash_xor)
    × (r.sum_hash ≡ run.sending.stats.hash_sum)
fixed_run_reconciles_example =
    fixed_run_reconciles ramped (text "x") actions 2 phases (pos 9) (twice run.sending.sent)
      (omega arith) (omega arith) (λ e named. recorded-twice e run.sending.sent)

abbrev queued_event : Text → ObuData Grid
queued_event id = record {
  event_id = id;
  produced_at_unix_nano = pos 100;
  obu_id = pos 1;
  lat = whole (pos 1);
  lon = whole (pos 2);
  payload = [];
}

abbrev busy_writer : Writer Grid
busy_writer = record {
  queue = queued_event (text "b") ∷ queued_event (text "c") ∷ [];
  phase = writing (queued_event (text "a"));
}

abbrev answers : List Bool
answers = true ∷ true ∷ true ∷ false ∷ true ∷ true ∷ []

closed_writer_returns_example :
    ((drain answers busy_writer (nothing_sent ramped [] (pos 9))).0.phase ≡ returned)
    × ((drain (succeeding answers) busy_writer (nothing_sent ramped [] (pos 9))).1.sent
        ≡ text "c" ∷ text "b" ∷ text "a" ∷ [])
closed_writer_returns_example =
    closed_writer_returns answers busy_writer (nothing_sent ramped [] (pos 9)) (omega arith)
