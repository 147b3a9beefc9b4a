-- ===== src/Examples/Loads.antt =====
-- The load generator's settings.
use toll_calc.Common.{
  if◌then◌else◌, arith, ℕ, ◌+◌, ◌%◌, ◌≡◌, refl, true, Option, none, some, List, [], ◌∷◌,
}
use toll_calc.Common.Int.{ℤ, pos}
use toll_calc.Common.Eq.{◌==◌, List-Eq, ℕ-Eq}
use toll_calc.Common.Text.{Text, text, atoi, is_empty}
use toll_calc.Common.Strings.{split, trim_space}
use toll_calc.Float.Grid.{Grid, whole, Grid-Float64}
use mathlib.Core.List.{Nodup}
use toll_calc.Types.{Distance, word}
use toll_calc.Aggregator.Store.{reconciliation, new_memory_store}
use toll_calc.Aggregator.Store.Ledger.{recorded}
use toll_calc.Aggregator.Store.Replay.{insert_all}
use toll_calc.Aggregator.Store.Fingerprint.{mem}
use toll_calc.Obu.Maximum.{
  Sending, Action, generate, write_succeeds, write_fails, run_maximum_throughput,
}
use toll_calc.Obu.Settings.{parse_flags}
use toll_calc.Common.Strings.{to_lower}
use toll_calc.Obu.Assignment.{takes, assigned_obus, takes-assigned_obus}
use toll_calc.Obu.Conservation.{in_flight}
use toll_calc.Obu.Reconciliation.{outcome, run_conserves_events, run_reconciles}
use toll_calc.Obu.{
  Sample, event_for_obu, record_attempt, record_success, record_failure, LoadConfig,
  validate_config,
}
use toll_calc.Obu.Ramp.{
  LoadPhase, parse_ramp, planned_phases, AllPositive, planned_phases-AllPositive,
  blank_ramp_bypasses_check,
}

abbrev pub duration_of : Text → Option ℤ
duration_of t = atoi t

abbrev rate_from : Option ℤ → Option Grid
rate_from none = none
rate_from (some n) = some (whole n)

abbrev pub rate_of : Text → Option Grid
rate_of t = rate_from (atoi t)

abbrev pub ramped : LoadConfig Grid
ramped = record {
  obus = pos 10;
  rate = whole (pos 0);
  connections = pos 2;
  duration = pos 60;
  payload_bytes = pos 0;
  mode = text "fixed";
  seed = pos 1;
  ramp = text "5:10,6:20";
}

abbrev pub phases : List (LoadPhase Grid)
phases =
    record { duration = pos 5; rate = whole (pos 10) }
    ∷ record { duration = pos 6; rate = whole (pos 20) }
    ∷ []

planned_phases-ramped : planned_phases duration_of rate_of ramped ≡ some phases
unfolding planned_phases validate_config parse_ramp split trim_space atoi
planned_phases-ramped = refl

not_blank : is_empty (text "5:10,6:20") ≡ is_empty (trim_space (text "5:10,6:20"))
unfolding trim_space
not_blank = refl

planned_phases-AllPositive_example : AllPositive duration_of rate_of phases
planned_phases-AllPositive_example =
    planned_phases-AllPositive duration_of rate_of ramped phases refl not_blank
      planned_phases-ramped

abbrev blank : LoadConfig Grid
blank = record ramped { ramp = text " " }

is_blank : is_empty (trim_space (text " ")) ≡ true
unfolding trim_space
is_blank = refl

-- The rate is zero.
blank_ramp_bypasses_check_example :
    planned_phases duration_of rate_of blank
    ≡ some (record { duration = pos 60; rate = whole (pos 0) } ∷ [])
blank_ramp_bypasses_check_example =
    blank_ramp_bypasses_check duration_of rate_of blank refl refl refl refl refl is_blank

abbrev pub sample : Sample Grid
sample = record { now = pos 100; lat = whole (pos 1); lon = whole (pos 2) }

-- Two workers; the second one's first write fails.
abbrev actions : List (ℕ × Action Grid)
actions =
    (0, generate sample)
    ∷ (1, generate sample)
    ∷ (0, write_succeeds)
    ∷ (1, write_fails)
    ∷ (0, generate sample)
    ∷ (0, write_succeeds)
    ∷ (0, generate sample)
    ∷ []

abbrev assigned : List (List ℤ)
assigned = (pos 1 ∷ pos 3 ∷ []) ∷ (pos 2 ∷ []) ∷ []

abbrev after_run : Sending
after_run = (outcome ramped (text "x") actions assigned (pos 9)).1

run_conserves_events_example :
    let (ws, s) = outcome ramped (text "x") actions assigned (pos 9) in
    (s.stats.attempted ≡ (s.stats.written + s.stats.failed + in_flight ws) % word) × Nodup s.sent
run_conserves_events_example =
    run_conserves_events ramped (text "x") actions assigned (pos 9) (omega arith)

-- The run attempts four events, of which two are written and one fails.
run_counts :
    (after_run.stats.attempted ≡ 4) × (after_run.stats.written ≡ 2) × (after_run.stats.failed ≡ 1)
unfolding run_maximum_throughput event_for_obu record_attempt record_success record_failure
run_counts = (refl, refl, refl)

-- Each event is delivered twice.
abbrev pub twice : List Text → List (Distance Grid)
twice [] = []
twice (e ∷ es) =
    let d : Distance Grid = record {
      event_id = e;
      produced_at_unix_nano = pos 100;
      value = whole (pos 1);
      obu_id = pos 1;
    } in
    d ∷ d ∷ twice es

pub recorded-twice : (e : Text) (es : List Text) → recorded e (twice es) ≡ mem e es
recorded-twice e [] = refl
recorded-twice e (x ∷ es) = ground (arith, recorded-twice e es)

run_reconciles_example :
    let r = reconciliation (insert_all (twice after_run.sent) new_memory_store).1 in
    (r.count ≡ after_run.stats.written)
    × (r.xor_hash ≡ after_run.stats.hash_xor)
    × (r.sum_hash ≡ after_run.stats.hash_sum)
run_reconciles_example =
    run_reconciles ramped (text "x") actions assigned (pos 9) (twice after_run.sent) (omega arith)
      (λ e named. recorded-twice e after_run.sent)

takes-assigned_obus_example : takes 6 (assigned_obus 10 3 2) ≡ true
takes-assigned_obus_example = takes-assigned_obus 10 3 2 5 (omega arith) (omega arith) (omega arith)

-- The environment of a shell in which only the mode is set.
abbrev environment : Text → Text
environment key = if key == text "OBU_LOAD_MODE" then text "MAX" else []

default_settings :
    let cfg = parse_flags duration_of rate_of environment (λ flags. flags) in
    (cfg.mode ≡ text "max") × (cfg.obus ≡ pos 20) × (validate_config cfg ≡ none)
unfolding parse_flags validate_config to_lower atoi
default_settings = (refl, refl, refl)
