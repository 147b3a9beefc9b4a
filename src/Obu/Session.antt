-- ===== src/Obu/Session.antt =====
-- obu/main.go: `main`, with the opening and the closing of the connections and the summary. The
-- WebSocket package and the order in which the goroutines act are parameters.
pub mod Printed
pub mod Arrived
pub mod Gauge
use toll_calc.Common.{
  ℕ, zero, suc, ◌+◌, ◌^◌, ltb, ◌&&◌, Bool, true, false, Option, none, some, ◌⊎◌, inl, inr, List, [],
  ◌∷◌, if◌then◌else◌,
}
use toll_calc.Common.Int.{ℤ, pos, pos_part, of_bits, ◌+ℤ◌, ◌-ℤ◌}
use toll_calc.Common.Eq.{◌==◌, List-Eq, ℕ-Eq}
use toll_calc.Common.Text.{Text, text}
use toll_calc.Float.{Float64, seconds_of}
use toll_calc.Obu.{LoadConfig, LoadStats, ConfigError, validate_config}
use toll_calc.Obu.Assignment.{assigned_obus}
use toll_calc.Obu.Maximum.{Action, Sending}
use toll_calc.Obu.Ramp.{LoadPhase, RampError, parse_ramp}
use toll_calc.Obu.Reconciliation.{outcome}
use toll_calc.Obu.Fixed.{FixedAction, FixedRun}
use toll_calc.Obu.Fixed.Reconciliation.{fixed_outcome}

-- The WebSocket package, on connections that are numbered in the order of their opening; `true`
-- stands for a nil error.
pub record Dialer (W : Type 0) : Type 0 where
  pub dial : ℕ → W → Bool × W
  -- the close message, and the end of the connection
  pub say_goodbye : ℕ → W → W

-- The world, and the gauge `obuActiveConnections`.
pub record Gauged (W : Type 0) : Type 0 where
  pub active : ℤ
  pub world : W

module _ {W : Type 0} (dialer : Dialer W) where
  -- The first so many connections, in order.
  unfoldable pub close_connections : ℕ → Gauged W → Gauged W
  close_connections zero s = s
  close_connections (suc k) s =
      let s' = close_connections k s in
      record { active = s'.active -ℤ pos 1; world = dialer.say_goodbye k s'.world }

  abbrev pub dialled : (Gauged W → Option ℕ × Gauged W) → ℕ → ℤ → Bool × W → Option ℕ × Gauged W
  dialled rest opened active (true, w) = rest (record { active = active +ℤ pos 1; world = w })
  dialled rest opened active (false, w) =
      (none, close_connections opened (record { active = active; world = w }))

  -- The number of the connections, or none after an error, which closes those that were opened.
  unfoldable pub dial_connections : (left opened : ℕ) → Gauged W → Option ℕ × Gauged W
  dial_connections zero opened s = (some opened, s)
  dial_connections (suc left) opened s =
      dialled (dial_connections left (suc opened)) opened s.active (dialer.dial opened s.world)

-- The line that is printed.
pub record Summary (F : Type 0) : Type 0 where
  pub mode : Text
  pub obus : ℤ
  pub connections : ℤ
  pub configured_rate : F
  pub elapsed_seconds : F
  pub events_attempted : ℕ
  pub events_written : ℕ
  pub write_failures : ℕ
  pub achieved_write_rate : F
  pub event_id_hash_xor : ℕ
  pub event_id_hash_sum : ℕ

-- Why `main` ends before a run.
pub data Refusal : Type 0 where
  invalid_config : ConfigError → Refusal
  invalid_ramp : RampError → Refusal
  not_connected : Refusal
  -- a panic of `make`, whose capacity has wrapped around to a negative number
  capacity_out_of_range : Refusal

-- What is printed at the end, and what the run shared.
pub record Report (F : Type 0) : Type 0 where
  pub summary : Summary F
  pub sending : Sending

-- The order in which the goroutines act, in either mode, the clock's `runID`, and how long it takes.
pub record Course (F : Type 0) : Type 0 where
  pub worker_actions : List (ℕ × Action F)
  pub fixed_actions : List (FixedAction F)
  pub run_id : ℤ
  pub elapsed : ℕ

-- `strings.Repeat("x", n)`
unfoldable pub padding_of : ℕ → Text
padding_of zero = []
padding_of (suc n) = b'x' ∷ padding_of n

abbrev with_obus : List ℕ → List (List ℤ) → List (List ℤ)
with_obus [] rest = rest
with_obus (obu ∷ obus) rest = numbers (obu ∷ obus) ∷ rest
  where
    numbers : List ℕ → List ℤ
    numbers [] = []
    numbers (n ∷ ns) = of_bits 64 n ∷ numbers ns

-- The OBUs of each worker from index `i` on; a connection without OBUs gets no worker.
unfoldable pub worker_obus : (total connections left i : ℕ) → List (List ℤ)
worker_obus total connections zero i = []
worker_obus total connections (suc left) i =
    with_obus (assigned_obus total connections i) (worker_obus total connections left (suc i))

-- Whether `cfg.OBUs+len(connections)-1` exceeds an `int` in mode max.
abbrev pub capacity_overflows : {F : Type 0} → LoadConfig F → ℕ → Bool
capacity_overflows cfg connections =
    cfg.mode == text "max" && ltb (2 ^ 63) (pos_part cfg.obus + connections)

module _ {F : Type 0} ⦃f : Float64 F⦄ where
  unfoldable pub print_summary : LoadConfig F → LoadStats → ℕ → Summary F
  print_summary cfg stats elapsed = record {
    mode = cfg.mode;
    obus = cfg.obus;
    connections = cfg.connections;
    configured_rate = cfg.rate;
    elapsed_seconds = seconds_of elapsed;
    events_attempted = stats.attempted;
    events_written = stats.written;
    write_failures = stats.failed;
    achieved_write_rate = f.div (f.of_int (pos stats.written)) (seconds_of elapsed);
    event_id_hash_xor = stats.hash_xor;
    event_id_hash_sum = stats.hash_sum;
  }

  -- The run over so many connections.
  unfoldable pub run_load : LoadConfig F → List (LoadPhase F) → Course F → ℕ → Sending
  run_load cfg phases course connections =
      let padding = padding_of (pos_part cfg.payload_bytes) in
      if cfg.mode == text "max"
      then (outcome cfg padding course.worker_actions
          (worker_obus (pos_part cfg.obus) connections connections 0) course.run_id).1
      else (fixed_outcome cfg padding course.fixed_actions connections phases course.run_id).sending

  module _ {W : Type 0} (dialer : Dialer W)
      -- `time.ParseDuration` and `strconv.ParseFloat`; `none` is an error
      (parse_duration : Text → Option ℤ) (parse_float : Text → Option F) where
    abbrev pub report_of : LoadConfig F → Course F → Sending → Report F
    report_of cfg course sending = record {
      summary = print_summary cfg sending.stats course.elapsed;
      sending = sending;
    }

    abbrev pub run_connected :
        LoadConfig F
        → List (LoadPhase F)
        → Course F
        → Option ℕ × Gauged W
        → (Refusal ⊎ Report F) × Gauged W
    run_connected cfg phases course (none, s) = (inl not_connected, s)
    run_connected cfg phases course (some connections, s) =
        if capacity_overflows cfg connections then (inl capacity_out_of_range, s) else (
          inr (report_of cfg course (run_load cfg phases course connections)),
          close_connections dialer connections s,
        )

    abbrev pub run_phases :
        LoadConfig F
        → Course F
        → RampError ⊎ List (LoadPhase F)
        → Gauged W
        → (Refusal ⊎ Report F) × Gauged W
    run_phases cfg course (inl e) s = (inl (invalid_ramp e), s)
    run_phases cfg course (inr phases) s =
        run_connected cfg phases course (dial_connections dialer (pos_part cfg.connections) 0 s)

    abbrev pub run_valid :
        LoadConfig F → Course F → Option ConfigError → Gauged W → (Refusal ⊎ Report F) × Gauged W
    run_valid cfg course (some e) s = (inl (invalid_config e), s)
    run_valid cfg course none s =
        run_phases cfg course (parse_ramp parse_duration parse_float cfg.ramp) s

    -- `main`, from the flags on.
    unfoldable pub load_main : LoadConfig F → Course F → Gauged W → (Refusal ⊎ Report F) × Gauged W
    load_main cfg course s = run_valid cfg course (validate_config cfg) s
