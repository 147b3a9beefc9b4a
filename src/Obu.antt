-- ===== src/Obu.antt =====
-- obu/main.go: the load generator's configuration, its events and its statistics.
pub mod Settings
pub mod Ramp
pub mod Assignment
pub mod Maximum
pub mod Fixed
pub mod Session
pub mod Accepted
pub mod Conservation
pub mod Reconciliation
use Prim.Native.Nat.{bit_xor}
use toll_calc.Common.{
  ℕ, ◌+◌, ◌-◌, ◌%◌, ◌^◌, Bool, true, false, not, ◌&&◌, ◌||◌, Option, none, some, List, [], ◌∷◌,
  ◌++◌, if◌then◌else◌,
}
use toll_calc.Common.Int.{ℤ, pos, ltb_ℤ, leb_ℤ, pos_part}
use toll_calc.Common.Eq.{◌==◌, List-Eq, ℕ-Eq}
use toll_calc.Common.Text.{Text, text, is_empty, itoa}
use toll_calc.Float.{Float64}
use toll_calc.Types.{ObuData, event_id_fingerprint, word}

-- The settings that the load depends on; durations are in nanoseconds.
pub record LoadConfig (F : Type 0) : Type 0 where
  pub obus : ℤ
  pub rate : F
  pub connections : ℤ
  pub duration : ℤ
  pub payload_bytes : ℤ
  pub mode : Text
  pub seed : ℤ
  pub ramp : Text

-- Atomic 64-bit words, and the number of the run.
pub record LoadStats : Type 0 where
  pub attempted : ℕ
  pub written : ℕ
  pub failed : ℕ
  pub sequence : ℕ
  pub hash_xor : ℕ
  pub hash_sum : ℕ
  pub run_id : ℤ

abbrev pub zero_stats : ℤ → LoadStats
zero_stats run = record {
  attempted = 0;
  written = 0;
  failed = 0;
  sequence = 0;
  hash_xor = 0;
  hash_sum = 0;
  run_id = run;
}

pub data ConfigError : Type 0 where
  not_positive negative_payload unknown_mode ramp_in_max_mode rate_not_positive : ConfigError

module _ {F : Type 0} ⦃f : Float64 F⦄ where
  -- `none` is a nil error.
  unfoldable pub validate_config : LoadConfig F → Option ConfigError
  validate_config cfg =
      if leb_ℤ cfg.obus (pos 0) || leb_ℤ cfg.connections (pos 0)
      then some not_positive
      else if ltb_ℤ cfg.payload_bytes (pos 0)
      then some negative_payload
      else if not (cfg.mode == text "fixed") && not (cfg.mode == text "max")
      then some unknown_mode
      else if cfg.mode == text "max" && not (is_empty cfg.ramp)
      then some ramp_in_max_mode
      else if cfg.mode == text "fixed" && f.le cfg.rate f.nought && is_empty cfg.ramp
      then some rate_not_positive
      else none

-- `fmt.Sprintf("%d-%d-%d", cfg.Seed, stats.runID, sequence)`
unfoldable pub event_id_of : (seed run_id : ℤ) → ℕ → Text
event_id_of seed run_id sequence =
    itoa seed ++ (text "-" ++ (itoa run_id ++ (text "-" ++ itoa (pos sequence))))

-- What the clock and the random numbers give for one event.
pub record Sample (F : Type 0) : Type 0 where
  pub now : ℤ
  pub lat : F
  pub lon : F

module _ {F : Type 0} where
  unfoldable pub event_for_obu :
      LoadConfig F → Sample F → Text → ℤ → LoadStats → ObuData F × LoadStats
  event_for_obu cfg sample payload obu s =
      let sequence' = (s.sequence + 1) % word in
      (
        record {
          event_id = event_id_of cfg.seed s.run_id sequence';
          produced_at_unix_nano = sample.now;
          obu_id = obu;
          lat = sample.lat;
          lon = sample.lon;
          payload = payload;
        },
        record s { sequence = sequence' },
      )

  -- The OBU of the next event: they take turns. The configuration has been validated.
  unfoldable pub next_obu : LoadConfig F → LoadStats → ℕ
  next_obu cfg s =
      let sequence = (s.sequence + 1) % word in (sequence + word - 1) % word % pos_part cfg.obus + 1

  unfoldable pub next_event : LoadConfig F → Sample F → Text → LoadStats → ObuData F × LoadStats
  next_event cfg sample payload s = event_for_obu cfg sample payload (pos (next_obu cfg s)) s

unfoldable pub record_attempt : LoadStats → LoadStats
record_attempt s = record s { attempted = (s.attempted + 1) % word }

unfoldable pub record_success : Text → LoadStats → LoadStats
record_success event_id s =
    let fingerprint = event_id_fingerprint event_id in
    record s {
      written = (s.written + 1) % word;
      hash_sum = (s.hash_sum + fingerprint) % word;
      hash_xor = bit_xor s.hash_xor fingerprint;
    }

unfoldable pub record_failure : LoadStats → LoadStats
record_failure s = record s { failed = (s.failed + 1) % word }
