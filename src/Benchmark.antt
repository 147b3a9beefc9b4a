-- ===== src/Benchmark.antt =====
-- benchmark/main.go: the benchmark's configuration and its results.
pub mod Percentile
pub mod Polling
pub mod Histogram
pub mod Waiting
pub mod Quantile
pub mod Load
pub mod Pipeline
pub mod Transport
pub mod Sends
pub mod Report
use toll_calc.Common.{
  ◌≡◌, ◌≢◌, refl, true, false, ◌||◌, Option, none, some, ◌⊎◌, inl, inr, List, [], ◌∷◌, arith,
  if◌then◌else◌, Bool-cases, Option-cases,
}
use toll_calc.Common.Int.{ℤ, pos, ltb_ℤ, leb_ℤ, ◌≤ℤ◌}
use toll_calc.Common.Text.{Text, text, atoi}
use toll_calc.Common.Strings.{split, split-ne-empty, trim_space}

-- What the flags set; durations are in nanoseconds.
pub record Flags : Type 0 where
  pub requests : ℤ
  pub concurrency : ℤ
  pub duration : ℤ
  pub loads : Text
  pub report : Text

pub record Config : Type 0 where
  pub requests : ℤ
  pub concurrency : ℤ
  pub duration : ℤ
  pub loads : List ℤ
  pub report : Text

-- `result`: a name and two latencies.
pub record Measured : Type 0 where
  pub name : Text
  pub p95 : ℤ
  pub p99 : ℤ

pub data FlagError : Type 0 where
  out_of_range : FlagError
  invalid_load : Text → FlagError

abbrev pub default_flags : Flags
default_flags = record {
  requests = pos 5000;
  concurrency = pos 20;
  duration = pos 5000000000;
  loads = text "100,500,1000";
  report = text "benchmark_report.md";
}

abbrev add_load : Text → Option ℤ → FlagError ⊎ List ℤ → FlagError ⊎ List ℤ
add_load t none rest = inl (invalid_load t)
add_load t (some load) rest =
    if leb_ℤ load (pos 0)
    then inl (invalid_load t)
    else elim rest [ inl e ↦ inl e | inr loads ↦ inr (load ∷ loads) ]

unfoldable pub parse_loads : List Text → FlagError ⊎ List ℤ
parse_loads [] = inr []
parse_loads (t ∷ ts) = add_load t (atoi (trim_space t)) (parse_loads ts)

abbrev with_loads : Flags → FlagError ⊎ List ℤ → FlagError ⊎ Config
with_loads flags (inl e) = inl e
with_loads flags (inr loads) = inr (record {
  requests = flags.requests;
  concurrency = flags.concurrency;
  duration = flags.duration;
  loads = loads;
  report = flags.report;
})

-- `command_line` is `flag.Parse`, which sets what the command line names.
unfoldable pub parse_config : (command_line : Flags → Flags) → FlagError ⊎ Config
parse_config command_line =
    let flags = command_line default_flags in
    if ltb_ℤ flags.requests (pos 100)
      || ltb_ℤ flags.concurrency (pos 1)
      || leb_ℤ flags.duration (pos 0)
    then inl out_of_range
    else with_loads flags (parse_loads (split b',' flags.loads))
