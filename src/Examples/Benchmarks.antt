-- ===== src/Examples/Benchmarks.antt =====
-- The benchmark's parts on small instances.
use toll_calc.Common.{
  ℕ, ◌+◌, ◌<◌, ◌≤◌, ◌≡◌, refl, true, Option, none, some, inl, inr, List, [], ◌∷◌, ◌++◌, arith,
  if◌then◌else◌,
}
use toll_calc.Common.Int.{ℤ, pos, ◌*ℤ◌}
use toll_calc.Common.Eq.{◌==◌, List-Eq, ℕ-Eq}
use toll_calc.Common.Text.{Text, text, atoi, decimal, parse_uint}
use toll_calc.Common.Strings.{split, trim_space, after_prefix, before_byte, fields}
use toll_calc.Float.Grid.{Grid, inf, whole, Grid-Float64, Grid-IsFloat}
use toll_calc.Benchmark.{out_of_range, parse_config, parse_loads}
use toll_calc.Benchmark.Percentile.{percentile, rank_of, below, up_to, count, percentile_has_rank}
use toll_calc.Benchmark.Polling.{Clock, IsClock}
use toll_calc.Benchmark.Histogram.{
  Histogram, Page, bucket_prefix, count_at, raised_by, find_count, set_count, scan_line, scan_lines,
  scrape_histogram, subtract_histogram, subtract_histogram-restores,
}
use toll_calc.Benchmark.Waiting.{HasReturned, wait_for_samples, wait_for_samples_returns}

-- The usual settings and other loads.
parse_config_runs :
    (parse_config (λ flags. record flags { loads = text " 5, 7" })
      ≡ inr (record {
        requests = pos 5000;
        concurrency = pos 20;
        duration = pos 5000000000;
        loads = pos 5 ∷ pos 7 ∷ [];
        report = text "benchmark_report.md";
      }))
    × (parse_config (λ flags. record flags { requests = pos 99 }) ≡ inl out_of_range)
unfolding parse_config parse_loads split trim_space atoi
parse_config_runs = (refl, refl)

abbrev latencies : List ℤ
latencies = pos 5 ∷ pos 3 ∷ pos 9 ∷ pos 1 ∷ []

last_rank : rank_of (whole (pos 1)) 4 ≡ pos 4
unfolding ◌*ℤ◌
last_rank = refl

percentile_has_rank_example :
    (v : ℤ) × (percentile latencies (whole (pos 1)) ≡ some v)
    × (count (below v) latencies ≤ 3)
    × (3 < count (up_to v) latencies)
percentile_has_rank_example =
    percentile_has_rank latencies (whole (pos 1)) 3 last_rank (omega arith)

-- A world with a clock, in which so many samples have been counted.
pub record World : Type 0 where
  pub time : ℕ
  pub samples : ℕ

abbrev pub clock : Clock World
clock = record { now = λ w. w.time; sleep = λ d w. record w { time = w.time + d } }

pub clock-IsClock : IsClock clock
clock-IsClock = record { sleep_advances = λ d w. omega arith }

abbrev pub bound_of : Text → Option Grid
bound_of t =
    if t == text "+Inf" then some inf else elim (atoi t) [ none ↦ none | some n ↦ some (whole n) ]

abbrev bucket : Text → ℕ → Text
bucket bound n = bucket_prefix ++ (bound ++ (text "\"} " ++ decimal n))

abbrev pub page_of : ℕ → Page
page_of n = record {
  lines = text "# HELP tollify" ∷ bucket (text "1") 0 ∷ bucket (text "+Inf") n ∷ [];
  complete = true;
}

-- Every reading takes a millisecond, in which another sample comes.
abbrev fetch : World → Option Page × World
fetch w = (some (page_of w.samples), record { time = w.time + 1000000; samples = w.samples + 1 })

scrape_runs :
    (scrape_histogram bound_of (some (page_of 7)) ≡ inr ((whole (pos 1), 0) ∷ (inf, 7) ∷ []))
unfolding scrape_histogram scan_lines scan_line set_count after_prefix before_byte fields atoi
    parse_uint decimal
scrape_runs = refl

wait_for_samples_returns_example :
    HasReturned bound_of clock fetch 3 1000000000
      (wait_for_samples bound_of clock fetch 21 3 1000000000 (record { time = 0; samples = 1 }))
wait_for_samples_returns_example =
    wait_for_samples_returns bound_of clock fetch clock-IsClock (λ w. omega arith) 20 3 1000000000
      (record { time = 0; samples = 1 }) (omega arith)

abbrev earlier : Histogram Grid
earlier = (whole (pos 1), 2) ∷ (inf, 5) ∷ []

abbrev later : Histogram Grid
later = (inf, 9) ∷ (whole (pos 1), 2) ∷ []

abbrev added : Histogram Grid
added = (inf, 4) ∷ (whole (pos 1), 0) ∷ []

later_less_earlier : subtract_histogram later earlier ≡ some added
unfolding subtract_histogram find_count
later_less_earlier = refl

subtract_histogram-restores_example :
    find_count inf later ≡ raised_by (count_at inf earlier) (find_count inf added)
subtract_histogram-restores_example =
    subtract_histogram-restores Grid-IsFloat later earlier added inf later_less_earlier
