-- ===== src/Benchmark/Pipeline.antt =====
-- benchmark/main.go: `benchmarkPipeline`, which measures the pipeline's latency under each load.
pub mod Results
pub mod Ends
use toll_calc.Common.{
  ℕ, zero, suc, ◌+◌, ◌*◌, ◌/◌, ◌%◌, ◌≤◌, ◌≡◌, refl, Bool, true, false, ◌&&◌, ◌^◌, Option, none,
  some, ◌⊎◌, inl, inr, List, [], ◌∷◌, arith, ltb, nat_eq, if◌then◌else◌, Bool-cases, Option-cases,
}
use toll_calc.Common.Int.{ℤ, pos, pos_part}
use toll_calc.Common.Text.{Text, text, itoa}
use toll_calc.Float.{Float64}
use toll_calc.Types.{word}
use toll_calc.Benchmark.{Config, Measured}
use toll_calc.Benchmark.Polling.{Clock}
use toll_calc.Benchmark.Histogram.{
  Histogram, ScrapeError, Page, scrape_histogram, samples_of, subtract_histogram,
}
use toll_calc.Benchmark.Waiting.{WaitError, wait_for_samples, drain_pause}
use toll_calc.Benchmark.Quantile.{histogram_quantile}
use toll_calc.Benchmark.Load.{SendError, Sockets, send_pipeline_load, second}

pub data PipelineError : Type 0 where
  scrape_error : ScrapeError → PipelineError
  wait_error : WaitError → PipelineError
  send_error : SendError → PipelineError
  -- the loop of `waitForSamples` is not over after the rounds it is given
  still_waiting : PipelineError
  sample_count_mismatch : PipelineError

-- The rest of a function, which an error skips.
abbrev pub and_then :
    {A B W : Type 0}
    → (PipelineError ⊎ A) × W
    → (A → W → (PipelineError ⊎ B) × W)
    → (PipelineError ⊎ B) × W
and_then (inl e, w) rest = (inl e, w)
and_then (inr a, w) rest = rest a w

-- The rounds that a timeout has room for, and one more.
abbrev pub rounds_of : ℕ → ℕ
rounds_of timeout = suc (timeout / drain_pause + 1)

-- What the benchmark of the pipeline uses of the world.
pub record Rig (F W : Type 0) : Type 0 where
  -- `strconv.ParseFloat`; `none` is an error
  pub parse_float : Text → Option F
  pub clock : Clock W
  -- `GET` of the metrics page within the timeout; `none` is an error
  pub fetch : W → Option Page × W
  pub sockets : Sockets F W

module _ {F W : Type 0} ⦃f : Float64 F⦄ (rig : Rig F W) where
  abbrev pub scraped : ScrapeError ⊎ Histogram F → PipelineError ⊎ Histogram F
  scraped (inl e) = inl (scrape_error e)
  scraped (inr values) = inr values

  abbrev pub scrape : W → (PipelineError ⊎ Histogram F) × W
  scrape w = let (page, w') = rig.fetch w in (scraped (scrape_histogram rig.parse_float page), w')

  abbrev pub sent : (ℕ × Option SendError) × W → (PipelineError ⊎ ℕ) × W
  sent ((n, none), w) = (inr n, w)
  sent ((n, some e), w) = (inl (send_error e), w)

  abbrev pub send : ℤ → ℕ → Text → W → (PipelineError ⊎ ℕ) × W
  send load duration label w = sent (send_pipeline_load rig.clock rig.sockets load duration label w)

  abbrev pub waited : Option (WaitError ⊎ Histogram F) × W → (PipelineError ⊎ Histogram F) × W
  waited (none, w) = (inl still_waiting, w)
  waited (some (inl e), w) = (inl (wait_error e), w)
  waited (some (inr values), w) = (inr values, w)

  abbrev pub wait : (want timeout : ℕ) → W → (PipelineError ⊎ Histogram F) × W
  wait want timeout w =
      waited
        (wait_for_samples rig.parse_float rig.clock rig.fetch (rounds_of timeout) want timeout w)

  -- `time.Duration(histogramQuantile(delta, q) * float64(time.Second))`
  abbrev pub latency : Histogram F → F → ℤ
  latency delta q = f.to_int (f.mul (histogram_quantile delta q) (f.of_int (pos second)))

  abbrev pub measured_at : ℤ → Histogram F → Measured
  measured_at load delta = record {
    name = itoa load;
    p95 = latency delta (f.literal 95 2);
    p99 = latency delta (f.literal 99 2);
  }

  abbrev pub conclude : ℤ → ℕ → Option (Histogram F) → PipelineError ⊎ Measured
  conclude load count none = inl sample_count_mismatch
  conclude load count (some delta) =
      if nat_eq (samples_of delta) count
      then inr (measured_at load delta)
      else inl sample_count_mismatch

  -- `max(30*time.Second, cfg.duration*3)`, where the product of two `int64` may wrap around, to a
  -- negative number too.
  abbrev pub drain_timeout : ℕ → ℕ
  drain_timeout duration =
      let tripled = duration * 3 % word in
      if ltb (30 * second) tripled && ltb tripled (2 ^ 63) then tripled else 30 * second

  abbrev pub read_after : Config → ℤ → Histogram F → ℕ → W → (PipelineError ⊎ Measured) × W
  read_after cfg load before count w =
      and_then (wait ((samples_of before + count) % word) (drain_timeout (pos_part cfg.duration)) w)
        (λ after w'. (conclude load count (subtract_histogram after before), w'))

  abbrev pub send_load : Config → ℤ → Histogram F → W → (PipelineError ⊎ Measured) × W
  send_load cfg load before w =
      and_then (send load (pos_part cfg.duration) (text "load") w) (read_after cfg load before)

  -- One load: the samples that it adds are as many as the events that were sent.
  unfoldable pub measure_load : Config → ℤ → W → (PipelineError ⊎ Measured) × W
  measure_load cfg load w = and_then (scrape w) (send_load cfg load)

  abbrev pub add_result : Measured → List Measured → W → (PipelineError ⊎ List Measured) × W
  add_result m ms w = (inr (m ∷ ms), w)

  unfoldable pub measure_loads : Config → List ℤ → W → (PipelineError ⊎ List Measured) × W
  measure_loads cfg [] w = (inr [], w)
  measure_loads cfg (load ∷ loads) w =
      and_then (measure_load cfg load w)
        (λ m w'. and_then (measure_loads cfg loads w') (add_result m))

  abbrev pub drain_warm_up : Config → Histogram F → ℕ → W → (PipelineError ⊎ List Measured) × W
  drain_warm_up cfg before count w =
      and_then (wait ((samples_of before + 100) % word) (30 * second) w)
        (λ values w'. measure_loads cfg cfg.loads w')

  abbrev pub warm_up : Config → Histogram F → W → (PipelineError ⊎ List Measured) × W
  warm_up cfg before w =
      and_then (send (pos 50) (2 * second) (text "warm") w) (drain_warm_up cfg before)

  -- A first load warms the pipeline up.
  unfoldable pub benchmark_pipeline : Config → W → (PipelineError ⊎ List Measured) × W
  benchmark_pipeline cfg w = and_then (scrape w) (warm_up cfg)
