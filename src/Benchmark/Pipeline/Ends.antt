-- ===== src/Benchmark/Pipeline/Ends.antt =====
-- How `benchmarkPipeline` ends: the rounds that its waiting loops are given are enough.
use toll_calc.Common.{
  ℕ, ◌+◌, ◌*◌, ◌/◌, ◌%◌, ◌≤◌, ◌≡◌, ◌≢◌, refl, Option, none, some, ◌⊎◌, inl, inr, List, [], ◌∷◌,
  arith, ap, nat_eq, Bool-cases,
}
use toll_calc.Common.Int.{ℤ, pos}
use toll_calc.Common.Text.{Text}
use toll_calc.Float.{Float64, IsFloat}
use toll_calc.Types.{word}
use toll_calc.Benchmark.{Config, Measured}
use toll_calc.Benchmark.Polling.{IsClock}
use toll_calc.Benchmark.Histogram.{
  Histogram, ScrapeError, scrape_histogram, samples_of, subtract_histogram,
}
use toll_calc.Benchmark.Load.{SendError, send_pipeline_load, second}
use toll_calc.Benchmark.Waiting.{WaitError, wait_for_samples_returns, HasReturned, drain_pause}
use toll_calc.Benchmark.Pipeline.Results.{AllMeasured, benchmark_pipeline-AllMeasured}
use toll_calc.Benchmark.Pipeline.{
  Rig, PipelineError, still_waiting, and_then, scraped, scrape, sent, send, waited, wait, conclude,
  read_after, measure_load, add_result, measure_loads, drain_warm_up, benchmark_pipeline,
}

-- It is over, and not because a loop has run out of rounds.
abbrev pub IsOver : {A W : Type 0} → (PipelineError ⊎ A) × W → Type 0
IsOver out = out.0 ≢ inl still_waiting

and_then-IsOver :
    {A B W : Type 0} (x : (PipelineError ⊎ A) × W) (rest : A → W → (PipelineError ⊎ B) × W)
    → IsOver x
    → ((a : A) (w : W) → IsOver (rest a w))
    → IsOver (and_then x rest)
and_then-IsOver (inl e, w) rest over h = λ same. over (ground (arith, same))
and_then-IsOver (inr a, w) rest over h = h a w

module _ {F W : Type 0} ⦃f : Float64 F⦄ (rig : Rig F W) where
  -- How the benchmark ends: with an error of the code, or with the results of all loads.
  abbrev pub HasEnded : Config → (PipelineError ⊎ List Measured) × W → Type 0
  HasEnded cfg (inl e, w) = e ≢ still_waiting
  HasEnded cfg (inr ms, w) = (v : W) × AllMeasured rig cfg v cfg.loads ms w

module _ {F W : Type 0} ⦃f : Float64 F⦄ (rig : Rig F W) (laws : IsClock rig.clock)
    (forward : (w : W) → rig.clock.now w ≤ rig.clock.now (rig.fetch w).1) where
  scraped-IsOver : (r : ScrapeError ⊎ Histogram F) (w : W) → IsOver (scraped rig r, w)
  scraped-IsOver (inl e) w = λ h. ground (arith, h)
  scraped-IsOver (inr values) w = λ h. ground (arith, h)

  scrape-IsOver : (w : W) → IsOver (scrape rig w)
  scrape-IsOver w =
      scraped-IsOver (scrape_histogram rig.parse_float (rig.fetch w).0) (rig.fetch w).1

  sent-IsOver : (out : (ℕ × Option SendError) × W) → IsOver (sent rig out)
  sent-IsOver ((n, none), w) = λ h. ground (arith, h)
  sent-IsOver ((n, some e), w) = λ h. ground (arith, h)

  send-IsOver : (load : ℤ) (d : ℕ) (label : Text) (w : W) → IsOver (send rig load d label w)
  send-IsOver load d label w = sent-IsOver (send_pipeline_load rig.clock rig.sockets load d label w)

  waited-IsOver :
      (want deadline : ℕ) (out : Option (WaitError ⊎ Histogram F) × W)
      → HasReturned rig.parse_float rig.clock rig.fetch want deadline out
      → IsOver (waited rig out)
  waited-IsOver want deadline (none, w) returned = absurd returned
  waited-IsOver want deadline (some (inl e), w) returned = λ h. ground (arith, h)
  waited-IsOver want deadline (some (inr values), w) returned = λ h. ground (arith, h)

  wait-IsOver : (want timeout : ℕ) (w : W) → IsOver (wait rig want timeout w)
  wait-IsOver want timeout w = waited-IsOver want _ _ (
      wait_for_samples_returns rig.parse_float rig.clock rig.fetch laws forward
        (timeout / drain_pause + 1) want timeout w (omega arith))

  conclude-IsOver :
      (load : ℤ) (count : ℕ) (delta : Option (Histogram F)) (w : W)
      → IsOver (conclude rig load count delta, w)
  conclude-IsOver load count none w = λ h. ground (arith, h)
  conclude-IsOver load count (some delta) w = elim (Bool-cases (nat_eq (samples_of delta) count)) [
    | inl same ↦ rw same (λ h. ground (arith, h))
    | inr other ↦ rw other (λ h. ground (arith, h))
  ]

  read_after-IsOver :
      (cfg : Config) (load : ℤ) (before : Histogram F) (count : ℕ) (w : W)
      → IsOver (read_after rig cfg load before count w)
  read_after-IsOver cfg load before count w =
      and_then-IsOver _ _ (wait-IsOver _ _ w)
        (λ after w'. conclude-IsOver load count (subtract_histogram after before) w')

  measure_load-IsOver : (cfg : Config) (load : ℤ) (w : W) → IsOver (measure_load rig cfg load w)
  unfolding measure_load
  measure_load-IsOver cfg load w = and_then-IsOver _ _ (scrape-IsOver w) (λ before w1.
      and_then-IsOver _ _ (send-IsOver load _ _ w1) (read_after-IsOver cfg load before))

  add_result-IsOver : (m : Measured) (ms : List Measured) (w : W) → IsOver (add_result rig m ms w)
  add_result-IsOver m ms w = λ h. ground (arith, h)

  measure_loads-IsOver :
      (cfg : Config) (loads : List ℤ) (w : W) → IsOver (measure_loads rig cfg loads w)
  unfolding measure_loads
  measure_loads-IsOver cfg [] w = λ h. ground (arith, h)
  measure_loads-IsOver cfg (load ∷ loads) w =
      and_then-IsOver _ _ (measure_load-IsOver cfg load w)
        (λ m w'. and_then-IsOver _ _ (measure_loads-IsOver cfg loads w') (add_result-IsOver m))

  drain_warm_up-IsOver :
      (cfg : Config) (before : Histogram F) (count : ℕ) (w : W)
      → IsOver (drain_warm_up rig cfg before count w)
  drain_warm_up-IsOver cfg before count w =
      and_then-IsOver _ _ (wait-IsOver ((samples_of before + 100) % word) (30 * second) w)
        (λ values. measure_loads-IsOver cfg cfg.loads)

  benchmark_pipeline-IsOver : (cfg : Config) (w : W) → IsOver (benchmark_pipeline rig cfg w)
  unfolding benchmark_pipeline
  benchmark_pipeline-IsOver cfg w = and_then-IsOver _ _ (scrape-IsOver w) (λ before w1.
      and_then-IsOver _ _ (send-IsOver (pos 50) _ _ w1) (drain_warm_up-IsOver cfg before))

  result-HasEnded :
      (floats : IsFloat F) (cfg : Config) (w : W) (out : (PipelineError ⊎ List Measured) × W)
      → benchmark_pipeline rig cfg w ≡ out
      → IsOver out
      → HasEnded rig cfg out
  result-HasEnded floats cfg w (inl e, w') run over = λ same. over (ap inl same)
  result-HasEnded floats cfg w (inr ms, w') run over =
      benchmark_pipeline-AllMeasured rig floats cfg w w' ms run

  -- Where the clock is monotonic, a sleep is at least as long as it should be and the clock does
  -- not go back while the metrics page is fetched, and with floats that obey `IsFloat`, the
  -- benchmark of the pipeline ends within the rounds that its waiting loops are given. It ends with
  -- an error of the code, or with one result for each load, in the order of the loads, measured one
  -- after the other up to the benchmark's last state. For each of these, a histogram was scraped, then the load was sent without an error, and then the waiting
  -- loop returned another histogram; the latencies of the result are the quantiles of a histogram
  -- that has at each bound of the later one what its count has gained on the earlier one, and no
  -- other bounds, and as many samples as events were sent.
  pub benchmark_pipeline_ends :
      (floats : IsFloat F) (cfg : Config) (w : W) → HasEnded rig cfg (benchmark_pipeline rig cfg w)
  benchmark_pipeline_ends floats cfg w =
      result-HasEnded floats cfg w (benchmark_pipeline rig cfg w) refl
        (benchmark_pipeline-IsOver cfg w)
