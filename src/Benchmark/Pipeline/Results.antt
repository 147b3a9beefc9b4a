-- ===== src/Benchmark/Pipeline/Results.antt =====
-- What `benchmarkPipeline` has measured when it returns without an error.
use toll_calc.Common.{
  ℕ, ◌+◌, ◌*◌, ◌%◌, ◌≡◌, refl, Option, none, some, ◌⊎◌, inl, inr, List, [], ◌∷◌, arith, nat_eq, ap,
  subst, Bool-cases,
}
use toll_calc.Common.Int.{ℤ, pos, pos_part}
use toll_calc.Common.Text.{text}
use toll_calc.Float.{Float64, IsFloat}
use toll_calc.Types.{word}
use toll_calc.Benchmark.{Config, Measured}
use toll_calc.Benchmark.Histogram.{
  Histogram, samples_of, count_at, find_count, raised_by, subtract_histogram,
  subtract_histogram-restores,
}
use toll_calc.Benchmark.Load.{SendError, send_pipeline_load, second}
use toll_calc.Benchmark.Pipeline.{
  Rig, send_load, read_after, add_result, warm_up, drain_warm_up, PipelineError, and_then, scrape,
  sent, send, wait, drain_timeout, conclude, measured_at, measure_load, measure_loads,
  benchmark_pipeline,
}

-- A chain that returns has gone through its first part.
and_then-inr :
    {A B W : Type 0} (x : (PipelineError ⊎ A) × W) (rest : A → W → (PipelineError ⊎ B) × W) (b : B)
    (w : W)
    → and_then x rest ≡ (inr b, w)
    → (a : A) × (v : W) × (x ≡ (inr a, v)) × (rest a v ≡ (inr b, w))
and_then-inr (inl e, v) rest b w h = ground (arith, h)
and_then-inr (inr a, v) rest b w h = (a, v, refl, h)

module _ {F W : Type 0} ⦃f : Float64 F⦄ (rig : Rig F W) where
  -- The waiting loop returns a histogram, once the samples are those before and as many more.
  abbrev IsReadAfter : Config → Histogram F → ℕ → Histogram F → W → W → Type 0
  IsReadAfter cfg before count after w w' =
      wait rig ((samples_of before + count) % word) (drain_timeout rig (pos_part cfg.duration)) w
      ≡ (inr after, w')

  -- A measurement between two states of the world: a histogram was read, the load was sent without an error, and another histogram
  -- was read; the quantiles are those of what each bucket has gained between the two readings, of
  -- which there are as many samples as events were sent.
  pub record IsMeasured (cfg : Config) (load : ℤ) (start : W) (m : Measured) (end : W)
      : Type 0 where
    pub before : Histogram F
    pub after : Histogram F
    pub delta : Histogram F
    pub count : ℕ
    pub before_sending : W
    pub after_sending : W
    pub read_before : scrape rig start ≡ (inr before, before_sending)
    pub was_sent :
        send_pipeline_load rig.clock rig.sockets load
          (pos_part cfg.duration)
          (text "load")
          before_sending
        ≡ ((count, none), after_sending)
    pub read_after : IsReadAfter cfg before count after after_sending end
    pub gained :
        (bound : F)
        → find_count bound after ≡ raised_by (count_at bound before) (find_count bound delta)
    pub counted : samples_of delta ≡ count
    pub measured : m ≡ measured_at rig load delta

  -- The measurements of all loads, one after the other, from the first state to the last.
  abbrev pub AllMeasured : Config → W → List ℤ → List Measured → W → Type 0
  AllMeasured cfg w [] [] w' = w ≡ w'
  AllMeasured cfg w (load ∷ loads) (m ∷ ms) w' =
      (v : W) × IsMeasured cfg load w m v × AllMeasured cfg v loads ms w'
  AllMeasured cfg w _ _ w' = ⊥

  -- A difference that the benchmark accepts.
  conclude-inr :
      (load : ℤ) (count : ℕ) (d : Option (Histogram F)) (m : Measured)
      → conclude rig load count d ≡ inr m
      → (delta : Histogram F) × (d ≡ some delta)
        × (samples_of delta ≡ count)
        × (m ≡ measured_at rig load delta)
  conclude-inr load count none m h = ground (arith, h)
  conclude-inr load count (some delta) m h = elim (Bool-cases (nat_eq (samples_of delta) count)) [
    | inl counted ↦ (delta, refl, ground (arith, counted), ground (arith, counted, h))
    | inr off ↦ absurd (ground (arith, off, h))
  ]

  sent-inr :
      (out : (ℕ × Option SendError) × W) (count : ℕ) (w : W)
      → sent rig out ≡ (inr count, w)
      → out ≡ ((count, none), w)
  sent-inr ((n, none), v) count w h = ground (arith, h)
  sent-inr ((n, some e), v) count w h = ground (arith, h)

  measure_load-IsMeasured :
      (laws : IsFloat F) (cfg : Config) (load : ℤ) (w w' : W) (m : Measured)
      → measure_load rig cfg load w ≡ (inr m, w')
      → IsMeasured cfg load w m w'
  unfolding measure_load
  measure_load-IsMeasured laws cfg load w w' m h =
      let (before, w₁, scraping, h₁) =
        and_then-inr (scrape rig w) (send_load rig cfg load) m w' h in
      let (count, w₂, sending, h₂) =
        and_then-inr (send rig load (pos_part cfg.duration) (text "load") w₁)
          (read_after rig cfg load before) m w' h₁ in
      let (after, w₃, waiting, h₃) =
        and_then-inr
          (wait rig ((samples_of before + count) % word) (drain_timeout rig (pos_part cfg.duration))
            w₂)
          (λ after v. (conclude rig load count (subtract_histogram after before), v)) m w' h₂ in
      let (delta, differ, counted, measured) =
        conclude-inr load count (subtract_histogram after before) m (ap (λ o. o.0) h₃) in
      record {
        before = before;
        after = after;
        delta = delta;
        count = count;
        before_sending = w₁;
        after_sending = w₂;
        read_before = scraping;
        was_sent = sent-inr _ count w₂ sending;
        read_after = subst (IsReadAfter cfg before count after w₂) (ap (λ o. o.1) h₃) waiting;
        gained = λ bound. subtract_histogram-restores laws after before delta bound differ;
        counted = counted;
        measured = measured;
      }

  measure_loads-AllMeasured :
      (laws : IsFloat F) (cfg : Config) (loads : List ℤ) (w w' : W) (ms : List Measured)
      → measure_loads rig cfg loads w ≡ (inr ms, w')
      → AllMeasured cfg w loads ms w'
  unfolding measure_loads
  measure_loads-AllMeasured laws cfg [] w w' [] h = ground (arith, h)
  measure_loads-AllMeasured laws cfg [] w w' (m ∷ ms) h = ground (arith, h)
  measure_loads-AllMeasured laws cfg (load ∷ loads) w w' ms h =
      let (m, w₁, first, h₁) =
        and_then-inr (measure_load rig cfg load w)
          (λ m v. and_then (measure_loads rig cfg loads v) (add_result rig m)) ms w' h in
      let (rest, w₂, others, h₂) =
        and_then-inr (measure_loads rig cfg loads w₁) (add_result rig m) ms w' h₁ in
      let whole : m ∷ rest ≡ ms = ground (arith, h₂) in
      let last : w₂ ≡ w' = ap (λ o. o.1) h₂ in
      subst (λ ms. AllMeasured cfg w (load ∷ loads) ms w') whole
        (
          w₁,
          measure_load-IsMeasured laws cfg load w w₁ m first,
          subst (AllMeasured cfg w₁ loads rest) last
              (measure_loads-AllMeasured laws cfg loads w₁ w₂ rest others),
        )

  pub benchmark_pipeline-AllMeasured :
      (laws : IsFloat F) (cfg : Config) (w w' : W) (ms : List Measured)
      → benchmark_pipeline rig cfg w ≡ (inr ms, w')
      → (v : W) × AllMeasured cfg v cfg.loads ms w'
  unfolding benchmark_pipeline
  benchmark_pipeline-AllMeasured laws cfg w w' ms h =
      let (before, w₁, scraping, h₁) = and_then-inr (scrape rig w) (warm_up rig cfg) ms w' h in
      let (count, w₂, sending, h₂) =
        and_then-inr (send rig (pos 50) (2 * second) (text "warm") w₁)
          (drain_warm_up rig cfg before) ms w' h₁ in
      let (values, w₃, waiting, h₃) =
        and_then-inr (wait rig ((samples_of before + 100) % word) (30 * second) w₂)
          (λ values v. measure_loads rig cfg cfg.loads v) ms w' h₂ in
      (w₃, measure_loads-AllMeasured laws cfg cfg.loads w₃ w' ms h₃)
