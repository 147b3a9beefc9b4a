-- ===== src/Aggregator/Accounting.antt =====
-- What the metrics of the service add up to.
use native.Mathlib.Nat.{add-zero, zero-add}
use toll_calc.Common.{
  suc, ℕ, ◌+◌, ◌%◌, ◌≤◌, ◌≡◌, sym, true, false, List, [], ◌∷◌, arith, if◌then◌else◌, inl, inr, ◌⊎◌,
}
use toll_calc.Common.Int.{ℤ, pos, ◌≤ℤ◌, ◌-ℤ◌}
use toll_calc.Common.Text.{length}
use toll_calc.Float.{Float64}
use toll_calc.Types.{Distance, word}
use toll_calc.Aggregator.{ok, err, invalid_distance, refused, aggregate_distance, Aggregator}
use toll_calc.Aggregator.Middleware.{Metrics, zero_metrics, Metered, observe, new_metric_middleware}
use toll_calc.Aggregator.Middleware
use toll_calc.Aggregator.Store.{
  MemoryStore, new_memory_store, count_event, insert, add_total, mark_processed,
}
use toll_calc.Aggregator.Refinement.{service}

abbrev pub NonNegative : List ℤ → Type 0
NonNegative [] = Unit
NonNegative (x ∷ xs) = (pos 0 ≤ℤ x) × NonNegative xs

module _ {F : Type 0} ⦃f : Float64 F⦄ where
  -- The service with its metrics, as `main` builds it.
  abbrev pub metered : Aggregator F (Metered (MemoryStore F))
  metered = new_metric_middleware service

  -- The clock may have any value at each call.
  abbrev pub at_time : ℤ → Metered (MemoryStore F) → Metered (MemoryStore F)
  at_time now s = record s { now = now }

  abbrev pub serve_all : List (ℤ × Distance F) → Metered (MemoryStore F) → Metered (MemoryStore F)
  serve_all [] s = s
  serve_all ((now, d) ∷ ds) s = serve_all ds (metered.aggregate_distance d (at_time now s)).1

  -- How many of the events the service refused.
  abbrev pub refusals : List (ℤ × Distance F) → ℕ
  refusals [] = 0
  refusals ((_, d) ∷ ds) = (if refused d then 1 else 0) + refusals ds

  -- What holds after so many calls and refusals.
  pub record IsAccounted (calls refused_calls : ℕ) (s : Metered (MemoryStore F)) : Type 0 where
    pub all_observed : s.metrics.operations ≡ calls
    pub all_counted : s.metrics.events_applied + s.metrics.duplicate_events + refused_calls ≡ calls
    pub no_store_errors : s.metrics.store_errors ≡ 0
    pub applied_reconciled : s.inner.reconcile.count ≡ s.metrics.events_applied % word
    pub samples_nonneg : NonNegative s.metrics.pipeline
    pub samples_applied : length s.metrics.pipeline ≤ s.metrics.events_applied

  -- A call is refused, or repeats an event and changes nothing, or applies one that is counted.
  service_cases :
      (d : Distance F) (m : MemoryStore F)
      → (refused d ≡ true) × (service.aggregate_distance d m ≡ (err invalid_distance, m))
        ⊎ (refused d ≡ false) × (service.aggregate_distance d m ≡ (ok false, m))
        ⊎ (refused d ≡ false)
          × ((service.aggregate_distance d m).0 ≡ ok true)
          × ((service.aggregate_distance d m).1.reconcile.count ≡ (m.reconcile.count + 1) % word)
  unfolding aggregate_distance insert add_total mark_processed count_event
  service_cases d m = ground arith

  at_time-IsAccounted :
      {n k : ℕ} {s : Metered (MemoryStore F)} (now : ℤ)
      → IsAccounted n k s
      → IsAccounted n k (at_time now s)
  at_time-IsAccounted now a = record {
    all_observed = a.all_observed;
    all_counted = a.all_counted;
    no_store_errors = a.no_store_errors;
    applied_reconciled = a.applied_reconciled;
    samples_nonneg = a.samples_nonneg;
    samples_applied = a.samples_applied;
  }

  applied_step :
      (n k : ℕ) (now : ℤ) (d : Distance F) (m : MemoryStore F) (s : Metered (MemoryStore F))
      → m.reconcile.count ≡ (s.inner.reconcile.count + 1) % word
      → IsAccounted n k s
      → IsAccounted
          (n + 1)
          k
          (record s { now = now; metrics = observe d (ok true) now s.metrics; inner = m })
  unfolding observe ◌-ℤ◌
  applied_step n k now d m s e a = record {
    all_observed = omega (arith, a.all_observed);
    all_counted = omega (arith, a.all_counted);
    no_store_errors = a.no_store_errors;
    applied_reconciled = omega (arith, a.applied_reconciled);
    samples_nonneg = ground (arith, a.samples_nonneg);
    samples_applied = ground (arith, a.samples_applied);
  }

  step-IsAccounted :
      (n k : ℕ) (now : ℤ) (d : Distance F) (s : Metered (MemoryStore F))
      → IsAccounted n k s
      → IsAccounted
          (n + 1)
          (k + (if refused d then 1 else 0))
          (metered.aggregate_distance d (at_time now s)).1
  unfolding Middleware.aggregate_distance observe
  step-IsAccounted n k now d s a = elim (service_cases d s.inner) [
    | inl (no_entry, e) ↦
        rw (no_entry, e)
          (record {
            all_observed = omega (arith, a.all_observed);
            all_counted = omega (arith, a.all_counted);
            no_store_errors = a.no_store_errors;
            applied_reconciled = a.applied_reconciled;
            samples_nonneg = a.samples_nonneg;
            samples_applied = a.samples_applied;
          })
    | inr (inl (entry, e)) ↦
        rw (entry, e)
          (record {
            all_observed = omega (arith, a.all_observed);
            all_counted = omega (arith, a.all_counted);
            no_store_errors = a.no_store_errors;
            applied_reconciled = a.applied_reconciled;
            samples_nonneg = a.samples_nonneg;
            samples_applied = a.samples_applied;
          })
    | inr (inr (entry, e, c)) ↦
        rw (entry, e, add-zero)
          (applied_step n k now d _ (at_time now s) c (at_time-IsAccounted now a))
  ]

  serve_all_from :
      (n k : ℕ) (ds : List (ℤ × Distance F)) (s : Metered (MemoryStore F))
      → IsAccounted n k s
      → IsAccounted (n + length ds) (k + refusals ds) (serve_all ds s)
  serve_all_from n k [] s a = rw (add-zero, add-zero) a
  serve_all_from n k ((now, d) ∷ ds) s a =
      let first : ℕ = if refused d then 1 else 0 in
      let calls : n + suc (length ds) ≡ n + 1 + length ds = omega arith in
      let parts : k + (first + refusals ds) ≡ k + first + refusals ds = omega arith in
      rw (calls, parts)
        (serve_all_from (n + 1) (k + first) ds (metered.aggregate_distance d (at_time now s)).1
          (step-IsAccounted n k now d s a))

  abbrev pub fresh_metered : Metered (MemoryStore F)
  fresh_metered = record { now = pos 0; metrics = zero_metrics; inner = new_memory_store }

  fresh-IsAccounted : IsAccounted 0 0 fresh_metered
  fresh-IsAccounted = ground arith

  -- From a fresh start and after any calls, at whatever times: every call was observed once; each
  -- was counted as applied or as a duplicate unless it was refused; no store error was counted;
  -- the reconciliation's count is that of the applied events (as a 64-bit word); and the latency
  -- samples are not negative and no more than the applied events.
  pub serve_all-IsAccounted :
      (ds : List (ℤ × Distance F))
      → IsAccounted (length ds) (refusals ds) (serve_all ds fresh_metered)
  serve_all-IsAccounted ds =
      rw (sym (zero-add (length ds)), sym (zero-add (refusals ds)))
        (serve_all_from 0 0 ds fresh_metered fresh-IsAccounted)
