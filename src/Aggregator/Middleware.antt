-- ===== src/Aggregator/Middleware.antt =====
-- aggregator/middleware.go: the metrics around a service, and the log.
use toll_calc.Common.{ℕ, ◌+◌, Bool, true, false, List, [], ◌∷◌, if◌then◌else◌}
use toll_calc.Common.Int.{ℤ, pos, ◌-ℤ◌, ltb_ℤ, leb_ℤ}
use toll_calc.Types.{Distance}
use toll_calc.Aggregator.{Result, ok, err, is_invalid, Aggregator}

-- The counters, how often `operationDuration` was observed, and the nanoseconds that
-- `pipelineDuration` observed, newest first.
pub record Metrics : Type 0 where
  pub operations : ℕ
  pub pipeline : List ℤ
  pub events_applied : ℕ
  pub duplicate_events : ℕ
  pub store_errors : ℕ

abbrev pub zero_metrics : Metrics
zero_metrics = record {
  operations = 0;
  pipeline = [];
  events_applied = 0;
  duplicate_events = 0;
  store_errors = 0;
}

-- A service with its metrics. `now` is the clock at the end of the next call, in Unix nanoseconds.
pub record Metered (S : Type 0) : Type 0 where
  pub now : ℤ
  pub metrics : Metrics
  pub inner : S

-- The deferred function of `MetricsMiddleWare.AggregateDistance`.
unfoldable pub observe : {F : Type 0} → Distance F → Result Bool → ℤ → Metrics → Metrics
observe d (err e) now m =
    if is_invalid e
    then record m { operations = m.operations + 1 }
    else record m { operations = m.operations + 1; store_errors = m.store_errors + 1 }
observe d (ok true) now m =
    let elapsed = now -ℤ d.produced_at_unix_nano in
    let sampled =
      if ltb_ℤ (pos 0) d.produced_at_unix_nano
      then if leb_ℤ (pos 0) elapsed then elapsed ∷ m.pipeline else m.pipeline
      else m.pipeline in
    record m {
      operations = m.operations + 1;
      events_applied = m.events_applied + 1;
      pipeline = sampled;
    }
observe d (ok false) now m = record m {
  operations = m.operations + 1;
  duplicate_events = m.duplicate_events + 1;
}

module _ {F S : Type 0} (next : Aggregator F S) where
  unfoldable pub aggregate_distance : Distance F → Metered S → Result Bool × Metered S
  aggregate_distance d s =
      let (r, inner') = next.aggregate_distance d s.inner in
      (r, record s { metrics = observe d r s.now s.metrics; inner = inner' })

  abbrev pub new_metric_middleware : Aggregator F (Metered S)
  new_metric_middleware = record {
    aggregate_distance = aggregate_distance;
    calculate_invoice = λ id s. next.calculate_invoice id s.inner;
    reconciliation = λ s. next.reconciliation s.inner;
  }

  -- `LogMiddleware` writes a log line at the end of a call and hands everything on.
  abbrev pub new_log_middleware : Aggregator F S
  new_log_middleware = record {
    aggregate_distance = next.aggregate_distance;
    calculate_invoice = next.calculate_invoice;
    reconciliation = next.reconciliation;
  }
