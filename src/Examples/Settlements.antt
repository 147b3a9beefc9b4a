-- ===== src/Examples/Settlements.antt =====
-- The calculator and the aggregator behind a partition with a repeated event.
use mathlib.Core.Logic.Or
use mathlib.Core.List.{Nodup, Nodup-cons, Nodup-nil, mem-cons, not-mem-nil}
use toll_calc.Common.{
  ℕ, zero, suc, ◌-◌, ◌^◌, ◌%◌, ◌<◌, ◌≡◌, refl, sym, false, none, some, List, [], ◌∷◌, arith, subst,
}
use toll_calc.Common.Int.{pos, ◌≤ℤ◌, ◌+ℤ◌, ◌-ℤ◌}
use toll_calc.Common.Eq.{List-Eq, ℕ-Eq}
use toll_calc.Common.Text.{Text, text, length}
use toll_calc.Float.Grid.{Grid-Float64, Grid-IsFloat}
use toll_calc.Types.{word}
use toll_calc.Aggregator.Store.{reconciliation}
use toll_calc.Aggregator.Store.Fingerprint.{mem, xor_of, sum_of}
use toll_calc.Aggregator.Grpc.{intercepted}
use toll_calc.Aggregator.Refinement.{service}
use toll_calc.Client.GrpcClient.{new_grpc_client}
use toll_calc.Calculator.{calc_dist}
use toll_calc.Calculator.Consumer.{Message}
use toll_calc.Calculator.Consumer.Advance.{IsServing}
use toll_calc.Calculator.Consumer.Reconciled.{HoldsExactly}
use toll_calc.Calculator.Consumer.Settling.{IsModerate}
use toll_calc.Calculator.Consumer.Pipeline.{run, pipeline_settles}
use toll_calc.Examples.Codec.{number_codec}
use toll_calc.Examples.Parties.{log_of, list_broker, list_broker-IsPartition}
use toll_calc.Examples.Consumers.{over_grpc}
use toll_calc.Examples.Arrivals.{values_of, source_named, values_of-HoldsExactly}

abbrev delivered : List Text
delivered = text "x" ∷ text "y" ∷ text "x" ∷ []

abbrev written : List Text
written = text "x" ∷ text "y" ∷ []

abbrev values : List Text
values = values_of delivered

written-Nodup : Nodup written
written-Nodup = Nodup-cons.1 (
  λ m. Or.elim (hlevel) (mem-cons.0 m) (λ e. ground (arith, e)) (λ m'. not-mem-nil m'),
  Nodup-cons.1 (λ m. not-mem-nil m, Nodup-nil),
)

same_members : (e : Text) → mem e delivered ≡ mem e written
same_members e = ground arith

delivered-HoldsExactly : HoldsExactly number_codec (log_of values) written
delivered-HoldsExactly =
    let whole_list = values_of-HoldsExactly delivered refl refl in
    record {
      sent_only = λ d source. rw (same_members d.event_id) at (whole_list.sent_only d source);
      all_there = λ e there. whole_list.all_there e (rw (same_members e) there);
    }

values-IsModerate : IsModerate number_codec (log_of values)
unfolding calc_dist ◌+ℤ◌ ◌-ℤ◌
values-IsModerate = record {
  a_number = λ d d' s s'.
      let (e, _, it) = source_named delivered d refl s in
      let (e', _, it') = source_named delivered d' refl s' in rw (sym it, sym it') refl;
  finite = λ d d' s s'.
      let (e, _, it) = source_named delivered d refl s in
      let (e', _, it') = source_named delivered d' refl s' in rw (sym it, sym it') refl;
  small = λ d s.
      let (e, _, it) = source_named delivered d refl s in
      subst (λ x. x.obu_id ≤ℤ pos (2 ^ 31 - 1)) it (omega arith);
}

values-IsServing :
    IsServing number_codec
      (list_broker values)
      (new_grpc_client (intercepted service) (λ w. w))
      (λ w. false)
      (log_of values)
      (list_broker-IsPartition values)
unfolding list_broker-IsPartition
values-IsServing = record {
  live = λ k. refl;
  available = λ k m there. rw there refl;
  commits = λ m k. refl;
  seeks = λ m k. refl;
}

all_there : (i : ℕ) → i < 3 → (m : Message) × (log_of values i ≡ some m)
all_there zero h = (_, refl)
all_there (suc zero) h = (_, refl)
all_there (suc (suc zero)) h = (_, refl)
all_there (suc (suc (suc i))) h = absurd (omega (arith, h))

no_more : (i : ℕ) (m : Message) → log_of values i ≡ some m → i < 3
no_more zero m h = omega arith
no_more (suc zero) m h = omega arith
no_more (suc (suc zero)) m h = omega arith
no_more (suc (suc (suc i))) m h = ground (arith, h)

pipeline_settles_example :
    let (e, s') =
      run number_codec
        (log_of values)
        Grid-IsFloat
        values-IsModerate
        (λ w. w)
        (list_broker values)
        (λ w. false)
        (list_broker-IsPartition values)
        values-IsServing
        3
        over_grpc in
    let r = reconciliation s'.downstream.world.service in
    (e ≡ none)
    × (s'.broker.committed ≡ 3)
    × (r.count ≡ length written % word)
    × (r.xor_hash ≡ xor_of written)
    × (r.sum_hash ≡ sum_of written % word)
unfolding list_broker-IsPartition
pipeline_settles_example =
    pipeline_settles number_codec (log_of values) Grid-IsFloat values-IsModerate (λ w. w)
      (list_broker values) (λ w. false) (list_broker-IsPartition values) values-IsServing 2
      over_grpc written (record { there = all_there; no_more = no_more })
      (record { at_0 = refl; none_yet = refl; no_points = refl; no_events = refl }) written-Nodup
      delivered-HoldsExactly
