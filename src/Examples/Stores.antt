-- ===== src/Examples/Stores.antt =====
-- The store and the service on deliveries with repetitions, in two orders.
use mathlib.Core.List.{Nodup, Nodup-cons, Nodup-nil, mem-cons, not-mem-nil}
use mathlib.Core.Logic.Or
use toll_calc.Common.{◌%◌, ◌≡◌, refl, true, false, List, [], ◌∷◌, arith, Bool}
use toll_calc.Common.Int.{ℤ, pos}
use toll_calc.Common.Eq.{List-Eq, ℕ-Eq}
use toll_calc.Common.Text.{Text, text, is_empty}
use toll_calc.Float.Grid.{Grid, whole, nan, Grid-Float64}
use toll_calc.Types.{Distance, word}
use toll_calc.Aggregator.{ok, err, invalid_distance}
use toll_calc.Aggregator.Store.{new_memory_store, reconciliation}
use toll_calc.Aggregator.Store.Ledger.{recorded, summary}
use toll_calc.Aggregator.Store.Replay.{insert_all, times_applied, times_applied-insert_all}
use toll_calc.Aggregator.Store.Fingerprint.{xor_of, sum_of, mem, reconciliation_of_delivered}
use toll_calc.Aggregator.Refinement.{
  service, run, specified, specified_invoice, service_refines_ledger, IsAdmissible,
  aggregate_distance-IsAdmissible,
}
use toll_calc.Aggregator.Accounting.{serve_all, IsAccounted, fresh_metered, serve_all-IsAccounted}

abbrev pub first : Distance Grid
first = record {
  event_id = text "a";
  produced_at_unix_nano = pos 5;
  value = whole (pos 3);
  obu_id = pos 1;
}

abbrev pub second : Distance Grid
second = record {
  event_id = text "b";
  produced_at_unix_nano = pos 6;
  value = whole (pos 4);
  obu_id = pos 2;
}

abbrev broken : Distance Grid
broken = record { event_id = text "c"; produced_at_unix_nano = pos 7; value = nan; obu_id = pos 2 }

abbrev deliveries : List (Distance Grid)
deliveries = first ∷ second ∷ first ∷ []

abbrev reordered : List (Distance Grid)
reordered = second ∷ second ∷ first ∷ []

service_refines_ledger_example :
    let m = (run service.aggregate_distance (broken ∷ deliveries) new_memory_store).1 in
    let l = (run specified (broken ∷ deliveries) []).1 in
    ((run service.aggregate_distance (broken ∷ deliveries) new_memory_store).0
      ≡ err invalid_distance ∷ ok true ∷ ok true ∷ ok false ∷ [])
    × (service.calculate_invoice (pos 1) m ≡ specified_invoice (pos 1) l)
    × (service.reconciliation m ≡ summary l)
service_refines_ledger_example = service_refines_ledger (broken ∷ deliveries) (pos 1)

times_applied-insert_all_example :
    times_applied (text "a") deliveries (insert_all deliveries new_memory_store).0 ≡ 1
times_applied-insert_all_example = times_applied-insert_all deliveries (text "a") refl

abbrev written : List Text
written = text "b" ∷ text "a" ∷ []

written-Nodup : Nodup written
written-Nodup = Nodup-cons.1 (
  λ m. Or.elim (hlevel) (mem-cons.0 m) (λ e. ground (arith, e)) (λ m'. not-mem-nil m'),
  Nodup-cons.1 (λ m. not-mem-nil m, Nodup-nil),
)

deliveries_written : (e : Text) → is_empty e ≡ false → recorded e deliveries ≡ mem e written
deliveries_written e named = ground arith

reconciliation_of_delivered_example :
    let r = reconciliation (insert_all deliveries new_memory_store).1 in
    (r.count ≡ 2) × (r.xor_hash ≡ xor_of written) × (r.sum_hash ≡ sum_of written % word)
reconciliation_of_delivered_example =
    reconciliation_of_delivered written deliveries written-Nodup refl deliveries_written

aggregate_distance-IsAdmissible_example :
    let m = (run service.aggregate_distance deliveries new_memory_store).1 in
    (IsAdmissible broken → (b : Bool) × ((service.aggregate_distance broken m).0 ≡ ok b))
    × (¬ IsAdmissible broken → service.aggregate_distance broken m ≡ (err invalid_distance, m))
aggregate_distance-IsAdmissible_example = aggregate_distance-IsAdmissible broken deliveries

abbrev timed : List (ℤ × Distance Grid)
timed = (pos 9, first) ∷ (pos 3, second) ∷ (pos 11, broken) ∷ (pos 12, first) ∷ []

serve_all-IsAccounted_example : IsAccounted 4 1 (serve_all timed fresh_metered)
serve_all-IsAccounted_example = serve_all-IsAccounted timed
