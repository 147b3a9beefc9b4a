-- ===== src/Aggregator.antt =====
-- aggregator/service.go: the interfaces `Storer` and `Aggregator`, and the invoice service between
-- them. The parts below it: the memory store, the middleware, and the two transports.
pub mod Store
pub mod Middleware
pub mod Http
pub mod Grpc
pub mod Refinement
pub mod Accounting
pub mod Transports
pub mod Startup
use toll_calc.Common.{Bool, true, false, ◌||◌, ◌++◌, if◌then◌else◌}
use toll_calc.Common.Int.{ℤ, pos, leb_ℤ}
use toll_calc.Common.Text.{Text, text, is_empty, itoa}
use toll_calc.Float.{Float64}
use toll_calc.Types.{Distance, Invoice, EventReconciliation}

-- The errors that a store or a service returns. `other` is an error of another store.
pub data Error : Type 0 where
  -- it wraps `ErrInvalidDistance`
  invalid_distance : Error
  not_found : ℤ → Error
  other : Text → Error

pub data Result {ℓ} (A : Type ℓ) : Type ℓ where
  ok : A → Result A
  err : Error → Result A

-- `errors.Is(err, ErrInvalidDistance)`
abbrev pub is_invalid : Error → Bool
is_invalid invalid_distance = true
is_invalid _ = false

-- `err.Error()`
unfoldable pub message : Error → Text
message invalid_distance =
    text "invalid distance event: event_id, source timestamp, OBU ID, and "
    ++ text "non-negative finite distance are required"
message (not_found id) = text "Data not found for " ++ itoa id
message (other m) = m

-- A store with states in `S`; a method that writes returns the new state.
pub record Storer (F S : Type 0) : Type 0 where
  pub insert : Distance F → S → Result Bool × S
  pub get : ℤ → S → Result F
  pub reconciliation : S → EventReconciliation

pub record Aggregator (F S : Type 0) : Type 0 where
  pub aggregate_distance : Distance F → S → Result Bool × S
  pub calculate_invoice : ℤ → S → Result (Invoice F)
  pub reconciliation : S → EventReconciliation

module _ {F : Type 0} ⦃f : Float64 F⦄ where
  -- `const basePrice = 3.15`
  abbrev pub base_price : F
  base_price = f.literal 315 2

  -- The condition under which `AggregateDistance` refuses an event.
  abbrev pub refused : Distance F → Bool
  refused d =
      is_empty d.event_id
      || leb_ℤ d.produced_at_unix_nano (pos 0)
      || leb_ℤ d.obu_id (pos 0)
      || f.lt d.value f.nought
      || f.is_nan d.value
      || f.is_inf d.value

  module _ {S : Type 0} (store : Storer F S) where
    unfoldable pub aggregate_distance : Distance F → S → Result Bool × S
    aggregate_distance dist s =
        if refused dist then (err invalid_distance, s) else store.insert dist s

    abbrev price : ℤ → Result F → Result (Invoice F)
    price id (ok dist) =
        ok (record { obu_id = id; total_dist = dist; amount = f.mul dist base_price })
    price id (err e) = err e

    unfoldable pub calculate_invoice : ℤ → S → Result (Invoice F)
    calculate_invoice id s = price id (store.get id s)

    abbrev pub new_invoice_aggregator : Aggregator F S
    new_invoice_aggregator = record {
      aggregate_distance = aggregate_distance;
      calculate_invoice = calculate_invoice;
      reconciliation = store.reconciliation;
    }
