-- ===== src/Aggregator/Store.antt =====
-- aggregator/store.go. A method holds the store's lock from its first statement to its last, so
-- concurrent calls are some sequence of whole calls.
pub mod Ledger
pub mod Replay
pub mod Fingerprint
use Prim.Native.Nat.{bit_xor}
use toll_calc.Common.{◌+◌, ◌%◌, Bool, true, false, Option, none, some, get_or, [], if◌then◌else◌}
use toll_calc.Common.Int.{ℤ}
use toll_calc.Common.Eq.{ℤ-Eq, List-Eq, ℕ-Eq}
use toll_calc.Common.Map.{Map, lookup, contains, insert as put}
use toll_calc.Common.Text.{Text, is_empty}
use toll_calc.Float.{Float64}
use toll_calc.Types.{Distance, EventReconciliation, event_id_fingerprint, word}
use toll_calc.Aggregator.{Result, ok, err, not_found, Storer}

pub record MemoryStore (F : Type 0) : Type 0 where
  -- the field `data`
  pub totals : Map ℤ F
  pub processed : Map Text (Unit {0})
  pub reconcile : EventReconciliation

-- `Count++`, `XOR ^= fingerprint` and `Sum += fingerprint` on 64-bit words.
unfoldable pub count_event : EventReconciliation → Text → EventReconciliation
count_event r event_id =
    let fingerprint = event_id_fingerprint event_id in
    record {
      count = (r.count + 1) % word;
      xor_hash = bit_xor r.xor_hash fingerprint;
      sum_hash = (r.sum_hash + fingerprint) % word;
    }

abbrev pub zero_reconciliation : EventReconciliation
zero_reconciliation = record { count = 0; xor_hash = 0; sum_hash = 0 }

module _ {F : Type 0} where
  abbrev pub new_memory_store : MemoryStore F
  new_memory_store = record { totals = []; processed = []; reconcile = zero_reconciliation }

  -- The lines for an event that has an ID and is new.
  unfoldable pub mark_processed : Text → MemoryStore F → MemoryStore F
  mark_processed event_id m = record m {
    processed = put event_id tt m.processed;
    reconcile = count_event m.reconcile event_id;
  }

  unfoldable pub reconciliation : MemoryStore F → EventReconciliation
  reconciliation m = m.reconcile

  abbrev found : ℤ → Option F → Result F
  found id none = err (not_found id)
  found id (some dist) = ok dist

  unfoldable pub get : ℤ → MemoryStore F → Result F
  get id m = found id (lookup id m.totals)

module _ {F : Type 0} ⦃f : Float64 F⦄ where
  -- `m.data[d.OBUID] += d.Value`: a missing entry reads as 0.0.
  unfoldable pub add_total : Distance F → MemoryStore F → MemoryStore F
  add_total d m =
      let old = get_or (lookup d.obu_id m.totals) f.nought in
      record m { totals = put d.obu_id (f.add old d.value) m.totals }

  unfoldable pub insert : Distance F → MemoryStore F → Result Bool × MemoryStore F
  insert d m =
      if is_empty d.event_id
      then (ok true, add_total d m)
      else if contains d.event_id m.processed
      then (ok false, m)
      else (ok true, add_total d (mark_processed d.event_id m))

  abbrev pub memory_storer : Storer F (MemoryStore F)
  memory_storer = record { insert = insert; get = get; reconciliation = reconciliation }
