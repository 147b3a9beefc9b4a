-- ===== src/Aggregator/Refinement.antt =====
-- The invoice service over the memory store implements a ledger of admitted events.
use toll_calc.Common.{
  ◌≡◌, refl, Bool, false, Option, none, some, List, [], ◌∷◌, arith, if◌then◌else◌, Bool-cases,
  Option-cases, inl, inr,
}
use toll_calc.Common.Int.{ℤ, pos, ◌≤ℤ◌}
use toll_calc.Common.Text.{is_empty}
use toll_calc.Float.{Float64}
use toll_calc.Types.{Distance, Invoice}
use toll_calc.Aggregator.{
  Result, ok, err, invalid_distance, not_found, base_price, refused, aggregate_distance,
  calculate_invoice, new_invoice_aggregator, Aggregator,
}
use toll_calc.Aggregator.Store.{MemoryStore, new_memory_store, memory_storer, get, reconciliation}
use toll_calc.Aggregator.Store.Ledger.{
  Ledger, is_new, post, total, summary, Represents, new_memory_store-Represents, insert-Represents,
}

-- The answers of a sequence of calls, and the state after them.
abbrev pub run :
    {F S : Type 0}
    → (Distance F → S → Result Bool × S)
    → List (Distance F)
    → S
    → List (Result Bool) × S
run call [] s = ([], s)
run call (d ∷ ds) s = let (r, s') = call d s in let (rs, s'') = run call ds s' in (r ∷ rs, s'')

module _ {F : Type 0} ⦃f : Float64 F⦄ where
  -- The service as `main` builds it, without the middleware.
  abbrev pub service : Aggregator F (MemoryStore F)
  service = new_invoice_aggregator memory_storer

  -- What an event must be like to be admitted.
  pub record IsAdmissible (d : Distance F) : Type 0 where
    pub named : is_empty d.event_id ≡ false
    pub stamped : pos 1 ≤ℤ d.produced_at_unix_nano
    pub assigned : pos 1 ≤ℤ d.obu_id
    pub not_negative : f.lt d.value f.nought ≡ false
    pub a_number : f.is_nan d.value ≡ false
    pub finite : f.is_inf d.value ≡ false

  pub refused-IsAdmissible : (d : Distance F) → refused d ≡ false → IsAdmissible d
  refused-IsAdmissible d h = ground arith

  pub not_refused : (d : Distance F) → IsAdmissible d → refused d ≡ false
  not_refused d a = ground arith

  -- The specification: the ledger takes admissible events that are new.
  abbrev pub specified : Distance F → Ledger F → Result Bool × Ledger F
  specified d l = if refused d then (err invalid_distance, l) else (ok (is_new d l), post d l)

  abbrev pub priced : ℤ → Option F → Result (Invoice F)
  priced id none = err (not_found id)
  priced id (some x) = ok (record { obu_id = id; total_dist = x; amount = f.mul x base_price })

  abbrev pub specified_invoice : ℤ → Ledger F → Result (Invoice F)
  specified_invoice id l = priced id (total id l)

  aggregate_distance_lem :
      (d : Distance F) (m : MemoryStore F) (l : Ledger F)
      → Represents l m
      → ((service.aggregate_distance d m).0 ≡ (specified d l).0)
        × Represents (specified d l).1 (service.aggregate_distance d m).1
  unfolding aggregate_distance
  aggregate_distance_lem d m l r = elim (Bool-cases (refused d)) [
    | inl no_entry ↦ rw no_entry (refl, r)
    | inr entry ↦ rw entry (insert-Represents d m l r)
  ]

  run_lem :
      (ds : List (Distance F)) (m : MemoryStore F) (l : Ledger F)
      → Represents l m
      → ((run service.aggregate_distance ds m).0 ≡ (run specified ds l).0)
        × Represents (run specified ds l).1 (run service.aggregate_distance ds m).1
  run_lem [] m l r = (refl, r)
  run_lem (d ∷ ds) m l r =
      let step = aggregate_distance_lem d m l r in
      let rest = run_lem ds (service.aggregate_distance d m).1 (specified d l).1 step.1 in
      (cc (step.0, rest.0), rest.1)

  calculate_invoice_lem :
      (id : ℤ) (m : MemoryStore F) (l : Ledger F)
      → Represents l m
      → service.calculate_invoice id m ≡ specified_invoice id l
  unfolding calculate_invoice get
  calculate_invoice_lem id m l r = elim (Option-cases (total id l)) [
    | inl absent ↦ rw (r.totals id, absent)
    | inr (x, present) ↦ rw (r.totals id, present)
  ]

  -- From an empty store, after any calls: every call is answered as the ledger answers it, every
  -- invoice is the OBU's total in the ledger at the base price, or "not found" where the ledger has
  -- no event of the OBU, and the reconciliation is the ledger's summary.
  pub service_refines_ledger :
      (ds : List (Distance F)) (id : ℤ)
      → let m = (run service.aggregate_distance ds new_memory_store).1 in
        let l = (run specified ds []).1 in
        ((run service.aggregate_distance ds new_memory_store).0 ≡ (run specified ds []).0)
        × (service.calculate_invoice id m ≡ specified_invoice id l)
        × (service.reconciliation m ≡ summary l)
  unfolding reconciliation
  service_refines_ledger ds id =
      let (answers, r) = run_lem ds new_memory_store [] new_memory_store-Represents in
      (answers, calculate_invoice_lem id _ _ r, r.reconcile)

  -- After any calls from an empty store, an admissible event is never answered with an error,
  -- and one that is not admissible is refused with `ErrInvalidDistance` and changes nothing.
  pub aggregate_distance-IsAdmissible :
      (d : Distance F) (ds : List (Distance F))
      → let m = (run service.aggregate_distance ds new_memory_store).1 in
        (IsAdmissible d → (b : Bool) × ((service.aggregate_distance d m).0 ≡ ok b))
        × (¬ IsAdmissible d → service.aggregate_distance d m ≡ (err invalid_distance, m))
  unfolding aggregate_distance
  aggregate_distance-IsAdmissible d ds =
      let (_, r) = run_lem ds new_memory_store [] new_memory_store-Represents in
      let l = (run specified ds []).1 in
      (
        λ a. (is_new d l, rw (not_refused d a) (insert-Represents d _ l r).0),
        λ no_entry. elim (Bool-cases (refused d)) [
          | inl h ↦ rw h
          | inr h ↦ absurd (no_entry (refused-IsAdmissible d h))
        ],
      )
