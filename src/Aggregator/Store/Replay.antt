-- ===== src/Aggregator/Store/Replay.antt =====
-- Deliveries one after the other, each possibly a repetition of an earlier one.
use toll_calc.Common.{
  ℕ, ◌+◌, ◌≡◌, Bool, true, false, Option, none, some, List, [], ◌∷◌, arith, if◌then◌else◌,
}
use toll_calc.Common.Int.{ℤ}
use toll_calc.Common.Eq.{◌==◌, ℤ-Eq, List-Eq, ℕ-Eq, list_eq_iff}
use toll_calc.Common.Text.{Text, is_empty, anonymous_not_eq}
use toll_calc.Float.{Float64}
use toll_calc.Types.{Distance}
use toll_calc.Aggregator.{Result, ok, err, not_found}
use toll_calc.Aggregator.Store.{MemoryStore, new_memory_store, reconciliation, get, insert}
use toll_calc.Aggregator.Store.Ledger.{
  Ledger, recorded, summary, post, post_all, total, Represents, new_memory_store-Represents,
  insert-Represents,
}

-- The answers of the calls, in order, and the store after them.
module _ {F : Type 0} ⦃f : Float64 F⦄ where
  abbrev pub insert_all : List (Distance F) → MemoryStore F → List (Result Bool) × MemoryStore F
  insert_all [] m = ([], m)
  insert_all (d ∷ ds) m =
      let (r, m') = insert d m in let (rs, m'') = insert_all ds m' in (r ∷ rs, m'')

  pub insert_all-Represents :
      (ds : List (Distance F)) (m : MemoryStore F) (l : Ledger F)
      → Represents l m
      → Represents (post_all ds l) (insert_all ds m).1
  insert_all-Represents [] m l r = r
  insert_all-Represents (d ∷ ds) m l r =
      insert_all-Represents ds (insert d m).1 (post d l) (insert-Represents d m l r).1

  abbrev found_total : ℤ → Option F → Result F
  found_total id none = err (not_found id)
  found_total id (some x) = ok x

  -- After any deliveries to an empty store, `Get` returns the sum over the ledger, or that the OBU
  -- is unknown, and `Reconciliation` returns the ledger's summary.
  pub get-insert_all :
      (ds : List (Distance F)) (id : ℤ)
      → let m = (insert_all ds new_memory_store).1 in
        (get id m ≡ found_total id (total id (post_all ds [])))
        × (reconciliation m ≡ summary (post_all ds []))
  unfolding get reconciliation
  get-insert_all ds id =
      let r = insert_all-Represents ds new_memory_store [] new_memory_store-Represents in
      (ground (arith, r.totals id), r.reconcile)

  recorded-post_kept :
      (d : Distance F) (l : Ledger F) (e : Text)
      → recorded e l ≡ true
      → recorded e (post d l) ≡ true
  recorded-post_kept d l e h = ground arith

  recorded-post_all_kept :
      (ds : List (Distance F)) (l : Ledger F) (e : Text)
      → recorded e l ≡ true
      → recorded e (post_all ds l) ≡ true
  recorded-post_all_kept [] l e h = h
  recorded-post_all_kept (d ∷ ds) l e h =
      recorded-post_all_kept ds (post d l) e (recorded-post_kept d l e h)

  recorded-post_self : (d : Distance F) (l : Ledger F) → recorded d.event_id (post d l) ≡ true
  recorded-post_self d l = ground (arith, list_eq_iff d.event_id d.event_id)

  insert_recorded :
      (d : Distance F) (m : MemoryStore F) (l : Ledger F)
      → Represents l m
      → is_empty d.event_id ≡ false
      → recorded d.event_id l ≡ true
      → insert d m ≡ (ok false, m)
  unfolding insert
  insert_recorded d m l r named old = rw (named, r.processed d.event_id named, old)

  -- From an empty store, a redelivery of an event that has an ID and was inserted before,
  -- whatever came between, is answered with "not applied", and the store stays as it is.
  pub insert_again :
      (before between : List (Distance F)) (d again : Distance F)
      → is_empty d.event_id ≡ false
      → again.event_id ≡ d.event_id
      → let m = (insert_all before new_memory_store).1 in
        let m' = (insert_all between (insert d m).1).1 in insert again m' ≡ (ok false, m')
  insert_again before between d again named same =
      let m = (insert_all before new_memory_store).1 in
      let l = post_all before [] in
      let r : Represents l m =
        insert_all-Represents before new_memory_store [] new_memory_store-Represents in
      insert_recorded again _ (post_all between (post d l))
        (insert_all-Represents between (insert d m).1 (post d l) (insert-Represents d m l r).1)
        (rw same named)
        (rw same (recorded-post_all_kept between (post d l) d.event_id (recorded-post_self d l)))

  -- How many calls for the event were answered with "applied".
  abbrev pub times_applied : Text → List (Distance F) → List (Result Bool) → ℕ
  times_applied e (d ∷ ds) (ok true ∷ rs) =
      (if d.event_id == e then 1 else 0) + times_applied e ds rs
  times_applied e (d ∷ ds) (_ ∷ rs) = times_applied e ds rs
  times_applied e _ _ = 0

  times_applied_from :
      (ds : List (Distance F)) (m : MemoryStore F) (l : Ledger F) (e : Text)
      → Represents l m
      → is_empty e ≡ false
      → times_applied e ds (insert_all ds m).0
        ≡ (if recorded e l then 0 else if recorded e ds then 1 else 0)
  times_applied_from [] m l e r named = ground arith
  times_applied_from (d ∷ ds) m l e r named =
      let step = insert-Represents d m l r in
      rw step.0 (
        ground (
          arith,
          times_applied_from ds (insert d m).1 (post d l) e step.1 named,
          list_eq_iff d.event_id e,
          anonymous_not_eq d.event_id e,
        ))

  -- Among any calls to a store that was empty, an event that has an ID is applied exactly once if
  -- it is delivered at all, whatever the order and the number of its deliveries.
  pub times_applied-insert_all :
      (ds : List (Distance F)) (e : Text)
      → is_empty e ≡ false
      → times_applied e ds (insert_all ds new_memory_store).0 ≡ (if recorded e ds then 1 else 0)
  times_applied-insert_all ds e named =
      times_applied_from ds new_memory_store [] e new_memory_store-Represents named
