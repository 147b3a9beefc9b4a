-- ===== src/Aggregator/Store/Ledger.antt =====
-- What a memory store stands for: the ledger of the events that it applied, newest first.
use toll_calc.Common.{
  ◌≡◌, refl, Bool, true, false, not, ◌||◌, Option, none, some, get_or, List, [], ◌∷◌, arith,
  if◌then◌else◌, Bool-cases, inl, inr,
}
use toll_calc.Common.Int.{ℤ}
use toll_calc.Common.Eq.{◌==◌, ℤ-Eq, List-Eq, ℕ-Eq, int_eq_iff}
use toll_calc.Common.Map.{lookup, contains, lookup-insert, contains-insert}
use toll_calc.Common.Text.{Text, is_empty, anonymous_not_eq}
use toll_calc.Float.{Float64}
use toll_calc.Types.{Distance, EventReconciliation}
use toll_calc.Aggregator.{ok}
use toll_calc.Aggregator.Store.{
  MemoryStore, count_event, zero_reconciliation, new_memory_store, mark_processed, add_total,
  insert,
}

abbrev pub Ledger : Type 0 → Type 0
Ledger F = List (Distance F)

module _ {F : Type 0} where
  -- Is the event among the applied ones?
  abbrev pub recorded : Text → Ledger F → Bool
  recorded e [] = false
  recorded e (d ∷ l) = d.event_id == e || recorded e l

  -- The count and the two fingerprints of the events that have an ID.
  abbrev pub summary : Ledger F → EventReconciliation
  summary [] = zero_reconciliation
  summary (d ∷ l) = if is_empty d.event_id then summary l else count_event (summary l) d.event_id

  -- An event is applied unless it has an ID that is recorded.
  abbrev pub is_new : Distance F → Ledger F → Bool
  is_new d l = is_empty d.event_id || not (recorded d.event_id l)

  abbrev pub post : Distance F → Ledger F → Ledger F
  post d l = if is_new d l then d ∷ l else l

  abbrev pub post_all : List (Distance F) → Ledger F → Ledger F
  post_all [] l = l
  post_all (d ∷ ds) l = post_all ds (post d l)

module _ {F : Type 0} ⦃f : Float64 F⦄ where
  -- The sum of an OBU's distances, in the order of application; none if it has no event.
  abbrev pub total : ℤ → Ledger F → Option F
  total id [] = none
  total id (d ∷ l) =
      if d.obu_id == id then some (f.add (get_or (total id l) f.nought) d.value) else total id l

  pub record Represents (l : Ledger F) (m : MemoryStore F) : Type 0 where
    pub totals : (id : ℤ) → lookup id m.totals ≡ total id l
    pub processed : (e : Text) → is_empty e ≡ false → contains e m.processed ≡ recorded e l
    pub reconcile : m.reconcile ≡ summary l

  pub new_memory_store-Represents : Represents [] new_memory_store
  unfolding lookup contains
  new_memory_store-Represents = record {
    totals = λ id. refl;
    processed = λ e h. refl;
    reconcile = refl;
  }

  add_total-totals :
      (d : Distance F) (m : MemoryStore F) (l : Ledger F)
      → ((id : ℤ) → lookup id m.totals ≡ total id l)
      → (id : ℤ) → lookup id (add_total d m).totals ≡ total id (d ∷ l)
  unfolding add_total
  add_total-totals d m l h id = ground (
    arith,
    lookup-insert d.obu_id id (f.add (get_or (lookup d.obu_id m.totals) f.nought) d.value) m.totals,
    int_eq_iff d.obu_id id,
    h id,
    h d.obu_id,
  )

  -- An event without an ID is added to the totals and to nothing else.
  insert_anonymous :
      (d : Distance F) (m : MemoryStore F) (l : Ledger F)
      → Represents l m
      → is_empty d.event_id ≡ true
      → Represents (d ∷ l) (add_total d m)
  unfolding add_total
  insert_anonymous d m l r h = record {
    totals = add_total-totals d m l r.totals;
    processed =
        λ e named. ground (arith, anonymous_not_eq d.event_id e h named, r.processed e named);
    reconcile = ground (arith, r.reconcile);
  }

  insert_fresh :
      (d : Distance F) (m : MemoryStore F) (l : Ledger F)
      → Represents l m
      → is_empty d.event_id ≡ false
      → Represents (d ∷ l) (add_total d (mark_processed d.event_id m))
  unfolding add_total mark_processed
  insert_fresh d m l r h = record {
    totals = add_total-totals d (mark_processed d.event_id m) l r.totals;
    processed =
        λ e named. ground (arith, contains-insert d.event_id e tt m.processed, r.processed e named);
    reconcile = ground (arith, r.reconcile);
  }

  -- One insertion answers as the ledger decides, and the new store stands for the new ledger.
  pub insert-Represents :
      (d : Distance F) (m : MemoryStore F) (l : Ledger F)
      → Represents l m
      → ((insert d m).0 ≡ ok (is_new d l)) × Represents (post d l) (insert d m).1
  unfolding insert
  insert-Represents d m l r = elim (Bool-cases (is_empty d.event_id)) [
    | inl anonymous ↦ rw anonymous (refl, insert_anonymous d m l r anonymous)
    | inr named ↦ elim (Bool-cases (recorded d.event_id l)) [
      | inl old ↦ rw (named, r.processed d.event_id named, old) (refl, r)
      | inr new ↦ rw (named, r.processed d.event_id named, new) (refl, insert_fresh d m l r named)
    ]
  ]
