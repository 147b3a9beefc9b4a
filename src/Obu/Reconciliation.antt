-- ===== src/Obu/Reconciliation.antt =====
-- A maximum-throughput run against the aggregator's reconciliation.
use mathlib.Core.List.{Nodup, Nodup-cons, Nodup-nil}
use toll_calc.Common.{
  ℕ, ◌+◌, ◌%◌, ◌≤◌, ◌<◌, ◌≡◌, refl, sym, ◌∙◌, true, false, List, [], ◌∷◌, arith, if◌then◌else◌,
  Bool-cases, inl, inr,
}
use toll_calc.Common.Int.{ℤ}
use toll_calc.Common.Eq.{◌==◌, List-Eq, ℕ-Eq, list_eq_iff}
use toll_calc.Common.Text.{Text, is_empty, length}
use toll_calc.Float.{Float64}
use toll_calc.Types.{Distance, word}
use toll_calc.Aggregator.Store.{reconciliation, new_memory_store}
use toll_calc.Aggregator.Store.Ledger.{recorded}
use toll_calc.Aggregator.Store.Replay.{insert_all}
use toll_calc.Aggregator.Store.Fingerprint.{mem, mem_iff, reconciliation_of_delivered}
use toll_calc.Obu.{LoadConfig, zero_stats}
use toll_calc.Obu.Maximum.{idle, Worker, Sending, Action, run_maximum_throughput}
use toll_calc.Obu.Conservation.{occurrences, held, in_flight, IsTallied, run-IsTallied}

mem-occurrences : (e : Text) (xs : List Text) → mem e xs ≡ true → 1 ≤ occurrences e xs
mem-occurrences e [] h = ground (arith, h)
mem-occurrences e (x ∷ xs) h = elim (Bool-cases (x == e)) [
  | inl same ↦ rw same (omega arith)
  | inr other ↦ rw other (omega (arith, mem-occurrences e xs (ground (arith, other, h))))
]

pub not_mem : (e : Text) (xs : List Text) → occurrences e xs ≡ 0 → mem e xs ≡ false
not_mem e xs h = elim (Bool-cases (mem e xs)) [
  | inl there ↦ absurd (omega (arith, h, mem-occurrences e xs there))
  | inr absent ↦ absent
]

pub occurrences-Nodup : (xs : List Text) → ((e : Text) → occurrences e xs ≤ 1) → Nodup xs
occurrences-Nodup [] h = Nodup-nil
occurrences-Nodup (x ∷ xs) h =
    let here : (x == x) ≡ true = (list_eq_iff x x).1 refl in
    let once : (if x == x then 1 else 0) + occurrences x xs ≤ 1 = h x in
    let absent : occurrences x xs ≡ 0 = omega (arith, rw here at once) in
    Nodup-cons.1 (
      λ m. absurd (omega (arith, absent, mem-occurrences x xs ((mem_iff x xs).1 m))),
      occurrences-Nodup xs (λ e. omega (arith, h e)),
    )

-- A store that was empty and is delivered what was sent states what the statistics state.
pub IsTallied-reconciles :
    {F : Type 0} ⦃f : Float64 F⦄
    → {seed : ℤ} {h : Text → ℕ} {n : ℕ} (s : Sending) (ds : List (Distance F))
    → IsTallied seed h n s
    → ((e : Text) → is_empty e ≡ false → recorded e ds ≡ mem e s.sent)
    → let r = reconciliation (insert_all ds new_memory_store).1 in
      (r.count ≡ s.stats.written)
      × (r.xor_hash ≡ s.stats.hash_xor)
      × (r.sum_hash ≡ s.stats.hash_sum)
IsTallied-reconciles s ds t delivered =
    let r =
      reconciliation_of_delivered _ ds (occurrences-Nodup _ (λ e. omega (arith, t.unique e)))
        (not_mem [] s.sent (omega (arith, t.named))) delivered in
    (r.0 ∙ sym t.written, r.1 ∙ sym t.hash_xor, r.2 ∙ sym t.hash_sum)

module _ {F : Type 0} (cfg : LoadConfig F) (padding : Text) where
  -- A worker for each list of OBUs, before its first event.
  abbrev pub started : List (List ℤ) → List (Worker F)
  started [] = []
  started (obus ∷ rest) = record { obu_ids = obus; obu_index = 0; phase = idle } ∷ started rest

  abbrev pub nothing_sent : ℤ → Sending
  nothing_sent run_id = record { stats = zero_stats run_id; sent = [] }

  -- The workers and what they share after a run.
  abbrev pub outcome : List (ℕ × Action F) → List (List ℤ) → ℤ → List (Worker F) × Sending
  outcome actions obus run_id =
      run_maximum_throughput cfg padding actions (started obus) (nothing_sent run_id)

  held-started : (e : Text) (obus : List (List ℤ)) → held e (started obus) ≡ 0
  held-started e [] = refl
  held-started e (o ∷ obus) = omega (arith, held-started e obus)

  in_flight-started : (obus : List (List ℤ)) → in_flight (started obus) ≡ 0
  in_flight-started [] = refl
  in_flight-started (o ∷ obus) = omega (arith, in_flight-started obus)

  start-IsTallied :
      (obus : List (List ℤ)) (run_id : ℤ)
      → IsTallied cfg.seed
          (λ e. held e (started obus))
          (in_flight (started obus))
          (nothing_sent run_id)
  start-IsTallied obus run_id = record {
    unique = λ e. omega (arith, held-started e obus);
    unissued = λ k lt. omega (arith, held-started _ obus);
    named = omega (arith, held-started [] obus);
    written = refl;
    hash_xor = refl;
    hash_sum = refl;
    attempted = omega (arith, in_flight-started obus);
  }

  pub final-IsTallied :
      (actions : List (ℕ × Action F)) (obus : List (List ℤ)) (run_id : ℤ)
      → length actions < word
      → let (ws, s) = outcome actions obus run_id in
        IsTallied cfg.seed (λ e. held e ws) (in_flight ws) s
  final-IsTallied actions obus run_id room =
      run-IsTallied cfg padding actions (started obus) (nothing_sent run_id) (omega (arith, room))
        (start-IsTallied obus run_id)

  -- After fewer than 2^64 actions of the workers of a maximum-throughput run, in any order: the
  -- attempts are the writes, the failures and the events that are being written, as a 64-bit
  -- word, and no event ID was sent twice.
  pub run_conserves_events :
      (actions : List (ℕ × Action F)) (obus : List (List ℤ)) (run_id : ℤ)
      → length actions < word
      → let (ws, s) = outcome actions obus run_id in
        (s.stats.attempted ≡ (s.stats.written + s.stats.failed + in_flight ws) % word)
        × Nodup s.sent
  run_conserves_events actions obus run_id room =
      let t = final-IsTallied actions obus run_id room in
      (t.attempted, occurrences-Nodup _ (λ e. omega (arith, t.unique e)))

  -- In a maximum-throughput run of fewer than 2^64 actions, in any order: if a store that was
  -- empty is delivered exactly the events that were sent, in whatever order and however often
  -- each, then its reconciliation is what the generator's statistics state, the same count,
  -- exclusive or and sum.
  pub run_reconciles :
      ⦃f : Float64 F⦄
      → (actions : List (ℕ × Action F)) (obus : List (List ℤ)) (run_id : ℤ) (ds : List (Distance F))
      → length actions < word
      → ((e : Text)
          → is_empty e ≡ false
          → recorded e ds ≡ mem e (outcome actions obus run_id).1.sent)
      → let s = (outcome actions obus run_id).1 in
        let r = reconciliation (insert_all ds new_memory_store).1 in
        (r.count ≡ s.stats.written)
        × (r.xor_hash ≡ s.stats.hash_xor)
        × (r.sum_hash ≡ s.stats.hash_sum)
  run_reconciles actions obus run_id ds room delivered =
      IsTallied-reconciles (outcome actions obus run_id).1 ds
        (final-IsTallied actions obus run_id room) delivered
