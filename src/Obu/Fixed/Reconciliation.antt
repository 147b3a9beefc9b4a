-- ===== src/Obu/Fixed/Reconciliation.antt =====
-- A fixed-rate run from its start: its statistics, its queues, and the aggregator's reconciliation.
use mathlib.Core.List.{Nodup}
use toll_calc.Common.{ℕ, zero, suc, ◌+◌, ◌%◌, ◌<◌, ◌≡◌, refl, true, false, List, [], ◌∷◌, arith}
use toll_calc.Common.Int.{ℤ}
use toll_calc.Common.Text.{Text, length, is_empty}
use toll_calc.Float.{Float64}
use toll_calc.Types.{Distance, word}
use toll_calc.Aggregator.Store.{reconciliation, new_memory_store}
use toll_calc.Aggregator.Store.Ledger.{recorded}
use toll_calc.Aggregator.Store.Replay.{insert_all}
use toll_calc.Aggregator.Store.Fingerprint.{mem}
use toll_calc.Obu.{LoadConfig}
use toll_calc.Obu.Maximum.{idle}
use toll_calc.Obu.Ramp.{LoadPhase, phases_or_default}
use toll_calc.Obu.Reconciliation.{nothing_sent, occurrences-Nodup, IsTallied-reconciles}
use toll_calc.Obu.Fixed.{Writer, FixedRun, FixedAction, run_fixed_rate}
use toll_calc.Obu.Fixed.Conservation.{
  waiting, backlog, WithinCapacity, IsConserved, run-IsConserved,
}

-- A writer with an empty queue for each of so many connections.
abbrev pub writers_for : {F : Type 0} → ℕ → List (Writer F)
writers_for zero = []
writers_for (suc k) = record { queue = []; phase = idle } ∷ writers_for k

module _ (F : Type 0) where
  waiting-writers_for : (e : Text) (k : ℕ) → waiting e (writers_for {F = F} k) ≡ 0
  waiting-writers_for e zero = refl
  waiting-writers_for e (suc k) = omega (arith, waiting-writers_for e k)

  backlog-writers_for : (k : ℕ) → backlog (writers_for {F = F} k) ≡ 0
  backlog-writers_for zero = refl
  backlog-writers_for (suc k) = omega (arith, backlog-writers_for k)

  writers_for-WithinCapacity : (k : ℕ) → WithinCapacity (writers_for {F = F} k)
  writers_for-WithinCapacity zero = tt
  writers_for-WithinCapacity (suc k) = (omega arith, writers_for-WithinCapacity k)

  length-writers_for : (k : ℕ) → length (writers_for {F = F} k) ≡ k
  length-writers_for zero = refl
  length-writers_for (suc k) = omega (arith, length-writers_for k)

module _ {F : Type 0} (cfg : LoadConfig F) (padding : Text) where
  -- The run before its first action: `phases` are those of the ramp, and the context is live.
  abbrev pub fixed_start : ℕ → List (LoadPhase F) → ℤ → FixedRun F
  fixed_start connections phases run_id = record {
    phases = phases_or_default cfg phases;
    live = true;
    writers = writers_for connections;
    sending = nothing_sent cfg padding run_id;
  }

  abbrev pub fixed_outcome : List (FixedAction F) → ℕ → List (LoadPhase F) → ℤ → FixedRun F
  fixed_outcome actions connections phases run_id =
      run_fixed_rate cfg padding actions (fixed_start connections phases run_id)

  pub final-IsConserved :
      (actions : List (FixedAction F)) (connections : ℕ) (phases : List (LoadPhase F)) (run_id : ℤ)
      → length actions < word
      → 0 < connections
      → IsConserved cfg padding (fixed_outcome actions connections phases run_id)
  final-IsConserved actions connections phases run_id room positive =
      run-IsConserved cfg padding actions _ (omega (arith, room)) (record {
        tallied = record {
          unique = λ e. omega (arith, waiting-writers_for F e connections);
          unissued = λ k lt. omega (arith, waiting-writers_for F _ connections);
          named = omega (arith, waiting-writers_for F [] connections);
          written = refl;
          hash_xor = refl;
          hash_sum = refl;
          attempted = omega (arith, backlog-writers_for F connections);
        };
        bounded = writers_for-WithinCapacity F connections;
        connected = omega (arith, length-writers_for F connections, positive);
      })

  -- After fewer than 2^64 actions of the producer and the writers of a fixed-rate run over at least
  -- one connection, in any order and with any writes failing: the attempts are the writes, the
  -- failures and the events that are queued or being written, as a 64-bit word, no event ID was
  -- sent twice, and no queue holds more than 1024 events.
  pub fixed_run_conserves :
      (actions : List (FixedAction F)) (connections : ℕ) (phases : List (LoadPhase F)) (run_id : ℤ)
      → length actions < word
      → 0 < connections
      → let run = fixed_outcome actions connections phases run_id in
        let stats = run.sending.stats in
        (stats.attempted ≡ (stats.written + stats.failed + backlog run.writers) % word)
        × Nodup run.sending.sent
        × WithinCapacity run.writers
  fixed_run_conserves actions connections phases run_id room positive =
      let c = final-IsConserved actions connections phases run_id room positive in
      (c.tallied.attempted, occurrences-Nodup _ (λ e. omega (arith, c.tallied.unique e)), c.bounded)

  -- In a fixed-rate run of fewer than 2^64 actions over at least one connection, in any order and
  -- with any writes failing: if a store that was empty is delivered exactly the events that were
  -- sent, in whatever order and however often each, then its reconciliation is what the
  -- generator's statistics state, the same count, exclusive or and sum.
  pub fixed_run_reconciles :
      ⦃f : Float64 F⦄
      → (actions : List (FixedAction F)) (connections : ℕ) (phases : List (LoadPhase F))
        (run_id : ℤ) (ds : List (Distance F))
      → length actions < word
      → 0 < connections
      → ((e : Text)
          → is_empty e ≡ false
          → recorded e ds ≡ mem e (fixed_outcome actions connections phases run_id).sending.sent)
      → let s = (fixed_outcome actions connections phases run_id).sending in
        let r = reconciliation (insert_all ds new_memory_store).1 in
        (r.count ≡ s.stats.written)
        × (r.xor_hash ≡ s.stats.hash_xor)
        × (r.sum_hash ≡ s.stats.hash_sum)
  fixed_run_reconciles actions connections phases run_id ds room positive delivered =
      IsTallied-reconciles _ ds
        (final-IsConserved actions connections phases run_id room positive).tallied delivered
