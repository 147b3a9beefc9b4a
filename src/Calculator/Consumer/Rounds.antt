-- ===== src/Calculator/Consumer/Rounds.antt =====
-- The loop of `Start`, round by round, keeps what was committed settled.
use toll_calc.Common.{
  ℕ, zero, suc, ◌≡◌, refl, Bool, Option, none, some, inl, inr, arith, Bool-cases,
}
use toll_calc.Common.Int.{pos}
use toll_calc.Float.{Float64}
use toll_calc.Http.{Codec}
use toll_calc.Client.{Client}
use toll_calc.Calculator.Consumer.{
  Message, ReadResult, message, timed_out, read_failed, Broker, KafkaConsumer, ProcessError, Exit,
  Round, next_round, stop, process_message, update_lag, after_read, after_process, rewind,
  continue_with, round, start,
}
use toll_calc.Calculator.Consumer.Delivery.{
  IsPartition, IsReliable, SettledBelow, SettledBelow-suc, IsSafe, IsBusy, Processed,
  process_message-Processed,
}

module _ {F K W : Type 0} ⦃f : Float64 F⦄ (codec : Codec F) (kafka : Broker K) (client : Client F W)
    (deadline_exceeded : W → Bool) (log : ℕ → Option Message) (partition : IsPartition kafka log)
    (reliable : IsReliable client) where
  open partition use {position, committed}

  abbrev State : Type 0
  State = KafkaConsumer F K W

  abbrev Safe : State → Type 0
  Safe = IsSafe codec kafka client deadline_exceeded log partition reliable

  abbrev Busy : ℕ → State → Type 0
  Busy = IsBusy codec kafka client deadline_exceeded log partition reliable

  abbrev Committed : State → Type 0
  Committed s =
      SettledBelow codec kafka client deadline_exceeded log partition reliable (committed s.broker)
        s.downstream

  -- After a round: the loop goes on safely, or it has returned with what is committed settled.
  abbrev RoundSafe : Round State → Type 0
  RoundSafe (next_round s) = Safe s
  RoundSafe (stop e s) = Committed s

  abbrev process : Message → State → Option ProcessError × State
  process = process_message codec kafka client deadline_exceeded

  Busy-same :
      (n : ℕ) (s s' : State)
      → s'.broker ≡ s.broker
      → s'.downstream ≡ s.downstream
      → Busy n s
      → Busy n s'
  Busy-same n s s' p q b = record {
    before = rw q b.before;
    committed_settled = rw (p, q) b.committed_settled;
    ahead = rw p b.ahead;
  }

  update_lag_keeps :
      (m : Message) (s : State)
      → let s' = update_lag codec kafka client deadline_exceeded m s in
        (s'.broker ≡ s.broker) × (s'.downstream ≡ s.downstream)
  unfolding update_lag
  update_lag_keeps m s = ground arith

  update_lag-Busy :
      (n : ℕ) (m : Message) (s : State)
      → Busy n s
      → Busy n (update_lag codec kafka client deadline_exceeded m s)
  update_lag-Busy n m s b =
      Busy-same n s (update_lag codec kafka client deadline_exceeded m s) (update_lag_keeps m s).0
        (update_lag_keeps m s).1 b

  rewind-RoundSafe :
      (n : ℕ) (m : Message) (s : State)
      → m.offset ≡ pos n
      → Busy n s
      → RoundSafe (rewind codec kafka client deadline_exceeded m s)
  rewind-RoundSafe n m s off b = elim (Bool-cases (kafka.seek m s.broker).0) [
    | inl done ↦ rw done (record {
      read_settled = rw (partition.seek_position s.broker m n off done) b.before;
      committed_settled = rw (partition.seek_committed s.broker m) b.committed_settled;
    })
    | inr failed ↦ rw failed (rw (partition.seek_committed s.broker m) b.committed_settled)
  ]

  after_process-RoundSafe :
      (n : ℕ) (m : Message) (out : Option ProcessError × State)
      → m.offset ≡ pos n
      → log n ≡ some m
      → Processed codec kafka client deadline_exceeded log partition reliable n m out
      → RoundSafe (after_process codec kafka client deadline_exceeded m out)
  after_process-RoundSafe n m (none, s) off at (b, settled) = record {
    read_settled = rw b.ahead (
        SettledBelow-suc codec kafka client deadline_exceeded log partition reliable n m
          s.downstream b.before at (settled refl));
    committed_settled = b.committed_settled;
  }
  after_process-RoundSafe n m (some e, s) off at (b, settled) = rewind-RoundSafe n m s off b

  after_read-RoundSafe :
      (r : ReadResult) (k : K) (s : State)
      → kafka.read s.broker ≡ (r, k)
      → Safe s
      → RoundSafe (after_read codec kafka client deadline_exceeded (r, k) s)
  after_read-RoundSafe timed_out k s e safe =
      let stays = partition.read_nothing s.broker timed_out k e (λ m h. cc) in
      record {
        read_settled = rw stays.0 safe.read_settled;
        committed_settled = rw stays.1 safe.committed_settled;
      }
  after_read-RoundSafe read_failed k s e safe =
      let stays = partition.read_nothing s.broker read_failed k e (λ m h. cc) in
      record {
        read_settled = rw stays.0 safe.read_settled;
        committed_settled = rw stays.1 safe.committed_settled;
      }
  after_read-RoundSafe (message m) k s e safe =
      let facts = partition.read_message s.broker m k e in
      after_process-RoundSafe (position s.broker) m _ facts.1 facts.0 (
        process_message-Processed codec kafka client deadline_exceeded log partition reliable
          (position s.broker) m _ facts.1 facts.0
          (update_lag-Busy (position s.broker) m _ (record {
            before = safe.read_settled;
            committed_settled = rw facts.3 safe.committed_settled;
            ahead = facts.2;
          })))

  round-RoundSafe : (s : State) → Safe s → RoundSafe (round codec kafka client deadline_exceeded s)
  unfolding round
  round-RoundSafe s safe = elim (Bool-cases (kafka.cancelled s.broker)) [
    | inl over ↦ rw over safe.committed_settled
    | inr live ↦
        rw live (after_read-RoundSafe (kafka.read s.broker).0 (kafka.read s.broker).1 s refl safe)
  ]

  continue-Committed :
      (rest : State → Option Exit × State)
      → ((s : State) → Safe s → Committed (rest s).1)
      → (r : Round State) → RoundSafe r
      → Committed (continue_with codec kafka client deadline_exceeded rest r).1
  continue-Committed rest h (next_round s) safe = h s safe
  continue-Committed rest h (stop e s) safe = safe

  -- Over a partition with the laws of `IsPartition` and a client with those of `IsReliable`,
  -- from a state in which the messages below the position and below the committed offset are
  -- settled: however many rounds the loop has run, and however it has returned, every message
  -- below the committed offset is settled, which is that it is no valid event, or the aggregator
  -- has taken a request for its event.
  pub start-Committed :
      (n : ℕ) (s : State) → Safe s → Committed (start codec kafka client deadline_exceeded n s).1
  unfolding start
  start-Committed zero s safe = safe.committed_settled
  start-Committed (suc n) s safe =
      continue-Committed (start codec kafka client deadline_exceeded n) (start-Committed n)
        (round codec kafka client deadline_exceeded s) (round-RoundSafe s safe)
