-- ===== src/Calculator/Consumer/Sources.antt =====
-- What the loop of `Start` asks of the aggregator: requests for valid events of the partition, and no
-- others.
use toll_calc.Common.{
  ℕ, zero, suc, ◌≡◌, refl, Bool, false, Option, none, some, inl, inr, arith, Bool-cases,
  Option-cases,
}
use toll_calc.Float.{Float64}
use toll_calc.Types.{ObuData, invalid_event}
use toll_calc.Http.{Codec}
use toll_calc.Client.{Client}
use toll_calc.Calculator.{calculate_dist}
use toll_calc.Calculator.Consumer.{
  Message, ReadResult, message, timed_out, read_failed, Broker, KafkaConsumer, ProcessError, Exit,
  Round, next_round, stop, request_of, process_event, commit_message, discard, process_message,
  then_commit, update_lag, after_read, after_process, continue_with, round, start,
}
use toll_calc.Calculator.Consumer.Delivery.{IsPartition}

-- The event of a record, where it is valid.
pub record IsSource {F : Type 0} (codec : Codec F) (log : ℕ → Option Message) (d : ObuData F)
    : Type 0 where
  pub offset : ℕ
  pub record_at : Message
  pub at_offset : log offset ≡ some record_at
  pub decoded : codec.decode_event record_at.value ≡ some d
  pub valid : invalid_event d ≡ false

module _ {F K W : Type 0} ⦃f : Float64 F⦄ (codec : Codec F) (kafka : Broker K) (client : Client F W)
    (deadline_exceeded : W → Bool) (log : ℕ → Option Message) (partition : IsPartition kafka log)
    -- a property of the aggregator that a request for a valid event of the partition keeps
    (P : W → Type 0)
    (keeps : (d : ObuData F) (dist : F) (w : W)
      → IsSource codec log d
      → P w
      → P (client.aggregate (request_of dist d) w).1) where
  abbrev State : Type 0
  State = KafkaConsumer F K W

  commit_message-keeps :
      (m : Message) (s : State)
      → P s.downstream
      → P (commit_message codec kafka client deadline_exceeded m s).1.downstream
  unfolding commit_message
  commit_message-keeps m s h = h

  discard-keeps :
      (m : Message) (s : State)
      → P s.downstream
      → P (discard codec kafka client deadline_exceeded m s).1.downstream
  unfolding discard commit_message
  discard-keeps m s h = h

  process_event-keeps :
      (d : ObuData F) (s : State)
      → IsSource codec log d
      → P s.downstream
      → P (process_event codec kafka client deadline_exceeded d s).1.downstream
  unfolding process_event
  process_event-keeps d s source h = keeps d (calculate_dist d s.calc).0 s.downstream source h

  then_commit-keeps :
      (m : Message) (out : Option ProcessError × State)
      → P out.1.downstream
      → P (then_commit codec kafka client deadline_exceeded m out).1.downstream
  then_commit-keeps m (some e, s) h = h
  then_commit-keeps m (none, s) h = commit_message-keeps m s h

  process_message-keeps :
      (i : ℕ) (m : Message) (s : State)
      → log i ≡ some m
      → P s.downstream
      → P (process_message codec kafka client deadline_exceeded m s).1.downstream
  unfolding process_message
  process_message-keeps i m s at h = elim (Option-cases (codec.decode_event m.value)) [
    | inl broken ↦ rw broken (discard-keeps m s h)
    | inr (d, decoded) ↦ elim (Bool-cases (invalid_event d)) [
      | inl invalid ↦ rw (decoded, invalid) (discard-keeps m s h)
      | inr valid ↦
          let source : IsSource codec log d = record {
            offset = i;
            record_at = m;
            at_offset = at;
            decoded = decoded;
            valid = valid;
          } in
          rw (decoded, valid) (then_commit-keeps m _ (process_event-keeps d s source h))
    ]
  ]

  update_lag-keeps :
      (m : Message) (s : State)
      → P s.downstream
      → P (update_lag codec kafka client deadline_exceeded m s).downstream
  unfolding update_lag
  update_lag-keeps m s h = ground (arith, h)

  abbrev AfterRound : Round State → Type 0
  AfterRound (next_round s) = P s.downstream
  AfterRound (stop e s) = P s.downstream

  after_process-keeps :
      (m : Message) (out : Option ProcessError × State)
      → P out.1.downstream
      → AfterRound (after_process codec kafka client deadline_exceeded m out)
  after_process-keeps m (none, s) h = h
  after_process-keeps m (some e, s) h = elim (Bool-cases (kafka.seek m s.broker).0) [
    | inl done ↦ rw done h
    | inr failed ↦ rw failed h
  ]

  after_read-keeps :
      (r : ReadResult) (k : K) (s : State)
      → kafka.read s.broker ≡ (r, k)
      → P s.downstream
      → AfterRound (after_read codec kafka client deadline_exceeded (r, k) s)
  after_read-keeps timed_out k s e h = h
  after_read-keeps read_failed k s e h = h
  after_read-keeps (message m) k s e h = after_process-keeps m _ (
      process_message-keeps (partition.position s.broker) m _
        (partition.read_message s.broker m k e).0 (update_lag-keeps m _ h))

  round-keeps :
      (s : State) → P s.downstream → AfterRound (round codec kafka client deadline_exceeded s)
  unfolding round
  round-keeps s h = elim (Bool-cases (kafka.cancelled s.broker)) [
    | inl over ↦ rw over h
    | inr live ↦ rw live (after_read-keeps (kafka.read s.broker).0 (kafka.read s.broker).1 s refl h)
  ]

  continue-keeps :
      (rest : State → Option Exit × State)
      → ((s : State) → P s.downstream → P (rest s).1.downstream)
      → (r : Round State) → AfterRound r
      → P (continue_with codec kafka client deadline_exceeded rest r).1.downstream
  continue-keeps rest h (next_round s) p = h s p
  continue-keeps rest h (stop e s) p = p

  -- What a request for any valid event of the partition keeps, the loop keeps.
  pub start-keeps :
      (n : ℕ) (s : State)
      → P s.downstream
      → P (start codec kafka client deadline_exceeded n s).1.downstream
  unfolding start
  start-keeps zero s h = h
  start-keeps (suc n) s h =
      continue-keeps (start codec kafka client deadline_exceeded n) (start-keeps n)
        (round codec kafka client deadline_exceeded s) (round-keeps s h)
