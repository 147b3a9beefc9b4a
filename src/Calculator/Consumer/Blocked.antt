-- ===== src/Calculator/Consumer/Blocked.antt =====
-- The loop of `Start` at an event that the aggregator refuses whenever it is sent.
use toll_calc.Common.{
  ℕ, zero, suc, ◌+◌, ◌≡◌, ◌≢◌, refl, ap, ◌∙◌, Bool, false, Option, none, some, inl, inr, arith,
  Option-cases,
}
use toll_calc.Common.Int.{pos}
use toll_calc.Float.{Float64}
use toll_calc.Types.{ObuData, invalid_event}
use toll_calc.Http.{Codec}
use toll_calc.Client.{Client}
use toll_calc.Calculator.{calculate_dist}
use toll_calc.Calculator.Consumer.{
  Message, message, Broker, KafkaConsumer, ProcessError, Exit, Round, next_round, stop, request_of,
  process_event, process_message, update_lag, after_read, after_process, continue_with, round,
  start,
}
use toll_calc.Calculator.Consumer.Delivery.{IsPartition}
use toll_calc.Calculator.Consumer.Advance.{IsServing, update_lag_keeps}

module _ {F K W : Type 0} ⦃f : Float64 F⦄ (codec : Codec F) (kafka : Broker K) (client : Client F W)
    (deadline_exceeded : W → Bool) (log : ℕ → Option Message) (partition : IsPartition kafka log)
    (serving : IsServing codec kafka client deadline_exceeded log partition) where
  open partition use {position, committed}
  open serving use {live, available, seeks}

  abbrev State : Type 0
  State = KafkaConsumer F K W

  -- A call that failed, with the broker of before.
  abbrev Failed : K → Option ProcessError × State → Type 0
  Failed k (e, s) = (e ≢ none) × (s.broker ≡ k)

  module _ (n : ℕ) (m : Message) (d : ObuData F) (at : log n ≡ some m)
      (decoded : codec.decode_event m.value ≡ some d) (valid : invalid_event d ≡ false)
      (refuses : (dist : F) (w : W) → (client.aggregate (request_of dist d) w).0 ≢ none) where
    process_message-Failed :
        (s : State) → Failed s.broker (process_message codec kafka client deadline_exceeded m s)
    unfolding process_message process_event
    process_message-Failed s =
        let dist = (calculate_dist d s.calc).0 in
        elim (Option-cases (client.aggregate (request_of dist d) s.downstream).0) [
          | inl taken ↦ absurd (refuses dist s.downstream taken)
          | inr (e, refused) ↦ rw (decoded, valid, refused) (λ h. ground (arith, h), refl)
        ]

    -- A round after which the consumer is at offset `n` again, with the same committed offset.
    abbrev Back : K → Round State → Type 0
    Back k (next_round s) = (position s.broker ≡ n) × (committed s.broker ≡ committed k)
    Back k (stop e s) = ⊥

    Back-along : (k k' : K) (r : Round State) → committed k ≡ committed k' → Back k r → Back k' r
    Back-along k k' (next_round s) same (here, kept) = (here, kept ∙ same)
    Back-along k k' (stop e s) same b = b

    after_process-Back :
        (k : K) (out : Option ProcessError × State)
        → m.offset ≡ pos n
        → Failed k out
        → Back k (after_process codec kafka client deadline_exceeded m out)
    after_process-Back k (none, s) off (failed, stays) = absurd (failed refl)
    after_process-Back k (some e, s) off (failed, stays) =
        rw (seeks m s.broker, stays)
          (partition.seek_position k m n off (seeks m k), partition.seek_committed k m)

    after_read-Back :
        (k : K) (s : State)
        → m.offset ≡ pos n
        → Back k (after_read codec kafka client deadline_exceeded (message m, k) s)
    after_read-Back k s off =
        let c = s.metrics in
        let s' = record s { broker = k; metrics = record c { consumed = c.consumed + 1 } } in
        let s'' = update_lag codec kafka client deadline_exceeded m s' in
        let (failed, stays) = process_message-Failed s'' in
        after_process-Back k _ off
          (failed, stays ∙ update_lag_keeps codec kafka client deadline_exceeded log partition m s')

    round-Back :
        (s : State)
        → position s.broker ≡ n
        → Back s.broker (round codec kafka client deadline_exceeded s)
    unfolding round
    round-Back s here =
        let (r, k) = kafka.read s.broker in
        let got : r ≡ message m = available s.broker m (rw here at) in
        let (_, off, _, kept) = partition.read_message s.broker m k (ap (λ x. (x, k)) got) in
        rw (live s.broker, got)
          (Back-along k s.broker _ kept (after_read-Back k s (rw here at off)))

    abbrev Again : K → Option Exit × State → Type 0
    Again k (e, s) = (e ≡ none) × (position s.broker ≡ n) × (committed s.broker ≡ committed k)

    continue-Again :
        (rest : State → Option Exit × State) (k : K)
        → ((s : State) → position s.broker ≡ n → Again s.broker (rest s))
        → (r : Round State) → Back k r
        → Again k (continue_with codec kafka client deadline_exceeded rest r)
    continue-Again rest k h (next_round s) (here, kept) =
        let (running, there, later) = h s here in (running, there, later ∙ kept)
    continue-Again rest k h (stop e s) none_such = absurd none_such

    -- Over a partition with the laws of `IsPartition` and while the broker answers every call: if
    -- the message at the position is a valid event whose request the aggregator refuses every
    -- time, then after any number of rounds the loop is still running, the position is the same,
    -- and so is the committed offset, so that no message behind it is ever processed.
    pub refused_event_blocks :
        (rounds : ℕ) (s : State)
        → position s.broker ≡ n
        → let (e, s') = start codec kafka client deadline_exceeded rounds s in
          (e ≡ none) × (position s'.broker ≡ n) × (committed s'.broker ≡ committed s.broker)
    unfolding start
    refused_event_blocks zero s here = (refl, here, refl)
    refused_event_blocks (suc rounds) s here =
        continue-Again (start codec kafka client deadline_exceeded rounds) s.broker
          (refused_event_blocks rounds) (round codec kafka client deadline_exceeded s)
          (round-Back s here)
