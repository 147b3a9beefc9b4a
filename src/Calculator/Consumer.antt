-- ===== src/Calculator/Consumer.antt =====
-- dist-calc/consumer.go: one consumer loop over one partition. The Kafka client is a `Broker` over
-- a state `K`, the aggregator client a `Client` over a state `W`.
pub mod Delivery
pub mod Rounds
pub mod Truncation
pub mod Advance
pub mod Blocked
pub mod Recorded
pub mod Sources
pub mod Reconciled
pub mod Settling
pub mod Pipeline
use toll_calc.Common.{
  ℕ, zero, suc, ◌+◌, Bool, true, false, Option, none, some, ◌⊎◌, inl, inr, List, [], ◌∷◌,
  if◌then◌else◌,
}
use toll_calc.Common.Int.{ℤ, pos, ◌-ℤ◌, ltb_ℤ, int32}
use toll_calc.Common.Eq.{List-Eq, ℕ-Eq}
use toll_calc.Common.Map.{Map, insert}
use toll_calc.Common.Text.{Text, text, itoa}
use toll_calc.Float.{Float64}
use toll_calc.Types.{ObuData, AggregateRequest, invalid_event}
use toll_calc.Http.{Codec, Counters, inc}
use toll_calc.Client.{Client, ClientError}
use toll_calc.Calculator.{CalcService, calculate_dist}

pub record Message : Type 0 where
  pub topic : Option Text
  pub partition : ℤ
  pub offset : ℤ
  pub value : Text

pub data ReadResult : Type 0 where
  message : Message → ReadResult
  timed_out read_failed : ReadResult

-- What the loop uses of `kafka.Consumer` and of its context. `true` stands for a nil error.
pub record Broker (K : Type 0) : Type 0 where
  pub cancelled : K → Bool
  pub read : K → ReadResult × K
  pub commit : Message → K → Bool × K
  pub seek : Message → K → Bool × K
  -- the high watermark, if it is known
  pub watermark : Text → ℤ → K → Option ℤ

pub record ConsumerMetrics : Type 0 where
  pub consumed : ℕ
  pub errors : Counters
  pub deserialization_errors : ℕ
  pub timeouts : ℕ
  pub lag : Map (List Text) ℤ

pub record KafkaConsumer (F K W : Type 0) : Type 0 where
  pub broker : K
  pub calc : CalcService F
  pub downstream : W
  pub metrics : ConsumerMetrics

pub data ProcessError : Type 0 where
  commit_error : ProcessError
  aggregate_error : ClientError → ProcessError

-- How `Start` returns: without an error, or because a rewind failed.
pub data Exit : Type 0 where
  finished rewind_failed : Exit

-- A round of the loop: it goes on, or `Start` returns.
pub data Round (S : Type 0) : Type 0 where
  next_round : S → Round S
  stop : Exit → S → Round S

abbrev pub request_of : {F : Type 0} → F → ObuData F → AggregateRequest F
request_of dist d = record {
  obu_id = int32 d.obu_id;
  value = dist;
  produced_at_unix_nano = d.produced_at_unix_nano;
  event_id = d.event_id;
}

abbrev count_error : Text → ConsumerMetrics → ConsumerMetrics
count_error stage m = record m { errors = inc (stage ∷ []) m.errors }

module _ {F K W : Type 0} ⦃f : Float64 F⦄ (codec : Codec F) (kafka : Broker K) (client : Client F W)
    -- has the deadline of the call passed when it returns?
    (deadline_exceeded : W → Bool) where
  abbrev pub State : Type 0
  State = KafkaConsumer F K W

  abbrev after_aggregate : Option ClientError × W → State → Option ProcessError × State
  after_aggregate (e, w) s =
      let m = s.metrics in
      let timeouts' = if deadline_exceeded w then m.timeouts + 1 else m.timeouts in
      let s' = record s { downstream = w; metrics = record m { timeouts = timeouts' } } in
      (elim e [ none ↦ none | some err ↦ some (aggregate_error err) ], s')

  unfoldable pub process_event : ObuData F → State → Option ProcessError × State
  process_event d s =
      let (dist, calc') = calculate_dist d s.calc in
      after_aggregate (client.aggregate (request_of dist d) s.downstream)
        (record s { calc = calc' })

  unfoldable pub commit_message : Message → State → Option ProcessError × State
  commit_message msg s =
      let (done, broker') = kafka.commit msg s.broker in
      (if done then none else some commit_error, record s { broker = broker' })

  unfoldable pub discard : Message → State → Option ProcessError × State
  unfolding commit_message
  discard msg s =
      let m = s.metrics in
      commit_message msg
        (record s { metrics = record m { deserialization_errors = m.deserialization_errors + 1 } })

  -- The commit of an event that was processed.
  abbrev pub then_commit : Message → Option ProcessError × State → Option ProcessError × State
  then_commit msg (some e, s) = (some e, s)
  then_commit msg (none, s) = commit_message msg s

  abbrev process_decoded : Message → Option (ObuData F) → State → Option ProcessError × State
  process_decoded msg none s = discard msg s
  process_decoded msg (some d) s =
      if invalid_event d then discard msg s else then_commit msg (process_event d s)

  unfoldable pub process_message : Message → State → Option ProcessError × State
  process_message msg s = process_decoded msg (codec.decode_event msg.value) s

  abbrev set_lag : Text → Message → Option ℤ → State → State
  set_lag topic msg none s = s
  set_lag topic msg (some high) s =
      let behind = high -ℤ msg.offset -ℤ pos 1 in
      let lag = if ltb_ℤ behind (pos 0) then pos 0 else behind in
      let m = s.metrics in
      record s { metrics = record m { lag = insert (topic ∷ itoa msg.partition ∷ []) lag m.lag } }

  unfoldable pub update_lag : Message → State → State
  update_lag msg s = elim msg.topic [
    | none ↦ s
    | some topic ↦ set_lag topic msg (kafka.watermark topic msg.partition s.broker) s
  ]

  -- The error branch of the loop: rewind to the message, or give up.
  abbrev rewind : Message → State → Round State
  rewind msg s =
      let (done, broker') = kafka.seek msg s.broker in
      let m = count_error (text "process") s.metrics in
      if done
      then next_round (record s { broker = broker'; metrics = m })
      else stop rewind_failed (record s { broker = broker'; metrics = count_error (text "seek") m })

  abbrev after_process : Message → Option ProcessError × State → Round State
  after_process msg (none, s) = next_round s
  after_process msg (some e, s) = rewind msg s

  abbrev after_read : ReadResult × K → State → Round State
  after_read (timed_out, k) s = next_round (record s { broker = k })
  after_read (read_failed, k) s =
      next_round (record s { broker = k; metrics = count_error (text "read") s.metrics })
  after_read (message msg, k) s =
      let m = s.metrics in
      let s' = record s { broker = k; metrics = record m { consumed = m.consumed + 1 } } in
      after_process msg (process_message msg (update_lag msg s'))

  unfoldable pub round : State → Round State
  round s = if kafka.cancelled s.broker then stop finished s else after_read (kafka.read s.broker) s

  abbrev continue_with : (State → Option Exit × State) → Round State → Option Exit × State
  continue_with rest (next_round s) = rest s
  continue_with rest (stop e s) = (some e, s)

  -- `Start` for at most so many rounds: how it returned, if it did, and the state reached.
  unfoldable pub start : ℕ → State → Option Exit × State
  start zero s = (none, s)
  start (suc n) s = continue_with (start n) (round s)
