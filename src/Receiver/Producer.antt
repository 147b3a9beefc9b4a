-- ===== src/Receiver/Producer.antt =====
-- data_receiver/producer.go and middleware.go. The Kafka client is a parameter over a state `P`.
use toll_calc.Common.{ℕ, Bool, Option, none, some, if◌then◌else◌, ltb}
use toll_calc.Common.Int.{ℤ, negsuc}
use toll_calc.Common.Text.{Text, itoa}
use toll_calc.Types.{ObuData}
use toll_calc.Http.{Codec}

pub data ProduceError : Type 0 where
  not_encoded not_enqueued timed_out unexpected_event not_delivered : ProduceError

pub record DataProducer (F P : Type 0) : Type 0 where
  -- `none` is a nil error
  pub produce_data : ObuData F → P → Option ProduceError × P
  pub close : P → Option ℕ × P

pub record KafkaMessage : Type 0 where
  pub topic : Text
  pub partition : ℤ
  pub key : Text
  pub value : Text

-- What the `select` receives first: the end of the context, a delivery report, which may carry an
-- error, or an event of another kind.
pub data Delivery : Type 0 where
  context_done other_event : Delivery
  report : (failed : Bool) → Delivery

pub record KafkaClient (P : Type 0) : Type 0 where
  -- `Produce`; `false` is an error
  pub produce : KafkaMessage → P → Bool × P
  pub await : P → Delivery × P
  -- `Flush(5000)`, the number of messages that remain
  pub flush : P → ℕ × P
  pub close_client : P → P

-- `kafka.PartitionAny`
abbrev pub partition_any : ℤ
partition_any = negsuc 0

abbrev pub new_kafka_message : {F : Type 0} → Text → ObuData F → Text → KafkaMessage
new_kafka_message topic d value = record {
  topic = topic;
  partition = partition_any;
  key = itoa d.obu_id;
  value = value;
}

module _ {F P : Type 0} (codec : Codec F) (kafka : KafkaClient P) (topic : Text) where
  abbrev pub delivery_error : Delivery → Option ProduceError
  delivery_error context_done = some timed_out
  delivery_error other_event = some unexpected_event
  delivery_error (report failed) = if failed then some not_delivered else none

  abbrev await_delivery : P → Option ProduceError × P
  await_delivery p = let (event, p') = kafka.await p in (delivery_error event, p')

  abbrev produce_encoded : ObuData F → Option Text → P → Option ProduceError × P
  produce_encoded d none p = (some not_encoded, p)
  produce_encoded d (some b) p =
      let (enqueued, p') = kafka.produce (new_kafka_message topic d b) p in
      if enqueued then await_delivery p' else (some not_enqueued, p')

  unfoldable pub produce_data : ObuData F → P → Option ProduceError × P
  produce_data d p = produce_encoded d (codec.encode_event d) p

  -- The error names the number of messages that were not delivered.
  unfoldable pub close : P → Option ℕ × P
  close p =
      let (remaining, p') = kafka.flush p in
      (if ltb 0 remaining then some remaining else none, kafka.close_client p')

  -- The log in front of it hands everything on.
  abbrev pub kafka_producer : DataProducer F P
  kafka_producer = record { produce_data = produce_data; close = close }
