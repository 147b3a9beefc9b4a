-- ===== src/Receiver/EndToEnd.antt =====
-- From a connection of the receiver through Kafka and the distance calculator into the aggregator's
-- store.
use toll_calc.Common.{
  ℕ, ◌<◌, ◌≡◌, refl, ap, Bool, true, false, Option, none, some, inl, inr, List, [], ◌∷◌, ◌∙◌, arith,
  Bool-cases, Option-cases,
}
use mathlib.Core.List.Memᴰ
use mathlib.Core.List.{Memᴰ}
use toll_calc.Common.Text.{Text}
use toll_calc.Common.Text.Utf8.{is_utf8}
use toll_calc.Float.{Float64}
use toll_calc.Types.{ObuData, AggregateRequest, invalid_event}
use toll_calc.Http.{Codec, IsCodec}
use toll_calc.Aggregator.Store.{MemoryStore}
use toll_calc.Aggregator.Http.{Server}
use toll_calc.Aggregator.Grpc.{GrpcStatus}
use toll_calc.Client.GrpcClient.{Channel}
use toll_calc.Calculator.Consumer.{Message, Broker, KafkaConsumer}
use toll_calc.Calculator.Consumer.Delivery.{IsPartition}
use toll_calc.Calculator.Consumer.Recorded.{
  Recorded, IsDelivering, after_rounds, committed_reaches_store,
}
use toll_calc.Receiver.Producer.{
  DataProducer, KafkaMessage, KafkaClient, Delivery, report, context_done, other_event,
  new_kafka_message, delivery_error, produce_data, kafka_producer,
}
use toll_calc.Receiver.Loop.{Receiving, ws_receive_loop}
use toll_calc.Receiver.Publishing.{valid_events, produce_all, ws_receive_loop_lem}

-- A topic that keeps what it has acknowledged.
pub record IsKeeping {P : Type 0} (kafka : KafkaClient P) : Type 1 where
  pub OnTopic : Text → P → Type 0
  pub acknowledged :
      (m : KafkaMessage) (p : P)
      → (kafka.produce m p).0 ≡ true
      → (kafka.await (kafka.produce m p).1).0 ≡ report false
      → OnTopic m.value (kafka.await (kafka.produce m p).1).1
  pub produce_keeps :
      (m : KafkaMessage) (p : P) (v : Text) → OnTopic v p → OnTopic v (kafka.produce m p).1
  pub await_keeps : (p : P) (v : Text) → OnTopic v p → OnTopic v (kafka.await p).1

-- The value is that of a record below the offset.
abbrev pub IsPassed : (log : ℕ → Option Message) (offset : ℕ) → Text → Type 0
IsPassed log offset v = (i : ℕ) × (m : Message) × (log i ≡ some m) × (m.value ≡ v) × (i < offset)

-- A connection's loop in front of the Kafka producer.
abbrev pub received :
    {F P : Type 0} → Codec F → KafkaClient P → Text → List Text → Receiving P → Receiving P
received codec kafka topic payloads r =
    ws_receive_loop codec (kafka_producer codec kafka topic) payloads r

module _ {F P : Type 0} ⦃f : Float64 F⦄ (codec : Codec F) (kafka : KafkaClient P) (topic : Text)
    (keeping : IsKeeping kafka) where
  open keeping use {OnTopic, acknowledged, produce_keeps, await_keeps}

  delivery_error-none :
      (x : Delivery) → delivery_error codec kafka topic x ≡ none → x ≡ report false
  delivery_error-none context_done h = ground (arith, h)
  delivery_error-none other_event h = ground (arith, h)
  delivery_error-none (report true) h = ground (arith, h)
  delivery_error-none (report false) h = refl

  produce_data-keeps :
      (d : ObuData F) (p : P) (v : Text)
      → OnTopic v p
      → OnTopic v (produce_data codec kafka topic d p).1
  unfolding produce_data
  produce_data-keeps d p v h = elim (Option-cases (codec.encode_event d)) [
    | inl unencoded ↦ rw unencoded h
    | inr (b, encoded) ↦
        let m = new_kafka_message topic d b in
        let kept = produce_keeps m p v h in
        elim (Bool-cases (kafka.produce m p).0) [
          | inl enqueued ↦ rw (encoded, enqueued) (await_keeps (kafka.produce m p).1 v kept)
          | inr refused ↦ rw (encoded, refused) kept
        ]
  ]

  -- The topic has what the codec writes for the event.
  abbrev IsPublished : ObuData F → P → Type 0
  IsPublished d p = (v : Text) × (codec.encode_event d ≡ some v) × OnTopic v p

  produce_data-IsPublished :
      (d : ObuData F) (p : P)
      → (produce_data codec kafka topic d p).0 ≡ none
      → IsPublished d (produce_data codec kafka topic d p).1
  unfolding produce_data
  produce_data-IsPublished d p h = elim (Option-cases (codec.encode_event d)) [
    | inl unencoded ↦ absurd (ground (arith, unencoded, h))
    | inr (b, encoded) ↦
        let m = new_kafka_message topic d b in
        elim (Bool-cases (kafka.produce m p).0) [
          | inl enqueued ↦
              let reported =
                delivery_error-none (kafka.await (kafka.produce m p).1).0
                  (rw (encoded, enqueued) at h) in
              rw (encoded, enqueued) (b, refl, acknowledged m p enqueued reported)
          | inr refused ↦ absurd (ground (arith, encoded, refused, h))
        ]
  ]

  abbrev producer : DataProducer F P
  producer = kafka_producer codec kafka topic

  produce_all-keeps :
      (ds : List (ObuData F)) (p : P) (v : Text)
      → OnTopic v p
      → OnTopic v (produce_all codec producer ds p).1
  produce_all-keeps [] p v h = h
  produce_all-keeps (d ∷ ds) p v h =
      produce_all-keeps ds (produce_data codec kafka topic d p).1 v (produce_data-keeps d p v h)

  -- Where no call of the producer fails, every event is published.
  produce_all-IsPublished :
      (ds : List (ObuData F)) (p : P) (d : ObuData F)
      → (produce_all codec producer ds p).0 ≡ 0
      → Memᴰ d ds
      → IsPublished d (produce_all codec producer ds p).1
  produce_all-IsPublished [] p d none_failed member = absurd (Memᴰ.not-nil member)
  produce_all-IsPublished (e ∷ ds) p d none_failed member =
      let p' = (produce_data codec kafka topic e p).1 in
      elim (Memᴰ.cases_cons member) [
        | inl same ↦ elim (Option-cases (produce_data codec kafka topic e p).0) [
          | inl done ↦
              let (v, encoded, stored) = produce_data-IsPublished e p done in
              (v, rw same encoded, produce_all-keeps ds p' v stored)
          | inr (error, failed) ↦ absurd (ground (arith, failed, none_failed))
        ]
        | inr later ↦ produce_all-IsPublished ds p' d (ground (arith, none_failed)) later
      ]

  valid_events-valid :
      (payloads : List Text) (d : ObuData F)
      → Memᴰ d (valid_events codec producer payloads)
      → invalid_event d ≡ false
  valid_events-valid [] d member = absurd (Memᴰ.not-nil member)
  valid_events-valid (payload ∷ payloads) d member =
      elim (Option-cases (codec.decode_event payload)) [
        | inl broken ↦ valid_events-valid payloads d (rw broken at member)
        | inr (e, decoded) ↦ elim (Bool-cases (invalid_event e)) [
          | inl invalid ↦ valid_events-valid payloads d (rw (decoded, invalid) at member)
          | inr valid ↦ elim (Memᴰ.cases_cons (rw (decoded, valid) at member)) [
            | inl same ↦ ap invalid_event same ∙ valid
            | inr later ↦ valid_events-valid payloads d later
          ]
        ]
      ]

  valid_events-texts :
      (laws : IsCodec codec) (payloads : List Text) (d : ObuData F)
      → Memᴰ d (valid_events codec producer payloads)
      → (is_utf8 d.event_id ≡ true) × (is_utf8 d.payload ≡ true)
  valid_events-texts laws [] d member = absurd (Memᴰ.not-nil member)
  valid_events-texts laws (payload ∷ payloads) d member =
      elim (Option-cases (codec.decode_event payload)) [
        | inl broken ↦ valid_events-texts laws payloads d (rw broken at member)
        | inr (e, decoded) ↦ elim (Bool-cases (invalid_event e)) [
          | inl invalid ↦ valid_events-texts laws payloads d (rw (decoded, invalid) at member)
          | inr valid ↦ elim (Memᴰ.cases_cons (rw (decoded, valid) at member)) [
            | inl same ↦
                let (id, text) = laws.event_texts e payload decoded in
                (ap (λ x. is_utf8 x.event_id) same ∙ id, ap (λ x. is_utf8 x.payload) same ∙ text)
            | inr later ↦ valid_events-texts laws payloads d later
          ]
        ]
      ]

  module _
      (call : AggregateRequest F → Server (MemoryStore F) → GrpcStatus × Server (MemoryStore F))
      (close_conn : Server (MemoryStore F) → Server (MemoryStore F))
      (delivering : IsDelivering call) where
    -- With a codec that reads back what it writes, a topic of one partition that keeps what it has
    -- acknowledged, the laws of `IsPartition`, a gRPC network that may lose requests and answers,
    -- and a group that starts at offset 0: if a connection's loop has counted no failure of the
    -- producer, and the calculator's loop has committed past every record of the topic, after any
    -- number of rounds and however it has returned, then every valid event among the connection's
    -- messages is among the processed events of the aggregator's store.
    pub received_reaches_store :
        {K : Type 0} (laws : IsCodec codec) (broker : Broker K)
        (deadline_exceeded : Channel (Server (MemoryStore F)) → Bool) (log : ℕ → Option Message)
        (partition : IsPartition broker log) (payloads : List Text) (r : Receiving P) (rounds : ℕ)
        (s : KafkaConsumer F K (Channel (Server (MemoryStore F)))) (d : ObuData F)
        → (received codec kafka topic payloads r).metrics.enqueue_failures
          ≡ r.metrics.enqueue_failures
        → partition.position s.broker ≡ 0
        → partition.committed s.broker ≡ 0
        → ((v : Text)
            → OnTopic v (received codec kafka topic payloads r).producer
            → IsPassed log
                (partition.committed
                  (after_rounds call close_conn delivering codec broker deadline_exceeded rounds
                    s).broker)
                v)
        → Memᴰ d (valid_events codec (kafka_producer codec kafka topic) payloads)
        → Recorded d.event_id
            (after_rounds call close_conn delivering codec broker deadline_exceeded rounds
              s).downstream.world.service
    received_reaches_store laws broker late log partition payloads r rounds s d none_failed at_0
          none_yet passed member =
        let (same, _, _, counted) = ws_receive_loop_lem codec producer payloads r in
        let (v, encoded, stored) =
          produce_all-IsPublished (valid_events codec producer payloads) r.producer d
            (omega (arith, none_failed, counted)) member in
        let (id_utf8, payload_utf8) = valid_events-texts laws payloads d member in
        let (i, m, at, value, below) = passed v (rw same stored) in
        committed_reaches_store call close_conn delivering codec broker late log partition rounds s
          i m d at_0 none_yet below at (rw value (laws.event_back d v id_utf8 payload_utf8 encoded))
          (valid_events-valid payloads d member)
