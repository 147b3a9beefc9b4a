-- ===== src/Receiver/Publishing.antt =====
-- What a connection's loop publishes, and what becomes of it at the distance calculator.
use toll_calc.Common.{
  ℕ, ◌+◌, ◌-◌, ◌^◌, ◌≡◌, refl, ap, ◌↔◌, Bool, true, false, Option, none, some, List, [], ◌∷◌, arith,
  if◌then◌else◌,
}
use toll_calc.Common.Int.{pos, ◌≤ℤ◌, ◌+ℤ◌, ◌-ℤ◌}
use toll_calc.Common.Eq.{ℕ-Eq}
use toll_calc.Common.Map.{lookup, insert, contains, lookup-insert, lookup-delete}
use toll_calc.Common.Text.{Text, length, itoa, atoi}
use toll_calc.Common.Text.Decimal.{atoi-itoa}
use toll_calc.Common.Text.Utf8.{is_utf8}
use toll_calc.Float.{Float64}
use toll_calc.Types.{ObuData, invalid_event}
use toll_calc.Http.{Codec, IsCodec}
use toll_calc.Client.{Client}
use toll_calc.Calculator.Consumer.{
  Message, Broker, KafkaConsumer, process_event, process_message, then_commit,
}
use toll_calc.Receiver.Producer.{ProduceError, DataProducer, new_kafka_message}
use toll_calc.Receiver.Loop.{
  Receiving, receive, ws_receive_loop, Connections, register, unregister, handle_ws,
}

module _ {F P : Type 0} (codec : Codec F) (prod : DataProducer F P) where
  abbrev valid_or : Option (ObuData F) → List (ObuData F) → List (ObuData F)
  valid_or none ds = ds
  valid_or (some d) ds = if invalid_event d then ds else d ∷ ds

  -- The valid events among the messages, in order.
  abbrev pub valid_events : List Text → List (ObuData F)
  valid_events [] = []
  valid_events (payload ∷ payloads) = valid_or (codec.decode_event payload) (valid_events payloads)

  -- Handing events to the producer one after the other: how many failed, and its state.
  abbrev failed : Option ProduceError → ℕ
  failed none = 0
  failed (some e) = 1

  abbrev pub produce_all : List (ObuData F) → P → ℕ × P
  produce_all [] p = (0, p)
  produce_all (d ∷ ds) p =
      let (e, p') = prod.produce_data d p in let (n, p'') = produce_all ds p' in (failed e + n, p'')

  -- The loop hands the producer exactly the valid events, unchanged and in order; it counts every
  -- message as received, every other message as invalid, and every failure of the producer.
  pub ws_receive_loop_lem :
      (payloads : List Text) (s : Receiving P)
      → let s' = ws_receive_loop codec prod payloads s in
        let events = valid_events payloads in
        let (failures, p) = produce_all events s.producer in
        (s'.producer ≡ p)
        × (s'.metrics.received ≡ s.metrics.received + length payloads)
        × (s'.metrics.invalid + length events ≡ s.metrics.invalid + length payloads)
        × (s'.metrics.enqueue_failures ≡ s.metrics.enqueue_failures + failures)
  unfolding ws_receive_loop receive
  ws_receive_loop_lem [] s = (refl, omega arith, refl, omega arith)
  ws_receive_loop_lem (payload ∷ payloads) s =
      ground (arith, ws_receive_loop_lem payloads (receive codec prod payload s))

-- A connection that was not open before leaves, when it ends, the set of open connections and
-- the gauge as they were.
pub handle_ws_restores :
    {F P : Type 0} (codec : Codec F) (prod : DataProducer F P) (conn : ℕ) (payloads : List Text)
    (c : Connections) (s : Receiving P)
    → contains conn c.open_connections ≡ false
    → let (c', _) = handle_ws codec prod (some conn) payloads (c, s) in
      ((j : ℕ) → lookup j c'.open_connections ≡ lookup j c.open_connections)
      × (c'.active ≡ c.active)
unfolding handle_ws register unregister contains ◌+ℤ◌ ◌-ℤ◌
handle_ws_restores codec prod conn payloads c s fresh = (
  λ j. ground (
    arith,
    lookup-delete conn j (insert conn tt c.open_connections),
    lookup-insert conn j tt c.open_connections,
  ),
  ground arith,
)

-- For events whose OBU IDs are from 1 to 2^63 - 1, two messages have the same Kafka key exactly
-- when their events have the same OBU ID.
pub same_key_iff :
    {F : Type 0} (topic : Text) (d e : ObuData F) (v w : Text)
    → pos 1 ≤ℤ d.obu_id
    → d.obu_id ≤ℤ pos (2 ^ 63 - 1)
    → pos 1 ≤ℤ e.obu_id
    → e.obu_id ≤ℤ pos (2 ^ 63 - 1)
    → ((new_kafka_message topic d v).key ≡ (new_kafka_message topic e w).key)
      ↔ (d.obu_id ≡ e.obu_id)
same_key_iff topic d e v w dlo dhi elo ehi = (
  λ same.
      cc (atoi-itoa d.obu_id (omega arith) dhi, atoi-itoa e.obu_id (omega arith) ehi, ap atoi same),
  λ same. ap itoa same,
)

-- With a codec that reads back what it writes, a message whose value was encoded from a valid
-- event, whose texts are valid UTF-8, is decoded to that event by the calculator and processed: it is not discarded.
pub published_is_processed :
    {F K W : Type 0} ⦃f : Float64 F⦄ (codec : Codec F) (kafka : Broker K) (client : Client F W)
    (deadline_exceeded : W → Bool)
    → IsCodec codec
    → (d : ObuData F) (msg : Message) (s : KafkaConsumer F K W) → invalid_event d ≡ false
    → is_utf8 d.event_id ≡ true
    → is_utf8 d.payload ≡ true
    → codec.encode_event d ≡ some msg.value
    → process_message codec kafka client deadline_exceeded msg s
      ≡ then_commit codec kafka client deadline_exceeded msg
          (process_event codec kafka client deadline_exceeded d s)
unfolding process_message
published_is_processed codec kafka client deadline_exceeded laws d msg s valid id_utf8 payload_utf8
      encoded =
    rw (laws.event_back d msg.value id_utf8 payload_utf8 encoded, valid)
