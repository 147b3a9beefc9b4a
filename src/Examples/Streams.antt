-- ===== src/Examples/Streams.antt =====
-- The receiver and the consumer on short streams of messages.
use toll_calc.Common.{
  ◌^◌, suc, ◌≡◌, refl, ◌+◌, ◌||◌, Bool, true, false, Option, some, List, [], ◌∷◌, arith,
}
use toll_calc.Common.Int.{pos, int32}
use toll_calc.Common.Eq.{List-Eq, ℕ-Eq, ℤ-Eq}
use toll_calc.Common.Text.{Text, text, is_empty, length}
use toll_calc.Common.Strings.{split, equal_fold}
use toll_calc.Float.Grid.{Grid, whole, Grid-Float64}
use toll_calc.Types.{ObuData, AggregateRequest}
use toll_calc.Calculator.{new_calc_service}
use toll_calc.Calculator.Consumer.{
  KafkaConsumer, start, round, process_message, process_event, commit_message, update_lag, discard,
}
use toll_calc.Calculator.Consumer.{request_of}
use toll_calc.Calculator.Consumer.Truncation.{request_of_aliases}
use toll_calc.Calculator.Consumer.Delivery.{IsSafe, SettledBelow}
use toll_calc.Calculator.Consumer.Rounds.{start-Committed}
use toll_calc.Receiver.{origin_allowed, parse_origins}
use toll_calc.Receiver.Origins.{listed, origin_allowed_rules}
use toll_calc.Receiver.Producer.{
  KafkaClient, KafkaMessage, report, DataProducer, kafka_producer, produce_data,
}
use toll_calc.Receiver.Loop.{Receiving, ws_receive_loop}
use toll_calc.Receiver.Publishing.{valid_events, produce_all, ws_receive_loop_lem}
use toll_calc.Examples.Codec.{number_codec}
use toll_calc.Examples.Parties.{
  Cursor, log_of, list_broker, list_broker-IsPartition, recording_client,
  recording_client-IsReliable,
}

abbrev pub event : ObuData Grid
event = record {
  event_id = text "a";
  produced_at_unix_nano = pos 5;
  obu_id = pos 1;
  lat = whole (pos 2);
  lon = whole (pos 3);
  payload = text "p";
}

-- What the codec writes for the event, and two messages that are no valid events.
abbrev pub event_bytes : Text
event_bytes = 0 ∷ 5 ∷ 0 ∷ 1 ∷ 0 ∷ 2 ∷ 0 ∷ 3 ∷ (suc b'a') ∷ 0 ∷ text "p"

abbrev nameless_bytes : Text
nameless_bytes = 0 ∷ 5 ∷ 0 ∷ 1 ∷ 0 ∷ 2 ∷ 0 ∷ 3 ∷ 0 ∷ []

abbrev pub messages : List Text
messages = event_bytes ∷ text "?" ∷ nameless_bytes ∷ event_bytes ∷ []

abbrev never : List (AggregateRequest Grid) → Bool
never w = false

abbrev pub consumer : KafkaConsumer Grid Cursor (List (AggregateRequest Grid))
consumer = record {
  broker = record { position = 0; committed = 0 };
  calc = new_calc_service;
  downstream = [];
  metrics = record {
    consumed = 0;
    errors = [];
    deserialization_errors = 0;
    timeouts = 0;
    lag = [];
  };
}

consumer-IsSafe :
    IsSafe number_codec
      (list_broker messages)
      recording_client
      never
      (log_of messages)
      (list_broker-IsPartition messages)
      recording_client-IsReliable
      consumer
unfolding list_broker-IsPartition
consumer-IsSafe = record {
  read_settled = λ i m lt e. absurd (omega (arith, lt));
  committed_settled = λ i m lt e. absurd (omega (arith, lt));
}

start-Committed_example :
    let s = (start number_codec (list_broker messages) recording_client never 5 consumer).1 in
    SettledBelow number_codec
      (list_broker messages)
      recording_client
      never
      (log_of messages)
      (list_broker-IsPartition messages)
      recording_client-IsReliable
      s.broker.committed
      s.downstream
unfolding list_broker-IsPartition
start-Committed_example =
    start-Committed number_codec (list_broker messages) recording_client never (log_of messages)
      (list_broker-IsPartition messages) recording_client-IsReliable 5 consumer consumer-IsSafe

-- After five rounds the four messages are behind the offset.
five_rounds :
    (start number_codec (list_broker messages) recording_client never 5 consumer).1.broker.committed
    ≡ 4
unfolding start round process_message process_event int32 commit_message update_lag discard
five_rounds = refl

-- A Kafka client that acknowledges every message.
abbrev pub kafka_log : KafkaClient (List KafkaMessage)
kafka_log = record {
  produce = λ m p. (true, m ∷ p);
  await = λ p. (report false, p);
  flush = λ p. (0, p);
  close_client = λ p. p;
}

abbrev pub producer : DataProducer Grid (List KafkaMessage)
producer = kafka_producer number_codec kafka_log (text "obudata")

abbrev pub receiving : Receiving (List KafkaMessage)
receiving = record {
  metrics = record { received = 0; invalid = 0; enqueue_failures = 0 };
  producer = [];
}

ws_receive_loop_lem_example :
    let s' = ws_receive_loop number_codec producer messages receiving in
    let events = valid_events number_codec producer messages in
    let (failures, p) = produce_all number_codec producer events [] in
    (s'.producer ≡ p)
    × (s'.metrics.received ≡ 4)
    × (s'.metrics.invalid + length events ≡ 4)
    × (s'.metrics.enqueue_failures ≡ failures)
unfolding produce_data
ws_receive_loop_lem_example = ws_receive_loop_lem number_codec producer messages receiving

abbrev same_host : Text → Option Text
same_host origin = some origin

origin_allowed_rules_example :
    origin_allowed same_host (text "a.b") (text "A.B") (parse_origins (text "x.y, z")) ≡ (
      is_empty (text "a.b")
      || listed (text "*") (split b',' (text "x.y, z"))
      || listed (text "a.b") (split b',' (text "x.y, z"))
      || equal_fold (text "a.b") (text "A.B"))
origin_allowed_rules_example =
    origin_allowed_rules same_host (text "a.b") (text "A.B") (text "x.y, z")

abbrev far_event : ObuData Grid
far_event = record event { obu_id = pos (1 + 2 ^ 32) }

request_of_aliases_example :
    ((request_of (whole (pos 4)) event).obu_id ≡ pos 1)
    × ((request_of (whole (pos 4)) far_event).obu_id ≡ pos 1)
request_of_aliases_example =
    request_of_aliases (whole (pos 4)) event far_event 1 refl refl (omega arith)
