-- ===== src/Examples/Journeys.antt =====
-- Messages of a connection on their way into the aggregator's store.
use toll_calc.Common.{◌≡◌, refl, sym, false, inl, inr, List, [], ◌∷◌, arith}
use mathlib.Core.List.Memᴰ
use mathlib.Core.List.{Memᴰ}
use toll_calc.Common.Text.{Text, text}
use toll_calc.Aggregator.Grpc.{intercepted}
use toll_calc.Aggregator.Refinement.{service}
use toll_calc.Calculator.Consumer.Recorded.{Recorded, intercepted-IsDelivering}
use toll_calc.Receiver.Producer.{KafkaMessage, produce_data}
use toll_calc.Receiver.Loop.{ws_receive_loop, receive}
use toll_calc.Receiver.EndToEnd.{IsKeeping, IsPassed, received, received_reaches_store}
use toll_calc.Float.Grid.{Grid-Float64}
use toll_calc.Examples.Codec.{number_codec, number_codec-IsCodec}
use toll_calc.Examples.Streams.{event, messages, kafka_log, receiving}
use toll_calc.Examples.Parties.{log_of, list_broker, list_broker-IsPartition}
use toll_calc.Examples.Consumers.{over_grpc, reached, four_committed}

abbrev values : List KafkaMessage → List Text
values [] = []
values (m ∷ ms) = m.value ∷ values ms

abbrev kafka_log-IsKeeping : IsKeeping kafka_log
kafka_log-IsKeeping = record {
  OnTopic = λ v p. Memᴰ v (values p);
  acknowledged = λ m p enqueued reported. Memᴰ.head refl;
  produce_keeps = λ m p v h. Memᴰ.tail h;
  await_keeps = λ p v h. h;
}

passed :
    (v : Text)
    → Memᴰ v (values (received number_codec kafka_log (text "obudata") messages receiving).producer)
    → IsPassed (log_of messages) reached.broker.committed v
unfolding ws_receive_loop receive produce_data
passed v h = elim (Memᴰ.cases_cons h) [
  | inl same ↦ (0, _, refl, sym same, omega (arith, four_committed))
  | inr later ↦ elim (Memᴰ.cases_cons later) [
    | inl same ↦ (0, _, refl, sym same, omega (arith, four_committed))
    | inr none_left ↦ absurd (Memᴰ.not-nil none_left)
  ]
]

none_failed :
    (received number_codec kafka_log (text "obudata") messages receiving).metrics.enqueue_failures
    ≡ 0
unfolding ws_receive_loop receive produce_data
none_failed = refl

received_reaches_store_example : Recorded (text "a") reached.downstream.world.service
unfolding list_broker-IsPartition
received_reaches_store_example =
    received_reaches_store number_codec kafka_log (text "obudata") kafka_log-IsKeeping
      (intercepted service) (λ w. w) intercepted-IsDelivering number_codec-IsCodec
      (list_broker messages) (λ w. false) (log_of messages) (list_broker-IsPartition messages)
      messages receiving 5 over_grpc event none_failed refl refl passed (Memᴰ.head refl)
