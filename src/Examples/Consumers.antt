-- ===== src/Examples/Consumers.antt =====
-- The consumer's progress on short streams of messages.
use toll_calc.Common.{◌≡◌, refl, false, none, some, inl, List, [], ◌∷◌, arith}
use toll_calc.Common.Int.{int32}
use toll_calc.Common.Eq.{List-Eq, ℕ-Eq, ℤ-Eq}
use toll_calc.Common.Map.{lookup, contains, insert as put}
use toll_calc.Common.Text.{text}
use toll_calc.Float.Grid.{Grid, Grid-Float64}
use toll_calc.Types.{AggregateRequest}
use toll_calc.Aggregator.{aggregate_distance}
use toll_calc.Aggregator.Http.{Server}
use toll_calc.Aggregator.Grpc
use toll_calc.Aggregator.Grpc.{GrpcCode, intercepted}
use toll_calc.Aggregator.Store.{MemoryStore, new_memory_store, insert, add_total, mark_processed}
use toll_calc.Aggregator.Refinement.{service}
use toll_calc.Client.{Client, grpc_status}
use toll_calc.Client.GrpcClient
use toll_calc.Client.GrpcClient.{Channel}
use toll_calc.Calculator.{new_calc_service, calculate_dist, calculate_new}
use toll_calc.Calculator.Consumer.{
  KafkaConsumer, start, round, process_message, process_event, commit_message, update_lag, discard,
}
use toll_calc.Calculator.Consumer.Advance.{IsServing}
use toll_calc.Calculator.Consumer.Blocked.{refused_event_blocks}
use toll_calc.Calculator.Consumer.Recorded.{
  Recorded, after_rounds, committed_reaches_store, intercepted-IsDelivering,
}
use toll_calc.Examples.Codec.{number_codec}
use toll_calc.Examples.Streams.{event, messages, consumer}
use toll_calc.Examples.Parties.{Cursor, log_of, list_broker, list_broker-IsPartition}

-- A client whose server takes every request, and one whose server takes none.
abbrev open_client : Client Grid (List (AggregateRequest Grid))
open_client = record {
  aggregate = λ r w. (none, r ∷ w);
  get_invoice = λ id w. (inl (grpc_status GrpcCode.unimplemented), w);
  close = λ w. w;
}

abbrev closed_client : Client Grid (List (AggregateRequest Grid))
closed_client = record {
  aggregate = λ r w. (some (grpc_status GrpcCode.invalid_argument), w);
  get_invoice = λ id w. (inl (grpc_status GrpcCode.unimplemented), w);
  close = λ w. w;
}

list_broker-IsServing :
    (client : Client Grid (List (AggregateRequest Grid)))
    → IsServing number_codec
        (list_broker messages)
        client
        (λ w. false)
        (log_of messages)
        (list_broker-IsPartition messages)
unfolding list_broker-IsPartition
list_broker-IsServing client = record {
  live = λ k. refl;
  available = λ k m there. rw there refl;
  commits = λ m k. refl;
  seeks = λ m k. refl;
}

refused_event_blocks_example :
    let (e, s') = start number_codec (list_broker messages) closed_client (λ w. false) 7 consumer in
    (e ≡ none) × (s'.broker.position ≡ 0) × (s'.broker.committed ≡ 0)
unfolding list_broker-IsPartition
refused_event_blocks_example =
    refused_event_blocks number_codec (list_broker messages) closed_client (λ w. false)
      (log_of messages) (list_broker-IsPartition messages) (list_broker-IsServing closed_client) 0 _
      event refl refl refl (λ dist w h. ground (arith, h)) 7 consumer refl

abbrev pub over_grpc : KafkaConsumer Grid Cursor (Channel (Server (MemoryStore Grid)))
over_grpc = record {
  broker = consumer.broker;
  calc = new_calc_service;
  downstream = record {
    requests = [];
    world = record {
      protocol_events = [];
      http_requests = [];
      grpc_requests = [];
      service = new_memory_store;
    };
  };
  metrics = consumer.metrics;
}

abbrev pub reached : KafkaConsumer Grid Cursor (Channel (Server (MemoryStore Grid)))
reached =
    after_rounds (intercepted service) (λ w. w) intercepted-IsDelivering number_codec
      (list_broker messages) (λ w. false) 5 over_grpc

pub four_committed : reached.broker.committed ≡ 4
unfolding start round process_message process_event int32 commit_message update_lag discard
    GrpcClient.aggregate intercepted Grpc.aggregate aggregate_distance insert calculate_dist
    calculate_new lookup contains put add_total mark_processed
four_committed = refl

committed_reaches_store_example : Recorded (text "a") reached.downstream.world.service
unfolding list_broker-IsPartition
committed_reaches_store_example =
    committed_reaches_store (intercepted service) (λ w. w) intercepted-IsDelivering number_codec
      (list_broker messages) (λ w. false) (log_of messages) (list_broker-IsPartition messages) 5
      over_grpc 3 _ event refl refl (omega (arith, four_committed)) refl refl refl
