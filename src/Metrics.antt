-- ===== src/Metrics.antt =====
-- The metrics that the packages declare, which `promauto` registers when a process starts. What is
-- counted and observed stands with the operations that do it.
pub mod Labels
use toll_calc.Common.{ℕ, List, [], ◌∷◌, ◌++◌}
use toll_calc.Common.Eq.{List-Eq, ℕ-Eq}
use toll_calc.Common.Text.{Text, text}

-- A decimal literal: its digits, and how many of them are behind the point.
abbrev pub Decimal : Type 0
Decimal = ℕ × ℕ

pub data Buckets : Type 0 where
  listed : List Decimal → Buckets
  -- `prometheus.ExponentialBuckets`
  exponential : (start factor : Decimal) → (count : ℕ) → Buckets

pub data MetricKind : Type 0 where
  counter gauge : MetricKind
  histogram : Buckets → MetricKind

pub record MetricOpts : Type 0 where
  pub namespace : Text
  pub name : Text
  pub kind : MetricKind
  pub labels : List Text

abbrev metric : MetricKind → Text → List Text → MetricOpts
metric kind name labels = record {
  namespace = text "tollify";
  name = name;
  kind = kind;
  labels = labels;
}

-- aggregator/http.go
abbrev pub aggregator_http_metrics : List MetricOpts
aggregator_http_metrics =
    metric
      (histogram (
        listed (
          (25, 5)
          ∷ (5, 4)
          ∷ (1, 3)
          ∷ (25, 4)
          ∷ (5, 3)
          ∷ (1, 2)
          ∷ (25, 3)
          ∷ (5, 2)
          ∷ (1, 1)
          ∷ (25, 2)
          ∷ (5, 1)
          ∷ (1, 0)
          ∷ [])))
      (text "http_server_request_duration_seconds") (text "method" ∷ text "route" ∷ [])
    ∷ metric counter (text "http_requests_total")
        (text "role" ∷ text "method" ∷ text "operation" ∷ text "code" ∷ [])
    ∷ metric counter (text "aggregator_events_received_total") (text "protocol" ∷ [])
    ∷ metric gauge (text "aggregator_open_connections") (text "protocol" ∷ [])
    ∷ []

-- aggregator/grpc.go
abbrev pub aggregator_grpc_metrics : List MetricOpts
aggregator_grpc_metrics =
    metric
      (histogram (
        listed (
          (25, 5)
          ∷ (5, 4)
          ∷ (1, 3)
          ∷ (25, 4)
          ∷ (5, 3)
          ∷ (1, 2)
          ∷ (25, 3)
          ∷ (5, 2)
          ∷ (1, 1)
          ∷ (25, 2)
          ∷ (5, 1)
          ∷ (1, 0)
          ∷ [])))
      (text "grpc_server_request_duration_seconds") (text "method" ∷ [])
    ∷ metric counter (text "grpc_requests_total") (text "role" ∷ text "method" ∷ text "code" ∷ [])
    ∷ []

-- The histogram of `pipelineEventDuration`.
abbrev pub pipeline_histogram : MetricOpts
pipeline_histogram =
    metric (histogram (exponential (25, 5) (13, 1) 44)) (text "pipeline_event_duration_seconds") []

-- aggregator/middleware.go
abbrev pub aggregator_metrics : List MetricOpts
aggregator_metrics =
    metric
      (histogram (
        listed (
          (1, 4)
          ∷ (25, 5)
          ∷ (5, 4)
          ∷ (1, 3)
          ∷ (25, 4)
          ∷ (5, 3)
          ∷ (1, 2)
          ∷ (25, 3)
          ∷ (5, 2)
          ∷ (1, 1)
          ∷ [])))
      (text "aggregation_operation_duration_seconds") []
    ∷ pipeline_histogram
    ∷ metric counter (text "aggregator_events_applied_total") []
    ∷ metric counter (text "aggregator_duplicate_events_total") []
    ∷ metric counter (text "aggregator_store_errors_total") []
    ∷ []

-- aggregator/client/httpClient.go
abbrev pub http_client_metrics : List MetricOpts
http_client_metrics =
    metric
      (histogram (
        listed (
          (25, 5)
          ∷ (5, 4)
          ∷ (1, 3)
          ∷ (25, 4)
          ∷ (5, 3)
          ∷ (1, 2)
          ∷ (25, 3)
          ∷ (5, 2)
          ∷ (1, 1)
          ∷ (25, 2)
          ∷ (5, 1)
          ∷ (1, 0)
          ∷ (2, 0)
          ∷ [])))
      (text "http_client_request_duration_seconds") (text "method" ∷ text "operation" ∷ [])
    ∷ metric counter (text "http_requests_total")
        (text "role" ∷ text "method" ∷ text "operation" ∷ text "code" ∷ [])
    ∷ []

-- aggregator/client/grpcClient.go
abbrev pub grpc_client_metrics : List MetricOpts
grpc_client_metrics =
    metric
      (histogram (
        listed (
          (25, 5)
          ∷ (5, 4)
          ∷ (1, 3)
          ∷ (25, 4)
          ∷ (5, 3)
          ∷ (1, 2)
          ∷ (25, 3)
          ∷ (5, 2)
          ∷ (1, 1)
          ∷ (25, 2)
          ∷ (5, 1)
          ∷ (1, 0)
          ∷ (2, 0)
          ∷ [])))
      (text "grpc_client_request_duration_seconds") (text "method" ∷ [])
    ∷ metric counter (text "grpc_requests_total") (text "role" ∷ text "method" ∷ text "code" ∷ [])
    ∷ []

-- dist-calc/consumer.go
abbrev pub consumer_metrics : List MetricOpts
consumer_metrics =
    metric counter (text "calculator_events_consumed_total") []
    ∷ metric counter (text "calculator_consumer_errors_total") (text "stage" ∷ [])
    ∷ metric counter (text "calculator_deserialization_errors_total") []
    ∷ metric
        (histogram (
          listed (
            (1, 5)
            ∷ (25, 6)
            ∷ (5, 5)
            ∷ (1, 4)
            ∷ (25, 5)
            ∷ (5, 4)
            ∷ (1, 3)
            ∷ (25, 4)
            ∷ (5, 3)
            ∷ (1, 2)
            ∷ [])))
        (text "distance_calculation_duration_seconds") []
    ∷ metric
        (histogram (
          listed (
            (25, 5)
            ∷ (5, 4)
            ∷ (1, 3)
            ∷ (25, 4)
            ∷ (5, 3)
            ∷ (1, 2)
            ∷ (25, 3)
            ∷ (5, 2)
            ∷ (1, 1)
            ∷ (25, 2)
            ∷ (5, 1)
            ∷ (1, 0)
            ∷ (2, 0)
            ∷ [])))
        (text "downstream_aggregation_duration_seconds") []
    ∷ metric counter (text "downstream_timeouts_total") []
    ∷ metric gauge (text "kafka_consumer_lag") (text "topic" ∷ text "partition" ∷ [])
    ∷ []

-- data_receiver/producer.go
abbrev pub producer_metrics : List MetricOpts
producer_metrics =
    metric
      (histogram (
        listed (
          (5, 4)
          ∷ (1, 3)
          ∷ (25, 4)
          ∷ (5, 3)
          ∷ (1, 2)
          ∷ (25, 3)
          ∷ (5, 2)
          ∷ (1, 1)
          ∷ (25, 2)
          ∷ (5, 1)
          ∷ (1, 0)
          ∷ (2, 0)
          ∷ (5, 0)
          ∷ [])))
      (text "receiver_kafka_acknowledgement_duration_seconds") []
    ∷ []

-- data_receiver/main.go
abbrev pub receiver_metrics : List MetricOpts
receiver_metrics =
    metric gauge (text "receiver_active_websocket_connections") []
    ∷ metric counter (text "receiver_events_received_total") []
    ∷ metric counter (text "receiver_invalid_events_total") []
    ∷ metric counter (text "receiver_kafka_enqueue_failures_total") []
    ∷ []

-- obu/main.go
abbrev pub load_metrics : List MetricOpts
load_metrics =
    metric counter (text "obu_events_attempted_total") []
    ∷ metric counter (text "obu_events_written_total") []
    ∷ metric counter (text "obu_write_failures_total") []
    ∷ metric gauge (text "obu_active_connections") []
    ∷ metric gauge (text "obu_offered_event_rate") []
    ∷ []

-- The metrics of a process are those of the packages in it.
abbrev pub aggregator_process : List MetricOpts
aggregator_process = aggregator_http_metrics ++ (aggregator_grpc_metrics ++ aggregator_metrics)

abbrev pub calculator_process : List MetricOpts
calculator_process = consumer_metrics ++ (http_client_metrics ++ grpc_client_metrics)

abbrev pub receiver_process : List MetricOpts
receiver_process = receiver_metrics ++ producer_metrics

-- `tollify_` and the name.
abbrev pub full_name : MetricOpts → Text
full_name m = m.namespace ++ (text "_" ++ m.name)
