-- ===== src/Examples/Declarations.antt =====
-- The metrics that are declared, what is counted under them, and what the processes hold.
use toll_calc.Common.{
  ◌*◌, ◌^◌, ◌≡◌, refl, Bool, true, false, not, ◌&&◌, if◌then◌else◌, Option, none, List, [], ◌∷◌,
  ◌++◌, ltb,
}
use toll_calc.Common.Int.{ℤ, pos}
use toll_calc.Common.Eq.{◌==◌, List-Eq, ℕ-Eq}
use toll_calc.Common.Text.{Text, text}
use toll_calc.Float.Grid.{Grid, whole, Grid-Float64}
use toll_calc.Types.{AggregateRequest}
use toll_calc.Http.{HttpRequest}
use toll_calc.Aggregator.Http.{new_http_handler}
use toll_calc.Aggregator.Grpc.{intercepted}
use toll_calc.Aggregator.Refinement.{service}
use toll_calc.Client.HttpClient
use toll_calc.Client.HttpClient.{Connected}
use toll_calc.Client.GrpcClient
use toll_calc.Client.GrpcClient.{Channel}
use toll_calc.Benchmark.Histogram.{bucket_prefix}
use toll_calc.Metrics.{
  Decimal, listed, exponential, histogram, MetricOpts, full_name, pipeline_histogram,
  aggregator_process, calculator_process, receiver_process, load_metrics,
}
use toll_calc.Metrics.Labels.{IsLabelled, HttpLabelled, GrpcLabelled, counters_fit_declarations}
use toll_calc.Obu.Settings.{env_or}
use toll_calc.Aggregator.Startup.{shut_down}
use toll_calc.Calculator.Startup.{choose_client}
use toll_calc.Process.{
  producer, http_server, grpc_server, signals, deadline, acquire, release, use_of, serve_at,
  abandon, returned, killed, default_addresses, aggregator_main, calculator_main, receiver_main,
  gateway_main, load_process, manual_trial,
}
use toll_calc.Examples.Loads.{ramped}
use toll_calc.Examples.Codec.{number_codec}
use toll_calc.Examples.Parties.{endpoint, no_metrics, local_network}
use toll_calc.Examples.Services.{server}

-- No process registers two metrics of the same name.
abbrev named_in : Text → List MetricOpts → Bool
named_in name [] = false
named_in name (m ∷ ms) = if full_name m == name then true else named_in name ms

abbrev distinct_names : List MetricOpts → Bool
distinct_names [] = true
distinct_names (m ∷ ms) = not (named_in (full_name m) ms) && distinct_names ms

names_distinct :
    (distinct_names aggregator_process ≡ true)
    × (distinct_names calculator_process ≡ true)
    × (distinct_names receiver_process ≡ true)
    × (distinct_names load_metrics ≡ true)
names_distinct = (refl, refl, refl, refl)

-- The bounds of the buckets that are listed ascend.
abbrev less : Decimal → Decimal → Bool
less (a, p) (b, q) = ltb (a * 10 ^ q) (b * 10 ^ p)

abbrev ascending : List Decimal → Bool
ascending (a ∷ b ∷ rest) = less a b && ascending (b ∷ rest)
ascending _ = true

abbrev in_order : List MetricOpts → Bool
in_order [] = true
in_order (m ∷ ms) = elim m.kind [
  | histogram buckets ↦ elim buckets [
    | listed bounds ↦ ascending bounds && in_order ms
    | exponential start factor count ↦ in_order ms
  ]
  | _ ↦ in_order ms
]

buckets_ascend : in_order (aggregator_process ++ (calculator_process ++ receiver_process)) ≡ true
buckets_ascend = refl

-- The benchmark reads the histogram that the aggregator's middleware declares.
prefix_of_declared : bucket_prefix ≡ full_name pipeline_histogram ++ text "_bucket{le=\""
prefix_of_declared = refl

abbrev unset : Text → Text
unset key = []

abbrev no_duration : Text → Option ℤ
no_duration t = none

-- The ends of the processes: with every server stopped in time, and not; and without a start.
receiver_ends : receiver_main unset true false ≡ (
  returned,
  acquire producer
      ∷ serve_at http_server (text ":30000")
      ∷ acquire signals
      ∷ use_of producer
      ∷ acquire deadline
      ∷ abandon http_server
      ∷ release deadline
      ∷ release signals
      ∷ release producer
      ∷ [],
)
unfolding receiver_main env_or
receiver_ends = refl

aggregator_ends : aggregator_main (λ a. a) unset true true false ≡ (
  returned,
  serve_at grpc_server (text ":3001")
      ∷ serve_at http_server (text ":4000")
      ∷ acquire signals
      ∷ acquire deadline
      ∷ release http_server
      ∷ use_of grpc_server
      ∷ release grpc_server
      ∷ release deadline
      ∷ release signals
      ∷ [],
)
unfolding aggregator_main default_addresses shut_down env_or
aggregator_ends = refl

processes_end :
    ((aggregator_main (λ a. a) unset false true true).0 ≡ killed)
    × ((calculator_main no_duration unset true true true).0 ≡ killed)
    × ((load_process ramped [] true true).0 ≡ returned)
    × ((gateway_main (λ a. a) unset).1 ≡ killed)
    × ((manual_trial true false).0 ≡ killed)
unfolding aggregator_main calculator_main load_process gateway_main manual_trial choose_client
    env_or
processes_end = (refl, refl, refl, refl, refl)

abbrev to_invoice : HttpRequest
to_invoice = record { method = text "GET"; path = text "/invoice"; obu = text "1"; body = [] }

abbrev asked : AggregateRequest Grid
asked = record {
  obu_id = pos 1;
  value = whole (pos 3);
  produced_at_unix_nano = pos 5;
  event_id = text "z";
}

counters_fit_declarations_example :
    IsLabelled (new_http_handler number_codec service no_metrics to_invoice server).1
    × IsLabelled (intercepted service asked server).1
    × HttpLabelled
        (HttpClient.aggregate number_codec local_network endpoint asked
          (record { requests = []; world = server })).1
    × HttpLabelled
        (HttpClient.get_invoice number_codec local_network endpoint
          (pos 1)
          (record { requests = []; world = server })).1
    × GrpcLabelled
        (GrpcClient.aggregate
          (intercepted service)
          asked
          (record { requests = []; world = server })).1
counters_fit_declarations_example =
    counters_fit_declarations number_codec service no_metrics local_network endpoint
      (intercepted service) to_invoice asked (pos 1) server
      (record { requests = []; world = server }) (record { requests = []; world = server })
      (record { http_requests = tt; protocol_events = tt; grpc_requests = tt }) tt tt
