-- ===== src/Metrics/Labels.antt =====
-- `WithLabelValues` panics unless there is a value for each label that the metric declares: what the
-- transports and the clients count under has them all.
use toll_calc.Common.{
  ℕ, ◌≡◌, refl, Option, none, some, ◌⊎◌, inl, inr, List, [], ◌∷◌, arith, if◌then◌else◌, Bool-cases,
}
use toll_calc.Common.Int.{ℤ}
use toll_calc.Common.Eq.{◌==◌, List-Eq, ℕ-Eq}
use toll_calc.Common.Map.{Map, insert}
use toll_calc.Common.Text.{Text, text, length}
use toll_calc.Types.{Distance, AggregateRequest}
use toll_calc.Http.{Codec, Counters, inc, HttpRequest, HttpResponse, method_post}
use toll_calc.Aggregator.{Aggregator}
use toll_calc.Aggregator.Http
use toll_calc.Aggregator.Http.{
  Server, handle_aggregate, instrument_http, new_http_handler, max_body,
}
use toll_calc.Aggregator.Grpc
use toll_calc.Aggregator.Grpc.{GrpcStatus, intercepted}
use toll_calc.Client.HttpClient
use toll_calc.Client.HttpClient.{Connected, Outgoing}
use toll_calc.Client.GrpcClient
use toll_calc.Client.GrpcClient.{Channel}
use toll_calc.Metrics.{
  MetricOpts, aggregator_http_metrics, aggregator_grpc_metrics, http_client_metrics,
  grpc_client_metrics,
}

-- The number of labels of the metric with this name.
abbrev pub labels_of : Text → List MetricOpts → ℕ
labels_of name [] = 0
labels_of name (m ∷ ms) = if m.name == name then length m.labels else labels_of name ms

-- Every entry has so many label values.
abbrev pub AllLabelled {ℓ} : {V : Type ℓ} → ℕ → Map (List Text) V → Type 0
AllLabelled n [] = Unit
AllLabelled n ((key, value) ∷ m) = (length key ≡ n) × AllLabelled n m

insert-AllLabelled {ℓ} :
    {V : Type ℓ} (n : ℕ) (key : List Text) (value : V) (m : Map (List Text) V)
    → length key ≡ n
    → AllLabelled n m
    → AllLabelled n (insert key value m)
unfolding insert
insert-AllLabelled n key value [] fits h = (fits, tt)
insert-AllLabelled n key value ((k, w) ∷ m) fits h = elim (Bool-cases (k == key)) [
  | inl same ↦ rw same h
  | inr other ↦ rw other (h.0, insert-AllLabelled n key value m fits h.1)
]

inc-AllLabelled :
    (n : ℕ) (key : List Text) (m : Counters)
    → length key ≡ n
    → AllLabelled n m
    → AllLabelled n (inc key m)
unfolding inc
inc-AllLabelled n key m fits h = insert-AllLabelled n key _ m fits h

-- The counters of the aggregator's transports fit the declarations.
pub record IsLabelled {S : Type 0} (s : Server S) : Type 0 where
  pub http_requests :
      AllLabelled (labels_of (text "http_requests_total") aggregator_http_metrics) s.http_requests
  pub protocol_events :
      AllLabelled
        (labels_of (text "aggregator_events_received_total") aggregator_http_metrics)
        s.protocol_events
  pub grpc_requests :
      AllLabelled (labels_of (text "grpc_requests_total") aggregator_grpc_metrics) s.grpc_requests

module _ {F S : Type 0} (codec : Codec F) (svc : Aggregator F S) where
  count_event-IsLabelled :
      (protocol : Text) (s : Server S)
      → IsLabelled s
      → IsLabelled (record s { protocol_events = inc (protocol ∷ []) s.protocol_events })
  count_event-IsLabelled protocol s h = record {
    http_requests = h.http_requests;
    protocol_events = inc-AllLabelled 1 (protocol ∷ []) s.protocol_events refl h.protocol_events;
    grpc_requests = h.grpc_requests;
  }

  aggregate_decoded-IsLabelled :
      (d : Text ⊎ Distance F) (s : Server S)
      → IsLabelled s
      → IsLabelled (Http.aggregate_decoded codec svc d s).1
  aggregate_decoded-IsLabelled (inl m) s h = h
  aggregate_decoded-IsLabelled (inr d) s h = record {
    http_requests = h.http_requests;
    protocol_events = h.protocol_events;
    grpc_requests = h.grpc_requests;
  }

  handle_aggregate-IsLabelled :
      (r : HttpRequest) (s : Server S)
      → IsLabelled s
      → IsLabelled (handle_aggregate codec svc r s).1
  unfolding handle_aggregate
  handle_aggregate-IsLabelled r s h = elim (Bool-cases (r.method == method_post)) [
    | inl same ↦ rw same (
        aggregate_decoded-IsLabelled (codec.decode_distance max_body r.body) _
          (count_event-IsLabelled (text "http") s h))
    | inr other ↦ rw other h
  ]

  instrument_http-IsLabelled :
      (route : Text) (next : HttpRequest → Server S → HttpResponse × Server S) (r : HttpRequest)
      (s : Server S)
      → IsLabelled (next r s).1
      → IsLabelled (instrument_http codec svc route next r s).1
  unfolding instrument_http
  instrument_http-IsLabelled route next r s h = record {
    http_requests = inc-AllLabelled 4 _ (next r s).1.http_requests refl h.http_requests;
    protocol_events = h.protocol_events;
    grpc_requests = h.grpc_requests;
  }

  get_invoice_keeps :
      (r : HttpRequest) (s : Server S) → (Http.handle_get_invoice codec svc r s).1 ≡ s
  unfolding Http.handle_get_invoice
  get_invoice_keeps r s = ground arith

  reconciliation_keeps :
      (r : HttpRequest) (s : Server S) → (Http.handle_reconciliation codec svc r s).1 ≡ s
  unfolding Http.handle_reconciliation
  reconciliation_keeps r s = ground arith

  http_handler-IsLabelled :
      (metrics : Server S → HttpResponse) (r : HttpRequest) (s : Server S)
      → IsLabelled s
      → IsLabelled (new_http_handler codec svc metrics r s).1
  unfolding new_http_handler
  http_handler-IsLabelled metrics r s h = elim (Bool-cases (r.path == text "/agg")) [
    | inl agg ↦ rw agg (instrument_http-IsLabelled _ _ r s (handle_aggregate-IsLabelled r s h))
    | inr not_agg ↦ elim (Bool-cases (r.path == text "/invoice")) [
      | inl invoice ↦
          rw (not_agg, invoice) (instrument_http-IsLabelled _ _ r s (rw (get_invoice_keeps r s) h))
      | inr not_invoice ↦ elim (Bool-cases (r.path == text "/benchmark/reconciliation")) [
        | inl reconciliation ↦
            rw (not_agg, not_invoice, reconciliation)
              (instrument_http-IsLabelled _ _ r s (rw (reconciliation_keeps r s) h))
        | inr other ↦ elim (Bool-cases (r.path == text "/metrics")) [
          | inl page ↦ rw (not_agg, not_invoice, other, page) h
          | inr unknown ↦ rw (not_agg, not_invoice, other, unknown) h
        ]
      ]
    ]
  ]

  intercepted-IsLabelled :
      (q : AggregateRequest F) (s : Server S) → IsLabelled s → IsLabelled (intercepted svc q s).1
  unfolding intercepted Grpc.aggregate
  intercepted-IsLabelled q s h = record {
    http_requests = h.http_requests;
    protocol_events = inc-AllLabelled 1 (text "grpc" ∷ []) s.protocol_events refl h.protocol_events;
    grpc_requests = inc-AllLabelled 3 _ s.grpc_requests refl h.grpc_requests;
  }

-- The counters of the clients fit the declarations.
abbrev pub HttpLabelled : {W : Type 0} → Connected W → Type 0
HttpLabelled c = AllLabelled (labels_of (text "http_requests_total") http_client_metrics) c.requests

abbrev pub GrpcLabelled : {W : Type 0} → Channel W → Type 0
GrpcLabelled c = AllLabelled (labels_of (text "grpc_requests_total") grpc_client_metrics) c.requests

module _ {F W : Type 0} (codec : Codec F) where
  aggregate_encoded-HttpLabelled :
      (transport : Outgoing → W → Option HttpResponse × W) (endpoint : Text) (b : Option Text)
      (c : Connected W)
      → HttpLabelled c
      → HttpLabelled (HttpClient.aggregate_encoded codec transport endpoint b c).1
  aggregate_encoded-HttpLabelled transport endpoint none c h = inc-AllLabelled 4 _ c.requests refl h
  aggregate_encoded-HttpLabelled transport endpoint (some b) c h =
      inc-AllLabelled 4 _ c.requests refl h

  get_invoice-HttpLabelled :
      (transport : Outgoing → W → Option HttpResponse × W) (endpoint : Text) (id : ℤ)
      (c : Connected W)
      → HttpLabelled c
      → HttpLabelled (HttpClient.get_invoice codec transport endpoint id c).1
  unfolding HttpClient.get_invoice
  get_invoice-HttpLabelled transport endpoint id c h = inc-AllLabelled 4 _ c.requests refl h

  grpc_aggregate-GrpcLabelled :
      (call : AggregateRequest F → W → GrpcStatus × W) (q : AggregateRequest F) (c : Channel W)
      → GrpcLabelled c
      → GrpcLabelled (GrpcClient.aggregate call q c).1
  unfolding GrpcClient.aggregate
  grpc_aggregate-GrpcLabelled call q c h = inc-AllLabelled 3 _ c.requests refl h

-- Whatever is asked of them: where every entry of the request counters has a value for each label
-- that its metric declares, it is so after a request to the aggregator over HTTP, a call over gRPC,
-- and a call of either client.
pub counters_fit_declarations :
    {F S W : Type 0} (codec : Codec F) (svc : Aggregator F S) (metrics : Server S → HttpResponse)
    (transport : Outgoing → W → Option HttpResponse × W) (endpoint : Text)
    (call : AggregateRequest F → W → GrpcStatus × W) (r : HttpRequest) (q : AggregateRequest F)
    (id : ℤ) (s : Server S) (c : Connected W) (channel : Channel W)
    → IsLabelled s
    → HttpLabelled c
    → GrpcLabelled channel
    → IsLabelled (new_http_handler codec svc metrics r s).1
      × IsLabelled (intercepted svc q s).1
      × HttpLabelled (HttpClient.aggregate codec transport endpoint q c).1
      × HttpLabelled (HttpClient.get_invoice codec transport endpoint id c).1
      × GrpcLabelled (GrpcClient.aggregate call q channel).1
unfolding HttpClient.aggregate
counters_fit_declarations codec svc metrics transport endpoint call r q id s c channel hs hc hg = (
  http_handler-IsLabelled codec svc metrics r s hs,
  intercepted-IsLabelled codec svc q s hs,
  aggregate_encoded-HttpLabelled codec transport endpoint _ c hc,
  get_invoice-HttpLabelled codec transport endpoint id c hc,
  grpc_aggregate-GrpcLabelled codec call q channel hg,
)
