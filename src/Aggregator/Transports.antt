-- ===== src/Aggregator/Transports.antt =====
-- The two transports in front of one service: what they change and what they answer.
use toll_calc.Common.{
  ℕ, ◌+◌, ◌≤◌, ◌≡◌, refl, ap, ◌∙◌, Bool, true, false, ◌&&◌, some, ◌⊎◌, inl, inr, List, [], ◌∷◌,
  arith, if◌then◌else◌, Bool-cases,
}
use toll_calc.Common.Eq.{◌==◌, List-Eq, ℕ-Eq, list_eq_iff}
use toll_calc.Common.Int.{pos}
use toll_calc.Common.Map.{lookup-insert}
use toll_calc.Common.Text.{Text, text, length, itoa}
use toll_calc.Common.Text.Utf8.{is_utf8}
use toll_calc.Float.{Float64}
use toll_calc.Types.{AggregateRequest}
use toll_calc.Http.{HttpRequest, HttpResponse, method_post, Codec, IsCodec, Counters, counter, inc}
use toll_calc.Aggregator.{Result, ok, err, is_invalid, Aggregator}
use toll_calc.Aggregator.Http.{
  Server, handle_aggregate, handle_get_invoice, handle_reconciliation, instrument_http,
  new_http_handler, max_body, aggregate_response, status_accepted, status_bad_request,
  status_internal_server_error,
}
use toll_calc.Aggregator.Grpc
use toll_calc.Aggregator.Grpc.{GrpcCode, GrpcStatus, distance_of, status_of}

-- A call of `Inc` raises the counter of its labels by one and leaves all others.
pub counter-inc :
    (labels others : List Text) (m : Counters)
    → counter others (inc labels m)
      ≡ (if labels == others then counter labels m + 1 else counter others m)
unfolding inc
counter-inc labels others m = ground (arith, lookup-insert labels others (counter labels m + 1) m)

-- The HTTP request that carries an encoded event.
abbrev pub post_event : Text → HttpRequest
post_event b = record { method = method_post; path = text "/agg"; obu = []; body = b }

-- The HTTP status and the gRPC code with the same meaning.
abbrev pub Corresponds : ℕ → GrpcCode → Type 0
Corresponds status code =
    ((status ≡ status_accepted) × (code ≡ GrpcCode.ok_code))
    ⊎ ((status ≡ status_bad_request) × (code ≡ GrpcCode.invalid_argument))
    ⊎ ((status ≡ status_internal_server_error) × (code ≡ GrpcCode.unknown))

module _ {F S : Type 0} ⦃f : Float64 F⦄ (codec : Codec F) (svc : Aggregator F S) where
  response-Corresponds :
      (r : Result Bool) → Corresponds (aggregate_response codec svc r).status (status_of r).code
  response-Corresponds (ok b) = inl (refl, refl)
  response-Corresponds (err e) = elim (Bool-cases (is_invalid e)) [
    | inl invalid ↦ rw invalid (inr (inl (refl, refl)))
    | inr fault ↦ rw fault (inr (inr (refl, refl)))
  ]

  -- With a codec that reads back what it writes, an event that has an ID of valid UTF-8 and can be
  -- encoded within the limit for bodies leaves the service in the same state over HTTP and over gRPC, and the HTTP status
  -- says what the gRPC code says.
  pub transports_agree :
      IsCodec codec
      → (req : AggregateRequest F) (b : Text) (s : Server S) → is_utf8 req.event_id ≡ true
      → codec.encode_distance (distance_of req) ≡ some b
      → length b ≤ max_body
      → let (w, s') = handle_aggregate codec svc (post_event b) s in
        let (v, s'') = Grpc.aggregate svc req s in
        (s'.service ≡ s''.service) × Corresponds w.status v.code
  unfolding handle_aggregate Grpc.aggregate
  transports_agree laws req b s utf8 encoded fits =
      rw (laws.distance_back (distance_of req) b max_body utf8 encoded fits)
        (refl, response-Corresponds (svc.aggregate_distance (distance_of req) s.service).0)

  instrument_keeps :
      (route : Text) (next : HttpRequest → Server S → HttpResponse × Server S) (r : HttpRequest)
      (s : Server S)
      → (next r s).1.service ≡ s.service
      → (instrument_http codec svc route next r s).1.service ≡ s.service
  unfolding instrument_http
  instrument_keeps route next r s h = h

  get_invoice_keeps :
      (r : HttpRequest) (s : Server S) → (handle_get_invoice codec svc r s).1.service ≡ s.service
  unfolding handle_get_invoice
  get_invoice_keeps r s = ground arith

  reconciliation_keeps :
      (r : HttpRequest) (s : Server S) → (handle_reconciliation codec svc r s).1.service ≡ s.service
  unfolding handle_reconciliation
  reconciliation_keeps r s = ground arith

  wrong_method_keeps :
      (r : HttpRequest) (s : Server S)
      → (r.method == method_post) ≡ false
      → (handle_aggregate codec svc r s).1.service ≡ s.service
  unfolding handle_aggregate
  wrong_method_keeps r s h = rw h

  aggregate_keeps_requests :
      (r : HttpRequest) (s : Server S)
      → (handle_aggregate codec svc r s).1.http_requests ≡ s.http_requests
  unfolding handle_aggregate
  aggregate_keeps_requests r s = ground arith

  -- A request other than a POST to /agg does not change the service.
  pub http_handler_reads :
      (metrics : Server S → HttpResponse) (r : HttpRequest) (s : Server S)
      → (r.path == text "/agg") && (r.method == method_post) ≡ false
      → (new_http_handler codec svc metrics r s).1.service ≡ s.service
  unfolding new_http_handler
  http_handler_reads metrics r s h = ground (
    arith,
    instrument_keeps (text "aggregate") (handle_aggregate codec svc) r s,
    wrong_method_keeps r s,
    instrument_keeps (text "invoice") (handle_get_invoice codec svc) r s (get_invoice_keeps r s),
    instrument_keeps (text "reconciliation") (handle_reconciliation codec svc) r s
        (reconciliation_keeps r s),
  )

  instrument_counts :
      (route : Text) (next : HttpRequest → Server S → HttpResponse × Server S) (r : HttpRequest)
      (s : Server S) (labels : List Text)
      → (next r s).1.http_requests ≡ s.http_requests
      → let (w, s') = instrument_http codec svc route next r s in
        let own = text "server" ∷ r.method ∷ route ∷ itoa (pos w.status) ∷ [] in
        counter labels s'.http_requests ≡ (
          if own == labels then counter own s.http_requests + 1 else counter labels s.http_requests)
  unfolding instrument_http
  instrument_counts route next r s labels h =
      let own = text "server" ∷ r.method ∷ route ∷ itoa (pos (next r s).0.status) ∷ [] in
      counter-inc own labels (next r s).1.http_requests
      ∙ ap (λ (m : Counters). if own == labels then counter own m + 1 else counter labels m) h

  -- A request to /agg is counted once, under its method and the status of its response, and the
  -- counters of all other labels stay.
  pub http_handler_counts :
      (metrics : Server S → HttpResponse) (r : HttpRequest) (s : Server S) (labels : List Text)
      → r.path ≡ text "/agg"
      → let (w, s') = new_http_handler codec svc metrics r s in
        let own = text "server" ∷ r.method ∷ text "aggregate" ∷ itoa (pos w.status) ∷ [] in
        counter labels s'.http_requests ≡ (
          if own == labels then counter own s.http_requests + 1 else counter labels s.http_requests)
  unfolding new_http_handler
  http_handler_counts metrics r s labels h = rw ((list_eq_iff r.path (text "/agg")).1 h) (
      instrument_counts (text "aggregate") (handle_aggregate codec svc) r s labels
        (aggregate_keeps_requests r s))
