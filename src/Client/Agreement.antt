-- ===== src/Client/Agreement.antt =====
-- Both clients in front of the aggregator's handlers: the same events, the same verdicts.
use toll_calc.Common.{
  ◌≤◌, ◌≡◌, refl, Bool, true, false, not, Option, none, some, inl, inr, [], ◌++◌, if◌then◌else◌,
  Bool-cases, nat_eq,
}
use toll_calc.Common.Int.{ℤ}
use toll_calc.Common.Text.{Text, text, length, itoa}
use toll_calc.Common.Text.Utf8.{is_utf8}
use toll_calc.Float.{Float64}
use toll_calc.Types.{Distance, AggregateRequest}
use toll_calc.Http.{HttpResponse, method_get, method_post, Codec, IsCodec, Counters}
use toll_calc.Aggregator.{Result, ok, err, is_invalid, Aggregator}
use toll_calc.Aggregator.Http.{
  Server, handle_aggregate, instrument_http, new_http_handler, max_body, aggregate_response,
  status_accepted,
}
use toll_calc.Aggregator.Grpc.{GrpcCode, GrpcStatus, distance_of, status_of, intercepted}
use toll_calc.Aggregator.Grpc
use toll_calc.Aggregator.Transports.{post_event}
use toll_calc.Client.{ClientError, wrong_status}
use toll_calc.Client.HttpClient
use toll_calc.Client.HttpClient.{Outgoing, Connected, trim_slashes, invoice_url}
use toll_calc.Client.GrpcClient
use toll_calc.Client.GrpcClient.{Channel, error_of}

abbrev pub delivered : {S : Type 0} → HttpResponse × S → Option HttpResponse × S
delivered (w, s) = (some w, s)

abbrev pub is_ok : Result Bool → Bool
is_ok (ok _) = true
is_ok (err _) = false

abbrev pub is_nil : Option ClientError → Bool
is_nil none = true
is_nil (some _) = false

nil_if_ok : (r : Result Bool) → is_nil (error_of (status_of r).code) ≡ is_ok r
nil_if_ok (ok b) = refl
nil_if_ok (err e) = elim (Bool-cases (is_invalid e)) [
  | inl invalid ↦ rw invalid
  | inr fault ↦ rw fault
]

module _ {F S : Type 0} (codec : Codec F) (svc : Aggregator F S) (metrics : Server S → HttpResponse)
    (transport : Outgoing → Server S → Option HttpResponse × Server S) (endpoint : Text) where
  -- A network without failures: the client's two URLs reach the server's handler, with the path and
  -- the query that they spell.
  pub record IsConnected : Type 0 where
    pub events :
        (b : Text) (s : Server S)
        → transport
            (record { method = method_post; url = trim_slashes endpoint ++ text "/agg"; body = b })
            s
          ≡ delivered (new_http_handler codec svc metrics (post_event b) s)
    pub invoices :
        (id : ℤ) (s : Server S)
        → transport
            (record {
              method = method_get;
              url = invoice_url codec transport endpoint id;
              body = [];
            })
            s
          ≡ delivered (
              new_http_handler codec svc metrics
                (record { method = method_get; path = text "/invoice"; obu = itoa id; body = [] })
                s)

  served_event :
      (d : Distance F) (b : Text) (s : Server S)
      → codec.decode_distance max_body b ≡ inr d
      → let (r, service') = svc.aggregate_distance d s.service in
        let (w, s') = new_http_handler codec svc metrics (post_event b) s in
        (w.status ≡ (aggregate_response codec svc r).status) × (s'.service ≡ service')
  unfolding new_http_handler instrument_http handle_aggregate
  served_event d b s back = rw back (refl, refl)

  accepted_if_ok :
      (r : Result Bool)
      → is_nil (
          if not (nat_eq (aggregate_response codec svc r).status status_accepted)
          then some (wrong_status (aggregate_response codec svc r).status)
          else none)
        ≡ is_ok r
  accepted_if_ok (ok b) = refl
  accepted_if_ok (err e) = elim (Bool-cases (is_invalid e)) [
    | inl invalid ↦ rw invalid
    | inr fault ↦ rw fault
  ]

  -- What the HTTP client does with an event whose body the server decodes.
  http_verdict :
      IsConnected
      → (req : AggregateRequest F) (b : Text) (s : Connected (Server S))
      → codec.encode_distance (distance_of req) ≡ some b
      → codec.decode_distance max_body b ≡ inr (distance_of req)
      → let (r, service') = svc.aggregate_distance (distance_of req) s.world.service in
        let (e, s') = HttpClient.aggregate codec transport endpoint req s in
        (is_nil e ≡ is_ok r) × (s'.world.service ≡ service')
  unfolding HttpClient.aggregate
  http_verdict connected req b s encoded back =
      let served = served_event (distance_of req) b s.world back in
      rw (encoded, connected.events b s.world, served.0, served.1)
        (accepted_if_ok (svc.aggregate_distance (distance_of req) s.world.service).0, refl)

  grpc_verdict :
      (req : AggregateRequest F) (s : Channel (Server S))
      → let (r, service') = svc.aggregate_distance (distance_of req) s.world.service in
        let (e, s') = GrpcClient.aggregate (intercepted svc) req s in
        (is_nil e ≡ is_ok r) × (s'.world.service ≡ service')
  unfolding GrpcClient.aggregate intercepted Grpc.aggregate
  grpc_verdict req s =
      (nil_if_ok (svc.aggregate_distance (distance_of req) s.world.service).0, refl)

  -- With a codec that reads back what it writes and a network without failures, an event that
  -- has an ID of valid UTF-8 and can be encoded within the limit for bodies has the same effect on the service through either
  -- client, and each client returns a nil error exactly when the service does.
  pub clients_agree :
      ⦃f : Float64 F⦄
      → IsCodec codec
      → IsConnected
      → (req : AggregateRequest F) (b : Text) (world : Server S) (requests : Counters)
      → is_utf8 req.event_id ≡ true
      → codec.encode_distance (distance_of req) ≡ some b
      → length b ≤ max_body
      → let (r, service') = svc.aggregate_distance (distance_of req) world.service in
        let (e, s) =
          HttpClient.aggregate codec transport endpoint req
            (record { requests = requests; world = world }) in
        let (e', s') =
          GrpcClient.aggregate
            (intercepted svc)
            req
            (record { requests = requests; world = world }) in
        ((is_nil e ≡ is_ok r) × (is_nil e' ≡ is_ok r))
        × (s.world.service ≡ service')
        × (s'.world.service ≡ service')
  clients_agree laws connected req b world requests utf8 encoded fits =
      let back = laws.distance_back (distance_of req) b max_body utf8 encoded fits in
      let over_http =
        http_verdict connected req b (record { requests = requests; world = world }) encoded back in
      let over_grpc = grpc_verdict req (record { requests = requests; world = world }) in
      ((over_http.0, over_grpc.0), over_http.1, over_grpc.1)
