-- ===== src/Benchmark/Sends.antt =====
-- benchmark/main.go: what `benchmarkHTTP` and `benchmarkGRPC` send for a request of the benchmark.
use toll_calc.Common.{
  ◌≤◌, ◌≡◌, refl, Bool, true, false, Option, none, some, [], ap, arith, get_or, nat_eq, ◌++◌,
}
use toll_calc.Common.Int.{ℤ, pos}
use toll_calc.Common.Text.{Text, text, length}
use toll_calc.Common.Text.Utf8.{is_utf8}
use toll_calc.Float.{Float64}
use toll_calc.Types.{AggregateRequest}
use toll_calc.Http.{HttpResponse, method_post, Codec, IsCodec}
use toll_calc.Aggregator.{Aggregator}
use toll_calc.Aggregator.Http.{Server, max_body, status_accepted}
use toll_calc.Aggregator.Grpc.{GrpcCode, GrpcStatus, distance_of, intercepted}
use toll_calc.Client.HttpClient
use toll_calc.Client.HttpClient.{Outgoing, trim_slashes}
use toll_calc.Client.GrpcClient
use toll_calc.Client.GrpcClient.{error_of}
use toll_calc.Client.Agreement.{is_nil, is_ok, IsConnected, clients_agree}

abbrev pub http_endpoint : Text
http_endpoint = text "http://127.0.0.1:4000"

-- The distance of a request: OBU 1 and the value 1.
abbrev pub benchmark_request : {F : Type 0} ⦃f : Float64 F⦄ → Text → ℤ → AggregateRequest F
benchmark_request ⦃f⦄ id now = record {
  obu_id = pos 1;
  value = f.of_int (pos 1);
  produced_at_unix_nano = now;
  event_id = id;
}

abbrev accepted : Option HttpResponse → Bool
accepted none = false
accepted (some resp) = nat_eq resp.status status_accepted

abbrev is_ok_code : GrpcCode → Bool
is_ok_code GrpcCode.ok_code = true
is_ok_code _ = false

is_ok_code-nil : (code : GrpcCode) → is_ok_code code ≡ is_nil (error_of code)
is_ok_code-nil GrpcCode.ok_code = refl
is_ok_code-nil GrpcCode.invalid_argument = refl
is_ok_code-nil GrpcCode.unknown = refl
is_ok_code-nil GrpcCode.unimplemented = refl
is_ok_code-nil GrpcCode.deadline_exceeded = refl
is_ok_code-nil GrpcCode.unavailable = refl
is_ok_code-nil (GrpcCode.other_code m) = refl

module _ {F W : Type 0} ⦃f : Float64 F⦄ (unix_nano : W → ℤ) where
  -- `benchmarkHTTP`; the error of the encoder is dropped, and the body is empty then. `true` is a
  -- nil error.
  unfoldable pub send_http :
      Codec F → (transport : Outgoing → W → Option HttpResponse × W) → Text → W → Bool × W
  send_http codec transport id w =
      let encoded = codec.encode_distance (distance_of (benchmark_request id (unix_nano w))) in
      let (resp, w') =
        transport
          (record {
            method = method_post;
            url = http_endpoint ++ text "/agg";
            body = get_or encoded [];
          })
          w in
      (accepted resp, w')

  -- `benchmarkGRPC`, over its connection.
  unfoldable pub send_grpc : (call : AggregateRequest F → W → GrpcStatus × W) → Text → W → Bool × W
  send_grpc call id w =
      let (status, w') = call (benchmark_request id (unix_nano w)) w in (is_ok_code status.code, w')

  -- The benchmark's requests are those of the clients of the distance calculator.
  send_http-aggregate :
      (codec : Codec F) (transport : Outgoing → W → Option HttpResponse × W) (id b : Text) (w : W)
      → codec.encode_distance (distance_of (benchmark_request id (unix_nano w))) ≡ some b
      → let (e, s) =
          HttpClient.aggregate codec transport http_endpoint
            (benchmark_request id (unix_nano w))
            (record { requests = []; world = w }) in
        send_http codec transport id w ≡ (is_nil e, s.world)
  unfolding send_http HttpClient.aggregate trim_slashes
  send_http-aggregate codec transport id b w encoded = rw encoded (ground arith)

  send_grpc-aggregate :
      (call : AggregateRequest F → W → GrpcStatus × W) (id : Text) (w : W)
      → let (e, s) =
          GrpcClient.aggregate call
            (benchmark_request id (unix_nano w))
            (record { requests = []; world = w }) in
        send_grpc call id w ≡ (is_nil e, s.world)
  unfolding send_grpc GrpcClient.aggregate
  send_grpc-aggregate call id w =
      let (status, w') = call (benchmark_request id (unix_nano w)) w in
      ap (λ b. (b, w')) (is_ok_code-nil status.code)

-- With a codec that reads back what it writes and a network without failures, a request of the
-- benchmark that has an ID of valid UTF-8 and can be encoded within the limit for bodies has the same effect on the aggregator
-- over HTTP and over gRPC, which is that of the service on its distance, and each of them counts
-- it as successful exactly when the service does.
pub benchmark_sends_agree :
    {F S : Type 0} ⦃f : Float64 F⦄ (codec : Codec F) (svc : Aggregator F S)
    (metrics : Server S → HttpResponse)
    (transport : Outgoing → Server S → Option HttpResponse × Server S)
    → IsCodec codec
    → IsConnected codec svc metrics transport http_endpoint
    → (unix_nano : Server S → ℤ) (id b : Text) (w : Server S) → is_utf8 id ≡ true
    → codec.encode_distance (distance_of (benchmark_request id (unix_nano w))) ≡ some b
    → length b ≤ max_body
    → let (r, service') =
        svc.aggregate_distance (distance_of (benchmark_request id (unix_nano w))) w.service in
      let (over_http, v) = send_http unix_nano codec transport id w in
      let (over_grpc, v') = send_grpc unix_nano (intercepted svc) id w in
      ((over_http ≡ is_ok r) × (over_grpc ≡ is_ok r))
      × (v.service ≡ service')
      × (v'.service ≡ service')
benchmark_sends_agree codec svc metrics transport laws connected unix_nano id b w utf8 encoded
      fits =
    let (verdicts, by_http, by_grpc) =
      clients_agree codec svc metrics transport http_endpoint laws connected
        (benchmark_request id (unix_nano w)) b w [] utf8 encoded fits in
    rw
      (
        send_http-aggregate unix_nano codec transport id b w encoded,
        send_grpc-aggregate unix_nano (intercepted svc) id w,
      )
      (verdicts, by_http, by_grpc)
