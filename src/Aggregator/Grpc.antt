-- ===== src/Aggregator/Grpc.antt =====
-- aggregator/grpc.go: the handler of the `Aggregate` call, and its interceptor.
use toll_calc.Common.{Bool, [], ◌∷◌, if◌then◌else◌}
use toll_calc.Common.Text.{Text, text}
use toll_calc.Common.Eq.{List-Eq, ℕ-Eq}
use toll_calc.Types.{Distance, AggregateRequest}
use toll_calc.Http.{inc}
use toll_calc.Aggregator.{Result, ok, err, is_invalid, message, Aggregator}
use toll_calc.Aggregator.Http.{Server}

-- The status codes that the program names, and any other under its name.
pub data GrpcCode : Type 0 where
  ok_code invalid_argument unknown unimplemented deadline_exceeded unavailable : GrpcCode
  other_code : Text → GrpcCode

-- `code.String()`
abbrev pub code_string : GrpcCode → Text
code_string GrpcCode.ok_code = text "OK"
code_string GrpcCode.invalid_argument = text "InvalidArgument"
code_string GrpcCode.unknown = text "Unknown"
code_string GrpcCode.unimplemented = text "Unimplemented"
code_string GrpcCode.deadline_exceeded = text "DeadlineExceeded"
code_string GrpcCode.unavailable = text "Unavailable"
code_string (GrpcCode.other_code m) = m

-- What the caller receives: the code and the message of the status.
pub record GrpcStatus : Type 0 where
  pub code : GrpcCode
  pub details : Text

-- A nil error is the status OK; an error that carries no status is sent as Unknown.
abbrev pub status_of : Result Bool → GrpcStatus
status_of (ok _) = record { code = GrpcCode.ok_code; details = [] }
status_of (err e) =
    if is_invalid e
    then record { code = GrpcCode.invalid_argument; details = message e }
    else record { code = GrpcCode.unknown; details = message e }

-- The event that a request carries.
abbrev pub distance_of : {F : Type 0} → AggregateRequest F → Distance F
distance_of req = record {
  event_id = req.event_id;
  produced_at_unix_nano = req.produced_at_unix_nano;
  value = req.value;
  obu_id = req.obu_id;
}

module _ {F S : Type 0} (svc : Aggregator F S) where
  unfoldable pub aggregate : AggregateRequest F → Server S → GrpcStatus × Server S
  aggregate req s =
      let (r, service') = svc.aggregate_distance (distance_of req) s.service in
      (
        status_of r,
        record s { protocol_events = inc (text "grpc" ∷ []) s.protocol_events; service = service' },
      )

  -- `grpcMetricsInterceptor`, around the one method that there is.
  unfoldable pub intercepted : AggregateRequest F → Server S → GrpcStatus × Server S
  intercepted req s =
      let (w, s') = aggregate req s in
      let labels = text "server" ∷ text "/Aggregator/Aggregate" ∷ code_string w.code ∷ [] in
      (w, record s' { grpc_requests = inc labels s'.grpc_requests })
