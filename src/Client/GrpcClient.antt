-- ===== src/Client/GrpcClient.antt =====
-- aggregator/client/grpcClient.go.
use toll_calc.Common.{Option, none, some, ◌⊎◌, inl, [], ◌∷◌}
use toll_calc.Common.Int.{ℤ}
use toll_calc.Common.Eq.{List-Eq, ℕ-Eq}
use toll_calc.Common.Text.{text}
use toll_calc.Types.{Invoice, AggregateRequest}
use toll_calc.Http.{Counters, inc}
use toll_calc.Aggregator.Grpc.{GrpcCode, GrpcStatus, code_string}
use toll_calc.Client.{ClientError, grpc_status, Client}

-- The client's `grpcClientRequests` and the network.
pub record Channel (W : Type 0) : Type 0 where
  pub requests : Counters
  pub world : W

-- The returned error: nil exactly for the code OK.
abbrev pub error_of : GrpcCode → Option ClientError
error_of GrpcCode.ok_code = none
error_of code = some (grpc_status code)

module _ {F W : Type 0} (call : AggregateRequest F → W → GrpcStatus × W) where
  unfoldable pub aggregate : AggregateRequest F → Channel W → Option ClientError × Channel W
  aggregate req s =
      let (w, world') = call req s.world in
      let labels = text "client" ∷ text "Aggregate" ∷ code_string w.code ∷ [] in
      (error_of w.code, record { requests = inc labels s.requests; world = world' })

  -- Invoices are only served over HTTP.
  unfoldable pub get_invoice : ℤ → Channel W → (ClientError ⊎ Invoice F) × Channel W
  get_invoice id s = (inl (grpc_status GrpcCode.unimplemented), s)

  abbrev pub new_grpc_client : (W → W) → Client F (Channel W)
  new_grpc_client close_conn = record {
    aggregate = aggregate;
    get_invoice = get_invoice;
    close = λ s. record s { world = close_conn s.world };
  }
