-- ===== src/Client.antt =====
-- aggregator/client: the interface `Client` and its two implementations. The network, with the
-- server behind it, is a parameter over a state `W`.
pub mod HttpClient
pub mod GrpcClient
pub mod Agreement
use toll_calc.Common.{ℕ, Option, ◌⊎◌}
use toll_calc.Common.Int.{ℤ}
use toll_calc.Common.Text.{Text}
use toll_calc.Types.{Invoice, AggregateRequest}
use toll_calc.Aggregator.Grpc.{GrpcCode}

-- The errors of a client: the value cannot be encoded, the request cannot be made or is not
-- answered, the answer has a wrong status, its body cannot be decoded, or a gRPC status.
pub data ClientError : Type 0 where
  not_encoded no_response not_decoded : ClientError
  wrong_status : ℕ → ClientError
  grpc_status : GrpcCode → ClientError

pub record Client (F W : Type 0) : Type 0 where
  -- `none` is a nil error
  pub aggregate : AggregateRequest F → W → Option ClientError × W
  pub get_invoice : ℤ → W → (ClientError ⊎ Invoice F) × W
  pub close : W → W
