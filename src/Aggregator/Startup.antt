-- ===== src/Aggregator/Startup.antt =====
-- aggregator/main.go and the connection statistics of aggregator/grpc.go: the service that is started,
-- the gauge of the open connections, and the end of the process.
use toll_calc.Common.Text.{Text}
use toll_calc.Types.{AggregateRequest}
use toll_calc.Aggregator.Grpc.{GrpcStatus, intercepted}
use toll_calc.Common.{
  Option, none, some, ◌≡◌, refl, ◌∙◌, ap, Bool, true, false, List, [], ◌∷◌, ◌++◌, if◌then◌else◌,
}
use toll_calc.Common.Int.{ℤ, pos, ◌+ℤ◌, ◌-ℤ◌, up_and_down}
use toll_calc.Float.{Float64}
use toll_calc.Aggregator.{Aggregator}
use toll_calc.Aggregator.Store.{MemoryStore, new_memory_store}
use toll_calc.Aggregator.Middleware.{
  Metered, zero_metrics, new_metric_middleware, new_log_middleware,
}
use toll_calc.Aggregator.Http.{Server}
use toll_calc.Aggregator.Refinement.{service}

module _ {F : Type 0} ⦃f : Float64 F⦄ where
  -- The service behind both transports, with its middleware.
  abbrev pub main_service : Aggregator F (Metered (MemoryStore F))
  main_service = new_log_middleware (new_metric_middleware service)

-- What both transports start from.
abbrev pub main_server : {F : Type 0} → ℤ → Server (Metered (MemoryStore F))
main_server now = record {
  protocol_events = [];
  http_requests = [];
  grpc_requests = [];
  service = record { now = now; metrics = zero_metrics; inner = new_memory_store };
}

-- `makeGRPCTransport` and `makeHTTPTransport`, which return when the server does; an error is none
-- where it is nil.
pub data TransportError : Type 0 where
  not_listening not_serving : TransportError

pub record Listening (L W : Type 0) : Type 0 where
  pub listen : Text → W → Option L × W
  -- `Serve` on a listener until it ends; `false` is an error
  pub serve : L → W → Bool × W
  pub close : L → W → W
  pub listen_and_serve : Text → W → Bool × W

module _ {L W : Type 0} (net : Listening L W) where
  abbrev served_on : Option L × W → Option TransportError × W
  served_on (none, w) = (some not_listening, w)
  served_on (some l, w) =
      let (done, w') = net.serve l w in (if done then none else some not_serving, net.close l w')

  unfoldable pub make_grpc_transport : Text → W → Option TransportError × W
  make_grpc_transport listen_addr w = served_on (net.listen listen_addr w)

  unfoldable pub make_http_transport : Text → W → Option TransportError × W
  make_http_transport listen_addr w =
      let (done, w') = net.listen_and_serve listen_addr w in
      (if done then none else some not_serving, w')

-- The states of an HTTP connection, and the events of a gRPC connection.
pub data ConnState : Type 0 where
  new active idle hijacked closed : ConnState

pub data ConnStats : Type 0 where
  conn_begin conn_end other_stats : ConnStats

-- `aggregatorOpenConnections`, by protocol.
pub record OpenConnections : Type 0 where
  pub http : ℤ
  pub grpc : ℤ

-- The hook `ConnState` of the HTTP server.
unfoldable pub conn_state : ConnState → OpenConnections → OpenConnections
conn_state new g = record g { http = g.http +ℤ pos 1 }
conn_state closed g = record g { http = g.http -ℤ pos 1 }
conn_state hijacked g = record g { http = g.http -ℤ pos 1 }
conn_state active g = g
conn_state idle g = g

-- `HandleConn`
unfoldable pub handle_conn : ConnStats → OpenConnections → OpenConnections
handle_conn conn_begin g = record g { grpc = g.grpc +ℤ pos 1 }
handle_conn conn_end g = record g { grpc = g.grpc -ℤ pos 1 }
handle_conn other_stats g = g

-- The other methods of the connection statistics.
abbrev pub tag_rpc : {C I : Type 0} → C → I → C
tag_rpc ctx info = ctx

abbrev pub handle_rpc : {S : Type 0} → S → OpenConnections → OpenConnections
handle_rpc stats g = g

abbrev pub tag_conn : {C I : Type 0} → C → I → C
tag_conn ctx info = ctx

-- `newGRPCServer`: the handler behind its interceptor, and the hook for connections.
pub record GrpcServer (F S : Type 0) : Type 0 where
  pub handler : AggregateRequest F → Server S → GrpcStatus × Server S
  pub stats_handler : ConnStats → OpenConnections → OpenConnections

abbrev pub new_grpc_server : {F S : Type 0} → Aggregator F S → GrpcServer F S
new_grpc_server svc = record { handler = intercepted svc; stats_handler = handle_conn }

-- The changes of one HTTP connection between its start and its end.
unfoldable pub conn_states : List ConnState → OpenConnections → OpenConnections
conn_states [] g = g
conn_states (state ∷ states) g = conn_states states (conn_state state g)

-- What the end of the process asks of the servers.
pub data Stopping : Type 0 where
  http_shutdown grpc_graceful_stop grpc_stop : Stopping

-- The shutdown: gRPC is stopped at once if its open calls do not end before the deadline.
unfoldable pub shut_down : (graceful_in_time : Bool) → List Stopping
shut_down graceful_in_time =
    let first = http_shutdown ∷ grpc_graceful_stop ∷ [] in
    if graceful_in_time then first else first ++ (grpc_stop ∷ [])

-- A connection in use, with a request or without one.
abbrev in_use : Bool → ConnState
in_use true = active
in_use false = idle

-- The states of a connection that is used for a while, and ends closed or hijacked.
abbrev pub lifetime : List Bool → (taken_over : Bool) → List ConnState
lifetime [] true = hijacked ∷ []
lifetime [] false = closed ∷ []
lifetime (busy ∷ uses) taken_over = in_use busy ∷ lifetime uses taken_over

used_connection :
    (uses : List Bool) (taken_over : Bool) (g : OpenConnections)
    → conn_states (lifetime uses taken_over) g ≡ record g { http = g.http -ℤ pos 1 }
unfolding conn_states conn_state
used_connection [] true g = refl
used_connection [] false g = refl
used_connection (true ∷ uses) taken_over g = used_connection uses taken_over g
used_connection (false ∷ uses) taken_over g = used_connection uses taken_over g

-- A connection that has ended, closed or hijacked, leaves the gauge as it was.
pub lifetime_restores :
    (uses : List Bool) (taken_over : Bool) (g : OpenConnections)
    → conn_states (new ∷ lifetime uses taken_over) g ≡ g
unfolding conn_states conn_state
lifetime_restores uses taken_over g =
    used_connection uses taken_over (record g { http = g.http +ℤ pos 1 })
    ∙ ap (λ n. record g { http = n }) (up_and_down g.http 1)
