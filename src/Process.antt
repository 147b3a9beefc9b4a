-- ===== src/Process.antt =====
-- The `main` functions: what a process opens, uses and closes, in order, until it returns or is ended by
-- `log.Fatal`, which runs no deferred call. The outcomes of the libraries' calls are parameters.
use toll_calc.Common.{
  Bool, true, false, ◌&&◌, Option, ◌⊎◌, inl, inr, List, [], ◌∷◌, ◌++◌, if◌then◌else◌,
}
use toll_calc.Common.Int.{ℤ, pos, ltb_ℤ}
use toll_calc.Common.Eq.{◌==◌, List-Eq, ℕ-Eq}
use toll_calc.Common.Text.{Text, text, is_empty}
use toll_calc.Float.{Float64}
use toll_calc.Types.{AggregateRequest}
use toll_calc.Obu.{LoadConfig}
use toll_calc.Obu.Settings.{env_or}
use toll_calc.Aggregator.Startup.{Stopping, http_shutdown, grpc_graceful_stop, grpc_stop, shut_down}
use toll_calc.Calculator.Startup.{Fatal, ClientChoice, choose_client, new_http_client}

-- What a process holds: the clients and servers, the subscription to signals, and the context of a
-- deadline.
pub data Resource : Type 0 where
  client producer consumer http_server grpc_server metrics_server connections signals : Resource
  -- the context of the run, and that of the end
  run_deadline deadline : Resource

pub data Step : Type 0 where
  acquire release use_of : Resource → Step
  -- a server whose `Shutdown` returned an error, its deadline: it takes no new connection, and its
  -- open ones are left to the end of the process
  abandon : Resource → Step
  -- a server that is started at an address
  serve_at : Resource → Text → Step

-- How a process ends.
pub data Exit : Type 0 where
  returned killed : Exit

-- The flags of the aggregator, and that of the gateway.
pub record Addresses : Type 0 where
  pub http_addr : Text
  pub grpc_addr : Text

unfoldable pub default_addresses : (env : Text → Text) → Addresses
default_addresses env = record {
  http_addr = env_or env (text "AGGREGATOR_HTTP_LISTEN_ADDR") (text ":4000");
  grpc_addr = env_or env (text "AGGREGATOR_GRPC_LISTEN_ADDR") (text ":3001");
}

-- `Shutdown` of a server, whose error is only logged, or dropped.
abbrev pub shut_down_server : (in_time : Bool) → Resource → Step
shut_down_server true r = release r
shut_down_server false r = abandon r

-- What the end of the aggregator does to its servers.
abbrev pub stopped : (http_in_time : Bool) → List Stopping → List Step
stopped in_time (http_shutdown ∷ rest) = shut_down_server in_time http_server ∷ stopped in_time rest
-- the call that waits for the open calls; the server is gone when it returns, or when it is stopped
stopped in_time (grpc_graceful_stop ∷ []) = release grpc_server ∷ []
stopped in_time (grpc_graceful_stop ∷ rest) = use_of grpc_server ∷ stopped in_time rest
stopped in_time (grpc_stop ∷ rest) = release grpc_server ∷ stopped in_time rest
stopped in_time [] = []

-- `main` of the aggregator, which waits for a signal or for the end of a server. `command_line` is
-- `flag.Parse`.
unfoldable pub aggregator_main :
    (command_line : Addresses → Addresses) (env : Text → Text)
    (listening http_in_time graceful_in_time : Bool)
    → Exit × List Step
aggregator_main command_line env listening http_in_time graceful_in_time =
    let addresses = command_line (default_addresses env) in
    if listening
    then (
      returned,
      serve_at grpc_server addresses.grpc_addr
          ∷ serve_at http_server addresses.http_addr
          ∷ acquire signals
          ∷ acquire deadline
          ∷ (stopped http_in_time (shut_down graceful_in_time)
              ++ (release deadline ∷ release signals ∷ [])),
    )
    else (killed, [])

-- `main` of the calculator behind the choice of its client. A client over HTTP is always made.
abbrev pub calculator_with :
    (env : Text → Text) (connected subscribed in_time : Bool) → ClientChoice → Exit × List Step
calculator_with env false subscribed in_time c = (killed, [])
calculator_with env true false in_time c = (killed, acquire client ∷ [])
calculator_with env true true in_time c = (
  returned,
  acquire client
      ∷ acquire consumer
      ∷ serve_at metrics_server (env_or env (text "CALCULATOR_METRICS_ADDR") (text ":9102"))
      ∷ acquire signals
      ∷ use_of consumer
      ∷ use_of client
      ∷ acquire deadline
      ∷ shut_down_server in_time metrics_server
      ∷ release deadline
      ∷ release signals
      ∷ release consumer
      ∷ release client
      ∷ [],
)

abbrev pub calculator_for :
    (env : Text → Text) (connected subscribed in_time : Bool)
    → Fatal ⊎ ClientChoice
    → Exit × List Step
calculator_for env connected subscribed in_time (inl e) = (killed, [])
calculator_for env connected subscribed in_time (inr c) =
    calculator_with env connected subscribed in_time c

unfoldable pub calculator_main :
    (parse_duration : Text → Option ℤ) (env : Text → Text) (connected subscribed in_time : Bool)
    → Exit × List Step
calculator_main parse_duration env connected subscribed in_time =
    calculator_for env connected subscribed in_time (choose_client parse_duration env)

-- `main` of the receiver, whose connections use the producer while its server runs.
unfoldable pub receiver_main : (env : Text → Text) (produced in_time : Bool) → Exit × List Step
receiver_main env false in_time = (killed, [])
receiver_main env true in_time = (
  returned,
  acquire producer
      ∷ serve_at http_server (env_or env (text "RECEIVER_HTTP_ADDR") (text ":30000"))
      ∷ acquire signals
      ∷ use_of producer
      ∷ acquire deadline
      ∷ shut_down_server in_time http_server
      ∷ release deadline
      ∷ release signals
      ∷ release producer
      ∷ [],
)

-- `main` of the gateway: `log.Fatal` ends it when its server does.
unfoldable pub gateway_main :
    (command_line : Text → Text) (env : Text → Text) → ClientChoice × Exit × List Step
gateway_main command_line env = (
  new_http_client (env_or env (text "AGGREGATOR_HTTP_ADDR") (text "http://localhost:4000")),
  killed,
  acquire client ∷ serve_at http_server (command_line (text ":6000")) ∷ use_of client ∷ [],
)

-- The server of the load generator's metrics, unless its address is empty.
abbrev pub start_metrics_server : (no_address : Bool) → Text → List Step
start_metrics_server true addr = []
start_metrics_server false addr = serve_at metrics_server addr ∷ []

abbrev pub stop_metrics_server : (no_address in_time : Bool) → List Step
stop_metrics_server true in_time = []
stop_metrics_server false in_time =
    acquire deadline ∷ shut_down_server in_time metrics_server ∷ release deadline ∷ []

abbrev pub only_if : Bool → Step → List Step
only_if true step = step ∷ []
only_if false step = []

abbrev pub load_steps : (limited no_address dialled in_time : Bool) → Text → Exit × List Step
load_steps limited no_address false in_time addr = (
  killed,
  acquire signals
      ∷ (only_if limited (acquire run_deadline) ++ start_metrics_server no_address addr),
)
load_steps limited no_address true in_time addr = (
  returned,
  acquire signals
      ∷ (only_if limited (acquire run_deadline)
          ++ (start_metrics_server no_address addr
              ++ (acquire connections
                  ∷ use_of connections
                  ∷ release connections
                  ∷ (stop_metrics_server no_address in_time
                      ++ (only_if limited (release run_deadline) ++ (release signals ∷ [])))))),
)

-- `main` of the load generator, once its settings are in order, around the run itself.
unfoldable pub load_process :
    {F : Type 0}
    → LoadConfig F
    → (metrics_addr : Text) → (dialled in_time : Bool) → Exit × List Step
load_process cfg metrics_addr dialled in_time =
    load_steps (ltb_ℤ (pos 0) cfg.duration && cfg.mode == text "max") (is_empty metrics_addr)
      dialled in_time metrics_addr

-- `main` of aggregator/temp, and its request.
unfoldable pub manual_trial : (connected applied : Bool) → Exit × List Step
manual_trial false applied = (killed, [])
manual_trial true false = (killed, acquire client ∷ use_of client ∷ [])
manual_trial true true = (returned, acquire client ∷ use_of client ∷ [])

unfoldable pub manual_request : {F : Type 0} ⦃f : Float64 F⦄ → (now : ℤ) → AggregateRequest F
manual_request ⦃f⦄ now = record {
  obu_id = pos 1;
  value = f.literal 123 1;
  produced_at_unix_nano = now;
  event_id = text "manual-test";
}
