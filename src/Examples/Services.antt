-- ===== src/Examples/Services.antt =====
-- The transports, the clients, the gateway and the calculator on concrete requests.
use toll_calc.Common.{◌≡◌, refl, true, some, [], ◌∷◌, arith}
use toll_calc.Common.Int.{ℤ, pos, ◌+ℤ◌, ◌*ℤ◌}
use toll_calc.Common.Eq.{List-Eq, ℕ-Eq, ℤ-Eq}
use toll_calc.Common.Text.{Text, text}
use toll_calc.Float.Grid.{Grid, whole, Grid-Float64}
use toll_calc.Types.{ObuData, AggregateRequest, Invoice}
use toll_calc.Http.{write_json}
use toll_calc.Aggregator.{ok, err, not_found, calculate_invoice, aggregate_distance}
use toll_calc.Common.Map.{lookup, contains, insert as put}
use toll_calc.Aggregator.Store.{
  MemoryStore, new_memory_store, insert, add_total, mark_processed, get,
}
use toll_calc.Aggregator.Refinement.{service}
use toll_calc.Aggregator.Http.{Server, handle_aggregate}
use toll_calc.Aggregator.Grpc
use toll_calc.Aggregator.Grpc.{distance_of, intercepted}
use toll_calc.Aggregator.Transports.{post_event, Corresponds, transports_agree}
use toll_calc.Client.{ClientError, wrong_status}
use toll_calc.Client.HttpClient
use toll_calc.Client.HttpClient.{Connected, new_http_client}
use toll_calc.Client.GrpcClient
use toll_calc.Client.Agreement.{is_nil, clients_agree}
use toll_calc.Gateway.{serve}
use toll_calc.Gateway.EndToEnd.{invoice_request, gateway_returns_invoice, gateway_reports_failure}
use toll_calc.Calculator.{new_calc_service, calculate_dist}
use toll_calc.Calculator.History.{distance_after, Represents}
use toll_calc.Calculator.Replay.{calculate_all, calculate_again, service_follows_history}
use toll_calc.Examples.Codec.{number_codec, number_codec-IsCodec}
use toll_calc.Examples.Parties.{endpoint, no_metrics, local_network, local_network-IsConnected}
use toll_calc.Examples.Stores.{first}

abbrev request : AggregateRequest Grid
request = record {
  obu_id = pos 1;
  value = whole (pos 3);
  produced_at_unix_nano = pos 5;
  event_id = text "a";
}

-- What the codec writes for that request.
abbrev body : Text
body = 0 ∷ 3 ∷ 0 ∷ 5 ∷ 0 ∷ 1 ∷ text "a"

abbrev pub server : Server (MemoryStore Grid)
server = record {
  protocol_events = [];
  http_requests = [];
  grpc_requests = [];
  service = (service.aggregate_distance first new_memory_store).1;
}

transports_agree_example :
    let (w, s') = handle_aggregate number_codec service (post_event body) server in
    let (v, s'') = Grpc.aggregate service request server in
    (s'.service ≡ s''.service) × Corresponds w.status v.code
transports_agree_example =
    transports_agree number_codec service number_codec-IsCodec request body server refl refl
      (omega arith)

clients_agree_example :
    let (r, service') =
      (service {F = Grid}).aggregate_distance (distance_of request) server.service in
    let (e, s) =
      HttpClient.aggregate number_codec local_network endpoint request
        (record { requests = []; world = server }) in
    let (e', s') =
      GrpcClient.aggregate
        (intercepted service)
        request
        (record { requests = []; world = server }) in
    ((is_nil e ≡ true) × (is_nil e' ≡ true))
    × (s.world.service ≡ service')
    × (s'.world.service ≡ service')
unfolding insert aggregate_distance contains lookup add_total mark_processed put
clients_agree_example =
    clients_agree number_codec service no_metrics local_network endpoint number_codec-IsCodec
      local_network-IsConnected request body server [] refl refl (omega arith)

abbrev describe : ClientError → Text
describe e = text "client error"

abbrev invoice : Invoice Grid
invoice = record { obu_id = pos 1; total_dist = whole (pos 3); amount = whole (pos 9) }

abbrev connected_server : Connected (Server (MemoryStore Grid))
connected_server = record { requests = []; world = server }

priced_first : service.calculate_invoice (pos 1) server.service ≡ ok invoice
unfolding insert add_total mark_processed get ◌+ℤ◌ ◌*ℤ◌ calculate_invoice aggregate_distance lookup
    put contains
priced_first = refl

unknown_obu : service.calculate_invoice (pos 7) server.service ≡ err (not_found (pos 7))
unfolding insert add_total mark_processed get ◌+ℤ◌ ◌*ℤ◌ calculate_invoice aggregate_distance lookup
    put contains
unknown_obu = refl

gateway_returns_invoice_example :
    (serve number_codec
      (new_http_client number_codec local_network endpoint)
      describe
      (invoice_request (pos 1))
      connected_server).0
    ≡ write_json 200 (some (0 ∷ 1 ∷ 0 ∷ 3 ∷ 0 ∷ 9 ∷ []))
gateway_returns_invoice_example =
    gateway_returns_invoice number_codec service no_metrics local_network endpoint describe
      local_network-IsConnected number_codec-IsCodec (pos 1) connected_server invoice
      (0 ∷ 1 ∷ 0 ∷ 3 ∷ 0 ∷ 9 ∷ []) (omega arith) (omega arith) priced_first refl

gateway_reports_failure_example :
    (serve number_codec
      (new_http_client number_codec local_network endpoint)
      describe
      (invoice_request (pos 7))
      connected_server).0
    ≡ write_json 500 (some (number_codec.encode_error (describe (wrong_status 500))))
gateway_reports_failure_example =
    gateway_reports_failure number_codec service no_metrics local_network endpoint describe
      local_network-IsConnected (pos 7) connected_server (not_found (pos 7)) (omega arith)
      (omega arith) unknown_obu

abbrev at_point : Text → ℤ → ObuData Grid
at_point event_id lat = record {
  event_id = event_id;
  produced_at_unix_nano = pos 1;
  obu_id = pos 1;
  lat = whole lat;
  lon = whole (pos 2);
  payload = [];
}

calculate_again_example :
    let s = calculate_all (at_point (text "a") (pos 1) ∷ []) new_calc_service in
    let s' =
      calculate_all
        (at_point (text "c") (pos 9) ∷ [])
        (calculate_dist (at_point (text "b") (pos 4)) s).1 in
    calculate_dist (at_point (text "b") (pos 30)) s'
    ≡ ((calculate_dist (at_point (text "b") (pos 4)) s).0, s')
calculate_again_example =
    calculate_again (at_point (text "a") (pos 1) ∷ []) (at_point (text "c") (pos 9) ∷ [])
      (at_point (text "b") (pos 4)) (at_point (text "b") (pos 30)) refl refl

service_follows_history_example :
    let s = calculate_all (at_point (text "a") (pos 1) ∷ []) new_calc_service in
    let h = at_point (text "a") (pos 1) ∷ [] in
    let b = at_point (text "b") (pos 4) in
    ((calculate_dist b s).0 ≡ distance_after h b) × Represents (b ∷ h) (calculate_dist b s).1
service_follows_history_example =
    service_follows_history (at_point (text "a") (pos 1) ∷ []) (at_point (text "b") (pos 4))
