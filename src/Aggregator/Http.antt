-- ===== src/Aggregator/Http.antt =====
-- aggregator/http.go: the handlers, and the wrapper that counts their responses.
use toll_calc.Common.{ℕ, ◌^◌, Bool, Option, none, some, ◌⊎◌, inl, inr, [], ◌∷◌, not, if◌then◌else◌}
use toll_calc.Common.Int.{ℤ, pos}
use toll_calc.Common.Eq.{◌==◌, List-Eq, ℕ-Eq}
use toll_calc.Common.Text.{Text, text, is_empty, itoa, atoi}
use toll_calc.Types.{Distance, Invoice}
use toll_calc.Http.{
  HttpRequest, HttpResponse, method_get, method_post, Counters, inc, Codec, write_json, set_allow,
}
use toll_calc.Aggregator.{Result, ok, err, is_invalid, message, Aggregator}

-- The service behind both transports, and the transports' counters: the events by protocol
-- (`aggregatorProtocolEvents`) and the requests (`httpServerRequests`, `grpcServerRequests`).
pub record Server (S : Type 0) : Type 0 where
  pub protocol_events : Counters
  pub http_requests : Counters
  pub grpc_requests : Counters
  pub service : S

-- `http.StatusOK` and the others in use.
abbrev pub status_ok : ℕ
status_ok = 200

abbrev pub status_accepted : ℕ
status_accepted = 202

abbrev pub status_bad_request : ℕ
status_bad_request = 400

abbrev pub status_not_found : ℕ
status_not_found = 404

abbrev pub status_method_not_allowed : ℕ
status_method_not_allowed = 405

abbrev pub status_internal_server_error : ℕ
status_internal_server_error = 500

-- `1<<20`, the limit of `http.MaxBytesReader`
abbrev pub max_body : ℕ
max_body = 2 ^ 20

module _ {F S : Type 0} (codec : Codec F) (svc : Aggregator F S) where
  abbrev error_json : ℕ → Text → HttpResponse
  error_json status m = write_json status (some (codec.encode_error m))

  abbrev wrong_method : Text → HttpResponse
  wrong_method allowed =
      set_allow allowed (error_json status_method_not_allowed (text "method not allowed"))

  unfoldable pub handle_reconciliation : HttpRequest → Server S → HttpResponse × Server S
  handle_reconciliation r s =
      if not (r.method == method_get) then (wrong_method method_get, s) else (
        write_json status_ok (some (codec.encode_reconciliation (svc.reconciliation s.service))),
        s,
      )

  abbrev pub invoice_response : Result (Invoice F) → HttpResponse
  invoice_response (ok invoice) = write_json status_ok (codec.encode_invoice invoice)
  invoice_response (err e) = error_json status_internal_server_error (message e)

  abbrev invoice_of_id : Option ℤ → S → HttpResponse
  invoice_of_id none s = error_json status_bad_request (text "Invalid OBU Id")
  invoice_of_id (some id) s = invoice_response (svc.calculate_invoice id s)

  unfoldable pub handle_get_invoice : HttpRequest → Server S → HttpResponse × Server S
  handle_get_invoice r s =
      if not (r.method == method_get)
      then (wrong_method method_get, s)
      else if is_empty r.obu
      then (error_json status_bad_request (text "Missing OBUID"), s)
      else (invoice_of_id (atoi r.obu) s.service, s)

  abbrev pub aggregate_response : Result Bool → HttpResponse
  aggregate_response (ok _) =
      write_json status_accepted (some (codec.encode_message (text "Success")))
  aggregate_response (err e) =
      if is_invalid e
      then error_json status_bad_request (message e)
      else error_json status_internal_server_error (message e)

  abbrev pub aggregate_decoded : Text ⊎ Distance F → Server S → HttpResponse × Server S
  aggregate_decoded (inl m) s = (error_json status_bad_request m, s)
  aggregate_decoded (inr dist) s =
      let (r, service') = svc.aggregate_distance dist s.service in
      (aggregate_response r, record s { service = service' })

  unfoldable pub handle_aggregate : HttpRequest → Server S → HttpResponse × Server S
  handle_aggregate r s =
      if not (r.method == method_post)
      then (wrong_method method_post, s)
      else aggregate_decoded (codec.decode_distance max_body r.body)
          (record s { protocol_events = inc (text "http" ∷ []) s.protocol_events })

  -- `instrumentHTTP`: it counts the response under the status that the handler wrote.
  unfoldable pub instrument_http :
      Text
      → (HttpRequest → Server S → HttpResponse × Server S)
      → HttpRequest
      → Server S
      → HttpResponse × Server S
  instrument_http route next r s =
      let (w, s') = next r s in
      let labels = text "server" ∷ r.method ∷ route ∷ itoa (pos w.status) ∷ [] in
      (w, record s' { http_requests = inc labels s'.http_requests })

  -- The multiplexer, on paths that need no cleaning. `metrics` is the page of `promhttp`.
  unfoldable pub new_http_handler :
      (metrics : Server S → HttpResponse) → HttpRequest → Server S → HttpResponse × Server S
  new_http_handler metrics r s =
      if r.path == text "/agg"
      then instrument_http (text "aggregate") handle_aggregate r s
      else if r.path == text "/invoice"
      then instrument_http (text "invoice") handle_get_invoice r s
      else if r.path == text "/benchmark/reconciliation"
      then instrument_http (text "reconciliation") handle_reconciliation r s
      else if r.path == text "/metrics"
      then (metrics s, s)
      else (write_json status_not_found none, s)
