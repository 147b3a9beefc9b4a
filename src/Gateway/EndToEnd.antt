-- ===== src/Gateway/EndToEnd.antt =====
-- A client's request through the gateway and its HTTP client to the aggregator, and back.
use toll_calc.Common.{◌^◌, ◌-◌, ◌≡◌, ◌≢◌, ap, ◌∙◌, false, Option, some, ◌⊎◌, [], arith}
use toll_calc.Common.Int.{ℤ, pos, negsuc, ◌≤ℤ◌, leb_ℤ}
use toll_calc.Common.Eq.{List-Eq, ℕ-Eq, list_eq_iff}
use toll_calc.Common.Text.{Text, text, itoa, atoi}
use toll_calc.Common.Text.Decimal.{atoi-itoa, itoa-ne-empty}
use toll_calc.Float.{Float64}
use toll_calc.Types.{Invoice}
use toll_calc.Http.{HttpRequest, HttpResponse, method_get, Codec, IsCodec, write_json}
use toll_calc.Aggregator.{ok, err, Error, Aggregator}
use toll_calc.Aggregator.Http.{
  Server, invoice_response, handle_get_invoice, instrument_http, new_http_handler,
}
use toll_calc.Client.{Client, ClientError, wrong_status}
use toll_calc.Client.HttpClient
use toll_calc.Client.HttpClient.{Outgoing, Connected, new_http_client}
use toll_calc.Client.Agreement.{IsConnected}
use toll_calc.Gateway.{serve, handle_get_invoice as gateway_invoice}

-- The request of a public client for an OBU's invoice.
abbrev pub invoice_request : ℤ → HttpRequest
invoice_request id = record {
  method = method_get;
  path = text "/invoice";
  obu = itoa id;
  body = [];
}

module _ {F S : Type 0} (codec : Codec F) (svc : Aggregator F S) (metrics : Server S → HttpResponse)
    (transport : Outgoing → Server S → Option HttpResponse × Server S) (endpoint : Text)
    (describe : ClientError → Text)
    (connected : IsConnected codec svc metrics transport endpoint) where
  abbrev gateway : HttpRequest → Connected (Server S) → HttpResponse × Connected (Server S)
  gateway = serve codec (new_http_client codec transport endpoint) describe

  -- The aggregator's answer to the gateway's request.
  served_invoice :
      (id : ℤ) (s : Server S)
      → negsuc (2 ^ 63 - 1) ≤ℤ id
      → id ≤ℤ pos (2 ^ 63 - 1)
      → (new_http_handler codec svc metrics (invoice_request id) s).0
        ≡ invoice_response codec svc (svc.calculate_invoice id s.service)
  unfolding new_http_handler instrument_http handle_get_invoice
  served_invoice id s lo hi = rw (itoa-ne-empty id, atoi-itoa id lo hi)

  -- With a codec that reads back what it writes and a network without failures: for an OBU ID
  -- from 1 to 2^63 - 1 for which the aggregator calculates an invoice that can be encoded, the
  -- gateway answers 200 with that invoice.
  pub gateway_returns_invoice :
      ⦃f : Float64 F⦄
      → IsCodec codec
      → (id : ℤ) (s : Connected (Server S)) (inv : Invoice F) (b : Text) → pos 1 ≤ℤ id
      → id ≤ℤ pos (2 ^ 63 - 1)
      → svc.calculate_invoice id s.world.service ≡ ok inv
      → codec.encode_invoice inv ≡ some b
      → (gateway (invoice_request id) s).0 ≡ write_json 200 (some b)
  unfolding serve HttpClient.get_invoice
  gateway_returns_invoice laws id s inv b lo hi priced encoded =
      let sent : atoi (itoa id) ≡ some id = atoi-itoa id (omega arith) hi in
      let positive : leb_ℤ id (pos 0) ≡ false = ground arith in
      let served : (new_http_handler codec svc metrics (invoice_request id) s.world).0
          ≡ write_json 200 (some b) =
        served_invoice id s.world (omega arith) hi ∙ rw (priced, encoded) in
      rw (
        sent,
        positive,
        connected.invoices id s.world,
        served,
        laws.invoice_back inv b encoded,
        encoded,
      )

  -- With a network without failures: for an OBU ID from 1 to 2^63 - 1 for which the aggregator
  -- calculates no invoice, such as an unknown one, the gateway answers 500 and reports that the
  -- aggregator's status was 500.
  pub gateway_reports_failure :
      (id : ℤ) (s : Connected (Server S)) (e : Error)
      → pos 1 ≤ℤ id
      → id ≤ℤ pos (2 ^ 63 - 1)
      → svc.calculate_invoice id s.world.service ≡ err e
      → (gateway (invoice_request id) s).0
        ≡ write_json 500 (some (codec.encode_error (describe (wrong_status 500))))
  unfolding serve HttpClient.get_invoice
  gateway_reports_failure id s e lo hi failed =
      let sent : atoi (itoa id) ≡ some id = atoi-itoa id (omega arith) hi in
      let positive : leb_ℤ id (pos 0) ≡ false = ground arith in
      let served : (new_http_handler codec svc metrics (invoice_request id) s.world).0.status
          ≡ 500 =
        ap (λ (w : HttpResponse). w.status) (served_invoice id s.world (omega arith) hi)
        ∙ rw failed in
      rw (sent, positive, connected.invoices id s.world, served)

module _ {F W : Type 0} (codec : Codec F) (client : Client F W)
    (describe : ClientError → Text) where
  -- Every answer of the gateway has status 200 or 500, whatever client it uses.
  pub serve_statuses :
      (r : HttpRequest) (w : W)
      → ((serve codec client describe r w).0.status ≡ 200)
        ⊎ ((serve codec client describe r w).0.status ≡ 500)
  unfolding serve gateway_invoice
  serve_statuses r w = ground arith

  -- A request by another method than GET gets 500 with the header Allow, and the client's state
  -- stays as it is.
  pub serve_rejects_method :
      (r : HttpRequest) (w : W)
      → r.method ≢ method_get
      → let (resp, w') = serve codec client describe r w in
        (resp.status ≡ 500) × (resp.allow ≡ some method_get) × (w' ≡ w)
  unfolding serve gateway_invoice
  serve_rejects_method r w h = ground (arith, list_eq_iff r.method method_get)
