-- ===== src/Client/HttpClient.antt =====
-- aggregator/client/httpClient.go.
use toll_calc.Common.{
  not, ◌&&◌, Option, none, some, ◌⊎◌, inl, inr, [], ◌∷◌, ◌++◌, if◌then◌else◌, nat_eq,
}
use toll_calc.Common.Int.{ℤ, pos}
use toll_calc.Common.Eq.{List-Eq, ℕ-Eq}
use toll_calc.Common.Text.{Text, text, itoa, is_empty}
use toll_calc.Types.{Invoice, AggregateRequest}
use toll_calc.Http.{HttpResponse, method_get, method_post, Counters, inc, Codec}
use toll_calc.Aggregator.Http.{status_ok, status_accepted}
use toll_calc.Aggregator.Grpc.{distance_of}
use toll_calc.Client.{ClientError, not_encoded, no_response, not_decoded, wrong_status, Client}

-- A request as the client states it.
pub record Outgoing : Type 0 where
  pub method : Text
  pub url : Text
  pub body : Text

-- The client's `httpClientRequests` and the network.
pub record Connected (W : Type 0) : Type 0 where
  pub requests : Counters
  pub world : W

-- `strings.TrimRight(endpoint, "/")`
unfoldable pub trim_slashes : Text → Text
trim_slashes [] = []
trim_slashes (c ∷ cs) =
    let rest = trim_slashes cs in if is_empty rest && nat_eq c b'/' then [] else c ∷ rest

-- The status as a label of the counter; "client_error" where there is no response.
abbrev code_label : Option HttpResponse → Text
code_label none = text "client_error"
code_label (some resp) = itoa (pos resp.status)

module _ {F W : Type 0} (codec : Codec F)
    -- `http.NewRequestWithContext` and `Client.Do`: `none` is an error of either
    (transport : Outgoing → W → Option HttpResponse × W) (endpoint : Text) where
  abbrev count_request : Text → Text → Option HttpResponse → Connected W → Connected W
  count_request method operation resp s =
      let labels = text "client" ∷ method ∷ operation ∷ code_label resp ∷ [] in
      record s { requests = inc labels s.requests }

  abbrev aggregate_error : Option HttpResponse → Option ClientError
  aggregate_error none = some no_response
  aggregate_error (some resp) =
      if not (nat_eq resp.status status_accepted) then some (wrong_status resp.status) else none

  abbrev pub aggregate_encoded : Option Text → Connected W → Option ClientError × Connected W
  aggregate_encoded none s = (some not_encoded, count_request method_post (text "aggregate") none s)
  aggregate_encoded (some b) s =
      let (resp, world') =
        transport
          (record { method = method_post; url = trim_slashes endpoint ++ text "/agg"; body = b })
          s.world in
      (
        aggregate_error resp,
        count_request method_post (text "aggregate") resp (record s { world = world' }),
      )

  unfoldable pub aggregate : AggregateRequest F → Connected W → Option ClientError × Connected W
  aggregate req s = aggregate_encoded (codec.encode_distance (distance_of req)) s

  abbrev decoded : Option (Invoice F) → ClientError ⊎ Invoice F
  decoded none = inl not_decoded
  decoded (some inv) = inr inv

  abbrev invoice_of : Option HttpResponse → ClientError ⊎ Invoice F
  invoice_of none = inl no_response
  invoice_of (some resp) =
      if not (nat_eq resp.status status_ok)
      then inl (wrong_status resp.status)
      else decoded (codec.decode_invoice resp.body)

  -- `fmt.Sprintf("%s/%s?obu=%d", c.Endpoint, "invoice", id)`
  abbrev pub invoice_url : ℤ → Text
  invoice_url id = trim_slashes endpoint ++ text "/" ++ text "invoice" ++ text "?obu=" ++ itoa id

  unfoldable pub get_invoice : ℤ → Connected W → (ClientError ⊎ Invoice F) × Connected W
  get_invoice id s =
      let (resp, world') =
        transport (record { method = method_get; url = invoice_url id; body = [] }) s.world in
      (
        invoice_of resp,
        count_request method_get (text "invoice") resp (record s { world = world' }),
      )

  -- `Close` drops idle connections.
  abbrev pub new_http_client : Client F (Connected W)
  new_http_client = record { aggregate = aggregate; get_invoice = get_invoice; close = λ s. s }
