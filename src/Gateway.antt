-- ===== src/Gateway.antt =====
-- gateway/main.go: the public read endpoint in front of the aggregator's HTTP interface.
pub mod EndToEnd
use toll_calc.Common.{ℕ, Bool, not, Option, none, some, ◌⊎◌, inl, inr, get_or, [], if◌then◌else◌}
use toll_calc.Common.Int.{ℤ, pos, leb_ℤ}
use toll_calc.Common.Eq.{◌==◌, List-Eq, ℕ-Eq}
use toll_calc.Common.Text.{Text, text, atoi}
use toll_calc.Types.{Invoice}
use toll_calc.Http.{HttpRequest, HttpResponse, method_get, Codec, write_json, set_allow}
use toll_calc.Client.{ClientError, not_encoded, Client}

-- A handler's error. `not_written` is that of `writeJson` for a value that cannot be encoded,
-- which comes after the status.
pub data Failure : Type 0 where
  method_not_allowed invalid_query not_written : Failure
  downstream : ClientError → Failure

module _ {F W : Type 0} (codec : Codec F) (client : Client F W)
    -- `err.Error()` of an error of the client
    (describe : ClientError → Text) where
  abbrev written : Option Text → Failure ⊎ HttpResponse
  written none = inl not_written
  written (some b) = inr (write_json 200 (some b))

  abbrev fetched : (ClientError ⊎ Invoice F) × W → (Failure ⊎ HttpResponse) × W
  fetched (inl e, w) = (inl (downstream e), w)
  fetched (inr inv, w) = (written (codec.encode_invoice inv), w)

  abbrev lookup_invoice : Option ℤ → W → (Failure ⊎ HttpResponse) × W
  lookup_invoice none w = (inl invalid_query, w)
  lookup_invoice (some id) w =
      if leb_ℤ id (pos 0) then (inl invalid_query, w) else fetched (client.get_invoice id w)

  unfoldable pub handle_get_invoice : HttpRequest → W → (Failure ⊎ HttpResponse) × W
  handle_get_invoice r w =
      if not (r.method == method_get)
      then (inl method_not_allowed, w)
      else lookup_invoice (atoi r.obu) w

  -- `makeApiFunc`: every error becomes a 500, unless a status has been written already.
  abbrev reported : Failure ⊎ HttpResponse → HttpResponse
  reported (inr resp) = resp
  reported (inl method_not_allowed) =
      set_allow method_get (write_json 500 (some (codec.encode_error (text "method not allowed"))))
  reported (inl invalid_query) =
      write_json 500 (some (codec.encode_error (text "invalid obu query parameter")))
  reported (inl not_written) = write_json 200 (some (codec.encode_error (describe not_encoded)))
  reported (inl (downstream e)) = write_json 500 (some (codec.encode_error (describe e)))

  unfoldable pub serve : HttpRequest → W → HttpResponse × W
  unfolding handle_get_invoice
  serve r w = let (outcome, w') = handle_get_invoice r w in (reported outcome, w')
