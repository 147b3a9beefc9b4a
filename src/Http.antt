-- ===== src/Http.antt =====
-- What the HTTP handlers and clients use of package `net/http`, and the JSON of `encoding/json`,
-- which is a parameter: a `Codec` with the laws of `IsCodec`.
use toll_calc.Common.{ℕ, ◌≤◌, ◌≡◌, true, false, Option, none, some, get_or, ◌⊎◌, inr, List, [], ◌+◌}
use toll_calc.Common.Eq.{List-Eq, ℕ-Eq}
use toll_calc.Common.Map.{Map, lookup, insert}
use toll_calc.Common.Text.{Text, text, length}
use toll_calc.Common.Text.Utf8.{is_utf8}
use toll_calc.Float.{Float64}
use toll_calc.Types.{ObuData, Distance, Invoice, EventReconciliation}

-- `obu` is `r.URL.Query().Get("obu")`, which is empty if the parameter is missing.
pub record HttpRequest : Type 0 where
  pub method : Text
  pub path : Text
  pub obu : Text
  pub body : Text

-- `allow` is the header of that name. Bodies are sent with the content type of JSON.
pub record HttpResponse : Type 0 where
  pub status : ℕ
  pub allow : Option Text
  pub body : Text

-- `http.MethodGet` and `http.MethodPost`.
abbrev pub method_get : Text
method_get = text "GET"

abbrev pub method_post : Text
method_post = text "POST"

-- The counters of a `prometheus.CounterVec`, by their label values.
abbrev pub Counters : Type 0
Counters = Map (List Text) ℕ

abbrev pub counter : List Text → Counters → ℕ
counter labels m = get_or (lookup labels m) 0

-- `WithLabelValues(labels).Inc()`
unfoldable pub inc : List Text → Counters → Counters
inc labels m = insert labels (counter labels m + 1) m

-- `json.Marshal` fails on NaN and on infinities: `none`. A decoder of a request body reads at most
-- `limit` bytes; the left summand is the text of its error.
pub record Codec (F : Type 0) : Type 0 where
  pub encode_distance : Distance F → Option Text
  pub decode_distance : (limit : ℕ) → Text → Text ⊎ Distance F
  pub encode_invoice : Invoice F → Option Text
  pub decode_invoice : Text → Option (Invoice F)
  pub encode_event : ObuData F → Option Text
  pub decode_event : Text → Option (ObuData F)
  pub encode_reconciliation : EventReconciliation → Text
  -- `map[string]string{"Error": m}` and `map[string]string{"Message": m}`
  pub encode_error : Text → Text
  pub encode_message : Text → Text

-- What was encoded is decoded to the same value, where its texts are valid UTF-8: the encoder replaces
-- other bytes by U+FFFD, and so does the decoder, whose texts are always valid. Finite values can be
-- encoded.
pub record IsCodec {F : Type 0} ⦃f : Float64 F⦄ (c : Codec F) : Type 0 where
  pub distance_back :
      (d : Distance F) (b : Text) (limit : ℕ)
      → is_utf8 d.event_id ≡ true
      → c.encode_distance d ≡ some b
      → length b ≤ limit
      → c.decode_distance limit b ≡ inr d
  pub invoice_back :
      (i : Invoice F) (b : Text) → c.encode_invoice i ≡ some b → c.decode_invoice b ≡ some i
  pub event_back :
      (e : ObuData F) (b : Text)
      → is_utf8 e.event_id ≡ true
      → is_utf8 e.payload ≡ true
      → c.encode_event e ≡ some b
      → c.decode_event b ≡ some e
  pub event_texts :
      (e : ObuData F) (b : Text)
      → c.decode_event b ≡ some e
      → (is_utf8 e.event_id ≡ true) × (is_utf8 e.payload ≡ true)
  pub distance_encodes :
      (d : Distance F)
      → f.is_nan d.value ≡ false
      → f.is_inf d.value ≡ false
      → (b : Text) × (c.encode_distance d ≡ some b)

-- `writeJson` with a value that has been encoded; the status is written first, so a value that
-- cannot be encoded leaves the body empty.
abbrev pub write_json : ℕ → Option Text → HttpResponse
write_json status v = record { status = status; allow = none; body = get_or v [] }

-- `w.Header().Set("Allow", method)` in front of the response.
abbrev pub set_allow : Text → HttpResponse → HttpResponse
set_allow method r = record r { allow = some method }
