-- ===== src/Examples/Codec.antt =====
-- A codec with the laws of `IsCodec`: a value is written as a list of numbers. Like JSON, it cannot
-- write NaN or an infinity.
use toll_calc.Common.{
  ℕ, zero, suc, ◌≡◌, refl, ap, true, false, ◌&&◌, Option, none, some, ◌⊎◌, inl, inr, [], ◌∷◌, ◌++◌,
  arith, subst, Bool-cases, leb, if◌then◌else◌,
}
use toll_calc.Common.Int.{ℤ, pos, negsuc}
use toll_calc.Common.Text.{Text, text, length}
use toll_calc.Common.Text.Utf8.{is_utf8}
use toll_calc.Float.Grid.{Grid, nan, inf, whole, Grid-Float64}
use toll_calc.Types.{ObuData, Distance, Invoice}
use toll_calc.Http.{Codec, IsCodec}

abbrev sign : ℤ → ℕ
sign (pos n) = 0
sign (negsuc n) = 1

abbrev size : ℤ → ℕ
size (pos n) = n
size (negsuc n) = n

abbrev signed : ℕ → ℕ → ℤ
signed zero n = pos n
signed (suc _) n = negsuc n

signed_back : (z : ℤ) → signed (sign z) (size z) ≡ z
signed_back (pos n) = refl
signed_back (negsuc n) = refl

-- Two texts in one: each byte of the first is raised by one, and a zero ends it.
abbrev join : Text → Text → Text
join [] rest = 0 ∷ rest
join (c ∷ cs) rest = suc c ∷ join cs rest

abbrev first_of : Text → Text
first_of [] = []
first_of (zero ∷ rest) = []
first_of (suc c ∷ cs) = c ∷ first_of cs

abbrev rest_of : Text → Text
rest_of [] = []
rest_of (zero ∷ rest) = rest
rest_of (suc c ∷ cs) = rest_of cs

first_of-join : (t rest : Text) → first_of (join t rest) ≡ t
first_of-join [] rest = refl
first_of-join (c ∷ cs) rest = ap (λ t. c ∷ t) (first_of-join cs rest)

rest_of-join : (t rest : Text) → rest_of (join t rest) ≡ rest
rest_of-join [] rest = refl
rest_of-join (c ∷ cs) rest = rest_of-join cs rest

abbrev put_distance : Text → ℤ → Grid → ℤ → Option Text
put_distance event_id at (whole x) obu =
    some (sign x ∷ size x ∷ sign at ∷ size at ∷ sign obu ∷ size obu ∷ event_id)
put_distance event_id at _ obu = none

abbrev get_distance : Text → Text ⊎ Distance Grid
get_distance (a ∷ b ∷ c ∷ d ∷ e ∷ f ∷ event_id) = inr (record {
  event_id = event_id;
  produced_at_unix_nano = signed c d;
  value = whole (signed a b);
  obu_id = signed e f;
})
get_distance _ = inl (text "unexpected EOF")

abbrev put_invoice : ℤ → Grid → Grid → Option Text
put_invoice obu (whole x) (whole y) =
    some (sign obu ∷ size obu ∷ sign x ∷ size x ∷ sign y ∷ size y ∷ [])
put_invoice obu _ _ = none

abbrev get_invoice : Text → Option (Invoice Grid)
get_invoice (a ∷ b ∷ c ∷ d ∷ e ∷ f ∷ []) =
    some
      (record { obu_id = signed a b; total_dist = whole (signed c d); amount = whole (signed e f) })
get_invoice _ = none

abbrev put_event : Text → ℤ → ℤ → Grid → Grid → Text → Option Text
put_event event_id at obu (whole x) (whole y) payload = some (
    sign at
    ∷ size at
    ∷ sign obu
    ∷ size obu
    ∷ sign x
    ∷ size x
    ∷ sign y
    ∷ size y
    ∷ join event_id payload)
put_event event_id at obu _ _ payload = none

abbrev if_utf8 : ObuData Grid → Option (ObuData Grid)
if_utf8 e = if is_utf8 e.event_id && is_utf8 e.payload then some e else none

if_utf8-texts :
    (d e : ObuData Grid)
    → if_utf8 d ≡ some e
    → (is_utf8 e.event_id ≡ true) × (is_utf8 e.payload ≡ true)
if_utf8-texts d e h = elim (Bool-cases (is_utf8 d.event_id && is_utf8 d.payload)) [
  | inl valid ↦
      let same : d ≡ e = ground (arith, valid, h) in
      subst (λ x. (is_utf8 x.event_id ≡ true) × (is_utf8 x.payload ≡ true)) same
        (ground (arith, valid), ground (arith, valid))
  | inr broken ↦ absurd (ground (arith, broken, h))
]

abbrev get_event : Text → Option (ObuData Grid)
get_event (a ∷ b ∷ c ∷ d ∷ e ∷ f ∷ g ∷ h ∷ texts) = if_utf8 (record {
  event_id = first_of texts;
  produced_at_unix_nano = signed a b;
  obu_id = signed c d;
  lat = whole (signed e f);
  lon = whole (signed g h);
  payload = rest_of texts;
})
get_event _ = none

abbrev pub number_codec : Codec Grid
number_codec = record {
  encode_distance = λ d. put_distance d.event_id d.produced_at_unix_nano d.value d.obu_id;
  decode_distance =
      λ limit b. if leb (length b) limit then get_distance b else inl (text "body too large");
  encode_invoice = λ i. put_invoice i.obu_id i.total_dist i.amount;
  decode_invoice = get_invoice;
  encode_event = λ e. put_event e.event_id e.produced_at_unix_nano e.obu_id e.lat e.lon e.payload;
  decode_event = get_event;
  encode_reconciliation = λ r. r.count ∷ r.xor_hash ∷ r.sum_hash ∷ [];
  encode_error = λ m. text "Error: " ++ m;
  encode_message = λ m. text "Message: " ++ m;
}

get_event-texts :
    (b : Text) (e : ObuData Grid)
    → get_event b ≡ some e
    → (is_utf8 e.event_id ≡ true) × (is_utf8 e.payload ≡ true)
get_event-texts (a ∷ b ∷ c ∷ d ∷ e ∷ f ∷ g ∷ h ∷ texts) event it =
    if_utf8-texts
      (record {
        event_id = first_of texts;
        produced_at_unix_nano = signed a b;
        obu_id = signed c d;
        lat = whole (signed e f);
        lon = whole (signed g h);
        payload = rest_of texts;
      })
      event it
get_event-texts ([]) event it = absurd (ground (arith, it))
get_event-texts (a ∷ []) event it = absurd (ground (arith, it))
get_event-texts (a ∷ b ∷ []) event it = absurd (ground (arith, it))
get_event-texts (a ∷ b ∷ c ∷ []) event it = absurd (ground (arith, it))
get_event-texts (a ∷ b ∷ c ∷ d ∷ []) event it = absurd (ground (arith, it))
get_event-texts (a ∷ b ∷ c ∷ d ∷ e ∷ []) event it = absurd (ground (arith, it))
get_event-texts (a ∷ b ∷ c ∷ d ∷ e ∷ f ∷ []) event it = absurd (ground (arith, it))
get_event-texts (a ∷ b ∷ c ∷ d ∷ e ∷ f ∷ g ∷ []) event it = absurd (ground (arith, it))

get-put_distance :
    (event_id : Text) (at : ℤ) (value : Grid) (obu : ℤ) (b : Text)
    → put_distance event_id at value obu ≡ some b
    → get_distance b
      ≡ inr
          (record { event_id = event_id; produced_at_unix_nano = at; value = value; obu_id = obu })
get-put_distance event_id at nan obu b h = cc
get-put_distance event_id at inf obu b h = cc
get-put_distance event_id at (whole x) obu b h =
    let it : b ≡ sign x ∷ size x ∷ sign at ∷ size at ∷ sign obu ∷ size obu ∷ event_id = cc in
    rw (it, signed_back x, signed_back at, signed_back obu)

get-put_invoice :
    (obu : ℤ) (x y : Grid) (b : Text)
    → put_invoice obu x y ≡ some b
    → get_invoice b ≡ some (record { obu_id = obu; total_dist = x; amount = y })
get-put_invoice obu nan y b h = cc
get-put_invoice obu inf y b h = cc
get-put_invoice obu (whole x) nan b h = cc
get-put_invoice obu (whole x) inf b h = cc
get-put_invoice obu (whole x) (whole y) b h =
    let it : b ≡ sign obu ∷ size obu ∷ sign x ∷ size x ∷ sign y ∷ size y ∷ [] = cc in
    rw (it, signed_back obu, signed_back x, signed_back y)

get-put_event :
    (event_id : Text) (at obu : ℤ) (x y : Grid) (payload b : Text)
    → is_utf8 event_id ≡ true
    → is_utf8 payload ≡ true
    → put_event event_id at obu x y payload ≡ some b
    → get_event b
      ≡ some (record {
        event_id = event_id;
        produced_at_unix_nano = at;
        obu_id = obu;
        lat = x;
        lon = y;
        payload = payload;
      })
get-put_event event_id at obu nan y payload b id_utf8 payload_utf8 h = cc
get-put_event event_id at obu inf y payload b id_utf8 payload_utf8 h = cc
get-put_event event_id at obu (whole x) nan payload b id_utf8 payload_utf8 h = cc
get-put_event event_id at obu (whole x) inf payload b id_utf8 payload_utf8 h = cc
get-put_event event_id at obu (whole x) (whole y) payload b id_utf8 payload_utf8 h =
    let it : b
        ≡ sign at
          ∷ size at
          ∷ sign obu
          ∷ size obu
          ∷ sign x
          ∷ size x
          ∷ sign y
          ∷ size y
          ∷ join event_id payload =
      cc in
    rw (
      it,
      signed_back at,
      signed_back obu,
      signed_back x,
      signed_back y,
      first_of-join event_id payload,
      rest_of-join event_id payload,
      id_utf8,
      payload_utf8,
    )

put_distance_finite :
    (event_id : Text) (at : ℤ) (value : Grid) (obu : ℤ)
    → Grid-Float64.is_nan value ≡ false
    → Grid-Float64.is_inf value ≡ false
    → (b : Text) × (put_distance event_id at value obu ≡ some b)
put_distance_finite event_id at nan obu number finite = absurd (ground (arith, number))
put_distance_finite event_id at inf obu number finite = absurd (ground (arith, finite))
put_distance_finite event_id at (whole x) obu number finite = (_, refl)

pub number_codec-IsCodec : IsCodec number_codec
number_codec-IsCodec = record {
  distance_back = λ d b limit utf8 h fits.
      let small : leb (length b) limit ≡ true = ground (arith, fits) in
      rw small (get-put_distance d.event_id d.produced_at_unix_nano d.value d.obu_id b h);
  invoice_back = λ i b h. get-put_invoice i.obu_id i.total_dist i.amount b h;
  event_back = λ e b id text h.
      get-put_event e.event_id e.produced_at_unix_nano e.obu_id e.lat e.lon e.payload b id text h;
  event_texts = λ e b h. get_event-texts b e h;
  distance_encodes = λ d number finite.
      put_distance_finite d.event_id d.produced_at_unix_nano d.value d.obu_id number finite;
}
