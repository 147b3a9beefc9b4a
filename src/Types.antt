-- ===== src/Types.antt =====
-- types/types.go and the messages of types/ptypes.proto: the values that the services exchange.
use Prim.Native.Nat.{bit_xor}
use toll_calc.Common.{ℕ, ◌*◌, ◌%◌, ◌^◌, ◌<◌, ◌≡◌, refl, Bool, ◌||◌, [], ◌∷◌, arith}
use toll_calc.Common.Int.{ℤ, pos, leb_ℤ}
use toll_calc.Common.Text.{Text, text, is_empty}

pub record ObuData (F : Type 0) : Type 0 where
  pub event_id : Text
  pub produced_at_unix_nano : ℤ
  pub obu_id : ℤ
  pub lat : F
  pub lon : F
  pub payload : Text

pub record Distance (F : Type 0) : Type 0 where
  pub event_id : Text
  pub produced_at_unix_nano : ℤ
  pub value : F
  pub obu_id : ℤ

pub record Invoice (F : Type 0) : Type 0 where
  pub obu_id : ℤ
  pub total_dist : F
  pub amount : F

-- Three `uint64` words.
pub record EventReconciliation : Type 0 where
  pub count : ℕ
  pub xor_hash : ℕ
  pub sum_hash : ℕ

-- The protocol buffer's request; `obu_id` is an `int32`.
pub record AggregateRequest (F : Type 0) : Type 0 where
  pub obu_id : ℤ
  pub value : F
  pub produced_at_unix_nano : ℤ
  pub event_id : Text

-- The test by which the receiver and the distance calculator discard an event.
abbrev pub invalid_event : {F : Type 0} → ObuData F → Bool
invalid_event d =
    is_empty d.event_id || leb_ℤ d.produced_at_unix_nano (pos 0) || leb_ℤ d.obu_id (pos 0)

abbrev pub word : ℕ
word = 2 ^ 64

-- One round of the 64-bit FNV-1a hash: exclusive or with the byte, then times the prime.
fnv_step : ℕ → ℕ → ℕ
fnv_step hash byte = (bit_xor hash byte * 1099511628211) % word

fnv_write : ℕ → Text → ℕ
fnv_write hash [] = hash
fnv_write hash (b ∷ bs) = fnv_write (fnv_step hash b) bs

unfoldable pub event_id_fingerprint : Text → ℕ
unfolding fnv_write fnv_step
event_id_fingerprint event_id = fnv_write 14695981039346656037 event_id

fnv_write-lt : (hash : ℕ) (bs : Text) → hash < word → fnv_write hash bs < word
unfolding fnv_write fnv_step
fnv_write-lt hash [] h = h
fnv_write-lt hash (b ∷ bs) h = fnv_write-lt (fnv_step hash b) bs (omega arith)

-- A fingerprint fits a `uint64`.
pub event_id_fingerprint-lt : (event_id : Text) → event_id_fingerprint event_id < word
unfolding event_id_fingerprint
event_id_fingerprint-lt event_id = fnv_write-lt 14695981039346656037 event_id (omega arith)

-- The published FNV-1a values of "a" and "foobar".
fingerprint_vectors :
    (event_id_fingerprint (text "a") ≡ 0xaf63dc4c8601ec8c)
    × (event_id_fingerprint (text "foobar") ≡ 0x85944171f73967e8)
unfolding event_id_fingerprint
fingerprint_vectors = (refl, refl)
