-- ===== src/Common/Text/Utf8.antt =====
-- Valid UTF-8, which is what `encoding/json` keeps of a string and what a string of proto3 has to be.
use toll_calc.Common.{
  ℕ, zero, suc, ◌/◌, ◌%◌, ◌+◌, ◌<◌, ◌≡◌, refl, Bool, true, false, ◌&&◌, Option, none, some, List,
  [], ◌∷◌, ◌++◌, arith, ltb, leb, nat_eq, if◌then◌else◌, Bool-cases, inl, inr,
}
use toll_calc.Common.Int.{ℤ, pos, negsuc}
use toll_calc.Common.Text.{Text, decimal_fuel, decimal, itoa}

-- The least and the greatest value of a byte.
abbrev ByteRange : Type 0
ByteRange = ℕ × ℕ

abbrev in_range : ByteRange → ℕ → Bool
in_range (lo, hi) c = leb lo c && leb c hi

abbrev continuation : ByteRange
continuation = (128, 191)

-- The bytes that follow a first byte: no overlong form, no surrogate, nothing above U+10FFFF.
abbrev following : ℕ → Option (List ByteRange)
following c =
    if leb c 127
    then some []
    else if in_range (194, 223) c
    then some (continuation ∷ [])
    else if nat_eq c 224
    then some ((160, 191) ∷ continuation ∷ [])
    else if nat_eq c 237
    then some ((128, 159) ∷ continuation ∷ [])
    else if in_range (225, 239) c
    then some (continuation ∷ continuation ∷ [])
    else if nat_eq c 240
    then some ((144, 191) ∷ continuation ∷ continuation ∷ [])
    else if in_range (241, 243) c
    then some (continuation ∷ continuation ∷ continuation ∷ [])
    else if nat_eq c 244
    then some ((128, 143) ∷ continuation ∷ continuation ∷ [])
    else none

abbrev expected : Option (List ByteRange) → List ByteRange
expected none = []
expected (some ranges) = ranges

abbrev is_first : Option (List ByteRange) → Bool
is_first none = false
is_first (some ranges) = true

-- `ranges` are those of the bytes that the current character still needs.
abbrev is_utf8_after : List ByteRange → Text → Bool
is_utf8_after [] [] = true
is_utf8_after (r ∷ ranges) [] = false
is_utf8_after [] (c ∷ cs) = is_first (following c) && is_utf8_after (expected (following c)) cs
is_utf8_after (r ∷ ranges) (c ∷ cs) = in_range r c && is_utf8_after ranges cs

abbrev pub is_utf8 : Text → Bool
is_utf8 t = is_utf8_after [] t

-- Texts of ASCII characters.
abbrev pub AllAscii : Text → Type 0
AllAscii [] = Unit
AllAscii (c ∷ cs) = (c < 128) × AllAscii cs

pub AllAscii-is_utf8 : (t : Text) → AllAscii t → is_utf8 t ≡ true
AllAscii-is_utf8 [] h = refl
AllAscii-is_utf8 (c ∷ cs) (small, rest) =
    let first : leb c 127 ≡ true = ground (arith, small) in rw first (AllAscii-is_utf8 cs rest)

pub append-AllAscii : (s t : Text) → AllAscii s → AllAscii t → AllAscii (s ++ t)
append-AllAscii [] t hs ht = ht
append-AllAscii (c ∷ s) t (first, hs) ht = (first, append-AllAscii s t hs ht)

decimal_fuel-AllAscii : (f n : ℕ) → AllAscii (decimal_fuel f n)
unfolding decimal_fuel
decimal_fuel-AllAscii zero n = tt
decimal_fuel-AllAscii (suc f) n = elim (Bool-cases (ltb n 10)) [
  | inl small ↦ rw small (ground (arith, small), tt)
  | inr large ↦ rw large (
      append-AllAscii (decimal_fuel f (n / 10)) ((n % 10 + b'0') ∷ [])
        (decimal_fuel-AllAscii f (n / 10)) (omega arith, tt))
]

-- What `%d` prints is ASCII.
pub itoa-AllAscii : (n : ℤ) → AllAscii (itoa n)
unfolding itoa decimal
itoa-AllAscii (pos n) = decimal_fuel-AllAscii (suc n) n
itoa-AllAscii (negsuc n) = (omega arith, decimal_fuel-AllAscii (suc (suc n)) (suc n))

-- The euro sign is valid; a byte that continues nothing, an overlong form, a surrogate, a value above
-- U+10FFFF and a character that is cut off are not.
utf8_examples :
    (is_utf8 (226 ∷ 130 ∷ 172 ∷ []) ≡ true)
    × (is_utf8 (128 ∷ []) ≡ false)
    × (is_utf8 (192 ∷ 128 ∷ []) ≡ false)
    × (is_utf8 (237 ∷ 160 ∷ 128 ∷ []) ≡ false)
    × (is_utf8 (244 ∷ 144 ∷ 128 ∷ 128 ∷ []) ≡ false)
    × (is_utf8 (226 ∷ 130 ∷ []) ≡ false)
utf8_examples = (refl, refl, refl, refl, refl, refl)
