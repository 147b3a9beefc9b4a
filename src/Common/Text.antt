-- ===== src/Common/Text.antt =====
-- Go strings as their bytes, and the decimal numbers of `strconv` and `fmt`.
pub mod Decimal
pub mod Utf8
use Prim.Native.Char.{code}
use Prim.Native.String.{String}
use toll_calc.Common.{
  ℕ, zero, suc, ◌+◌, ◌-◌, ◌*◌, ◌/◌, ◌%◌, ◌^◌, ◌≡◌, refl, Bool, true, false, ◌&&◌, Option, none,
  some, List, [], ◌∷◌, ◌++◌, ltb, leb, nat_eq, if◌then◌else◌,
}
use toll_calc.Common.Eq.{◌==◌, List-Eq, ℕ-Eq}
use toll_calc.Common.Int.{ℤ, pos, negsuc}

abbrev pub Text : Type 0
Text = List ℕ

-- The bytes of an ASCII literal.
abbrev pub text : String → Text
text String.[] = []
text (String.◌∷◌ c s) = code c ∷ text s

abbrev pub length {ℓ} : {A : Type ℓ} → List A → ℕ
length [] = 0
length (_ ∷ xs) = suc (length xs)

abbrev pub is_empty : Text → Bool
is_empty [] = true
is_empty (_ ∷ _) = false

-- A text that is empty equals none that is not.
pub anonymous_not_eq : (a e : Text) → is_empty a ≡ true → is_empty e ≡ false → (a == e) ≡ false
anonymous_not_eq [] [] p q = cc
anonymous_not_eq [] (c ∷ e) p q = refl
anonymous_not_eq (b ∷ a) e p q = cc

abbrev pub is_digit : ℕ → Bool
is_digit c = leb b'0' c && leb c b'9'

-- The decimal digits of `n`, on fuel above `n`.
decimal_fuel : ℕ → ℕ → Text
decimal_fuel zero n = []
decimal_fuel (suc f) n =
    let rest = decimal_fuel f (n / 10) in
    if ltb n 10 then (n + b'0') ∷ [] else rest ++ ((n % 10 + b'0') ∷ [])

unfoldable pub decimal : ℕ → Text
unfolding decimal_fuel
decimal n = decimal_fuel (suc n) n

-- `strconv.Itoa` and the verb `%d`.
unfoldable pub itoa : ℤ → Text
unfolding decimal
itoa (pos n) = decimal n
itoa (negsuc n) = b'-' ∷ decimal (suc n)

digits_from : ℕ → Text → Option ℕ
digits_from acc [] = some acc
digits_from acc (c ∷ cs) = if is_digit c then digits_from (acc * 10 + (c - b'0')) cs else none

unsigned : Text → Option ℕ
unsigned [] = none
unsigned (c ∷ cs) = digits_from 0 (c ∷ cs)

-- The range test of `ParseInt(s, 10, 64)` on either side of zero.
abbrev positive_in_range : Option ℕ → Option ℤ
positive_in_range none = none
positive_in_range (some n) = if ltb n (2 ^ 63) then some (pos n) else none

abbrev negative_in_range : Option ℕ → Option ℤ
negative_in_range none = none
negative_in_range (some zero) = some (pos 0)
negative_in_range (some (suc n)) = if ltb n (2 ^ 63) then some (negsuc n) else none

-- `strconv.Atoi`, which is `ParseInt(s, 10, 64)` where an `int` has 64 bits; `none` is an error.
unfoldable pub atoi : Text → Option ℤ
unfolding unsigned digits_from
atoi [] = none
atoi (c ∷ cs) =
    if nat_eq c b'-'
    then negative_in_range (unsigned cs)
    else if nat_eq c b'+'
    then positive_in_range (unsigned cs)
    else positive_in_range (unsigned (c ∷ cs))

-- `strconv.ParseUint(s, 10, 64)`; `none` is an error.
unfoldable pub parse_uint : Text → Option ℕ
unfolding unsigned digits_from
parse_uint t = elim (unsigned t) [ none ↦ none | some n ↦ if ltb n (2 ^ 64) then some n else none ]

atoi_examples :
    (atoi (text "-17") ≡ some (negsuc 16))
    × (atoi (text "+8") ≡ some (pos 8))
    × (atoi (text "1a") ≡ none)
    × (atoi (text "-") ≡ none)
    × (atoi (text "9223372036854775808") ≡ none)
    × (itoa (negsuc 119) ≡ text "-120")
    × (parse_uint (text "120") ≡ some 120)
    × (parse_uint (text "-1") ≡ none)
unfolding atoi itoa parse_uint
atoi_examples = (refl, refl, refl, refl, refl, refl, refl, refl)
