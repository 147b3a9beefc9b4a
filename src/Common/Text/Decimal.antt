-- ===== src/Common/Text/Decimal.antt =====
-- Printing a number and reading it again.
use toll_calc.Common.{
  ℕ, zero, suc, ◌+◌, ◌-◌, ◌*◌, ◌/◌, ◌%◌, ◌^◌, ◌<◌, ◌≡◌, refl, ap, ◌∙◌, true, false, Option, none,
  some, [], ◌∷◌, ◌++◌, arith, ltb, Bool-cases, inl, inr,
}
use toll_calc.Common.Int.{ℤ, pos, negsuc, ◌≤ℤ◌}
use toll_calc.Common.Text.{
  Text, is_empty, is_digit, decimal_fuel, decimal, itoa, digits_from, unsigned, atoi,
}

abbrev then_digits : Option ℕ → Text → Option ℕ
then_digits none ys = none
then_digits (some a) ys = digits_from a ys

digits_from-append :
    (acc : ℕ) (xs ys : Text) → digits_from acc (xs ++ ys) ≡ then_digits (digits_from acc xs) ys
unfolding digits_from
digits_from-append acc [] ys = refl
digits_from-append acc (x ∷ xs) ys =
    ground (arith, digits_from-append (acc * 10 + (x - b'0')) xs ys)

digits_from-decimal_fuel : (f n : ℕ) → n < f → digits_from 0 (decimal_fuel f n) ≡ some n
unfolding decimal_fuel digits_from
digits_from-decimal_fuel zero n h = elim h [ ]
digits_from-decimal_fuel (suc f) n h = elim (Bool-cases (ltb n 10)) [
  | inl small ↦ ground arith
  | inr large ↦
      rw (large, digits_from-append 0 (decimal_fuel f (n / 10)) ((n % 10 + b'0') ∷ []))
        (rw (digits_from-decimal_fuel f (n / 10) (ground arith)) (ground arith))
]

digits_from-decimal : (n : ℕ) → digits_from 0 (decimal n) ≡ some n
unfolding decimal
digits_from-decimal n = digits_from-decimal_fuel (suc n) n (omega arith)

-- Different numbers have different decimals.
pub decimal-injective : (m n : ℕ) → decimal m ≡ decimal n → m ≡ n
decimal-injective m n e = cc (digits_from-decimal m, digits_from-decimal n, ap (digits_from 0) e)

-- A decimal begins with a digit.
abbrev StartsWithDigit : Text → Type 0
StartsWithDigit [] = ⊥
StartsWithDigit (c ∷ cs) = is_digit c ≡ true

append-StartsWithDigit : (xs ys : Text) → StartsWithDigit xs → StartsWithDigit (xs ++ ys)
append-StartsWithDigit [] ys h = absurd h
append-StartsWithDigit (x ∷ xs) ys h = h

decimal_fuel-StartsWithDigit : (f n : ℕ) → n < f → StartsWithDigit (decimal_fuel f n)
unfolding decimal_fuel
decimal_fuel-StartsWithDigit zero n h = elim h [ ]
decimal_fuel-StartsWithDigit (suc f) n h = elim (Bool-cases (ltb n 10)) [
  | inl small ↦ rw small (ground arith)
  | inr large ↦ rw large (
      append-StartsWithDigit (decimal_fuel f (n / 10)) _
        (decimal_fuel-StartsWithDigit f (n / 10) (ground arith)))
]

unsigned_lem : (xs : Text) → StartsWithDigit xs → unsigned xs ≡ digits_from 0 xs
unfolding unsigned
unsigned_lem [] h = absurd h
unsigned_lem (x ∷ xs) h = refl

unsigned-decimal : (n : ℕ) → unsigned (decimal n) ≡ some n
unfolding decimal
unsigned-decimal n =
    unsigned_lem (decimal n) (decimal_fuel-StartsWithDigit (suc n) n (omega arith))
    ∙ digits_from-decimal n

atoi-unsigned :
    (n : ℕ) (xs : Text)
    → StartsWithDigit xs
    → unsigned xs ≡ some n
    → n < 2 ^ 63
    → atoi xs ≡ some (pos n)
unfolding atoi
atoi-unsigned n [] s e h = absurd s
atoi-unsigned n (x ∷ xs) s e h = ground arith

-- What `%d` prints for a 64-bit integer, `strconv.Atoi` reads back.
pub atoi-itoa : (i : ℤ) → negsuc (2 ^ 63 - 1) ≤ℤ i → i ≤ℤ pos (2 ^ 63 - 1) → atoi (itoa i) ≡ some i
unfolding itoa atoi
atoi-itoa (pos n) l h =
    atoi-unsigned n (decimal n) (decimal_fuel-StartsWithDigit (suc n) n (omega arith))
      (unsigned-decimal n) (omega arith)
atoi-itoa (negsuc n) l h = rw (unsigned-decimal (suc n)) (ground arith)

decimal-ne-empty : (xs : Text) → StartsWithDigit xs → is_empty xs ≡ false
decimal-ne-empty [] h = absurd h
decimal-ne-empty (x ∷ xs) h = refl

pub itoa-ne-empty : (i : ℤ) → is_empty (itoa i) ≡ false
unfolding itoa
itoa-ne-empty (pos n) =
    decimal-ne-empty (decimal n) (decimal_fuel-StartsWithDigit (suc n) n (omega arith))
itoa-ne-empty (negsuc n) = refl
