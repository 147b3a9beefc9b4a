-- ===== src/Common/Int.antt =====
-- Go's signed integers as ℤ over the native numbers, with the conversions that wrap around.
use Prim.Native.Nat.{ℕ, suc, ◌+◌, ◌-◌, ◌*◌, ◌^◌, ◌%◌, ◌≤◌}
use mathlib.Core.Path.{◌≡◌}
use mathlib.Core.Bool.{Bool}
use native.Mathlib.Omega.{arith}
use toll_calc.Common.Tests.{ltb, leb, if◌then◌else◌}

-- `negsuc n` is -(n + 1).
pub data ℤ : Type 0 where
  pos : ℕ → ℤ
  negsuc : ℕ → ℤ

abbrev pub pos_part : ℤ → ℕ
pos_part (pos n) = n
pos_part (negsuc n) = 0

abbrev pub neg_part : ℤ → ℕ
neg_part (pos n) = 0
neg_part (negsuc n) = suc n

-- a - b, as an integer.
abbrev pub sub_ℕ : ℕ → ℕ → ℤ
sub_ℕ a b = if leb b a then pos (a - b) else negsuc (b - a - 1)

infixl 65 ◌+ℤ◌ ◌-ℤ◌
infixl 70 ◌*ℤ◌
infix 50 ◌≤ℤ◌
unfoldable pub ◌+ℤ◌ : ℤ → ℤ → ℤ
a +ℤ b = sub_ℕ (pos_part a + pos_part b) (neg_part a + neg_part b)

unfoldable pub ◌-ℤ◌ : ℤ → ℤ → ℤ
a -ℤ b = sub_ℕ (pos_part a + neg_part b) (neg_part a + pos_part b)

unfoldable pub ◌*ℤ◌ : ℤ → ℤ → ℤ
a *ℤ b =
    sub_ℕ (pos_part a * pos_part b + neg_part a * neg_part b)
      (pos_part a * neg_part b + neg_part a * pos_part b)

abbrev pub ◌≤ℤ◌ : ℤ → ℤ → Type 0
a ≤ℤ b = pos_part a + neg_part b ≤ pos_part b + neg_part a

abbrev pub ltb_ℤ : ℤ → ℤ → Bool
ltb_ℤ a b = ltb (pos_part a + neg_part b) (pos_part b + neg_part a)

abbrev pub leb_ℤ : ℤ → ℤ → Bool
leb_ℤ a b = leb (pos_part a + neg_part b) (pos_part b + neg_part a)

-- The bits of an integer at width `w`, and the signed integer that a bit pattern stands for.
abbrev pub to_bits : ℕ → ℤ → ℕ
to_bits w (pos n) = n % 2 ^ w
to_bits w (negsuc n) = 2 ^ w - 1 - n % 2 ^ w

abbrev pub of_bits : ℕ → ℕ → ℤ
of_bits w b = if ltb b (2 ^ (w - 1)) then pos b else negsuc (2 ^ w - 1 - b)

-- `int32(x)`: the low 32 bits, read as a signed integer.
unfoldable pub int32 : ℤ → ℤ
int32 x = of_bits 32 (to_bits 32 x)

-- The conversion is exact for the values of an `int32`.
pub int32_exact : (x : ℤ) → negsuc (2 ^ 31 - 1) ≤ℤ x → x ≤ℤ pos (2 ^ 31 - 1) → int32 x ≡ x
unfolding int32
int32_exact (pos n) l h = ground arith
int32_exact (negsuc n) l h = ground arith

-- Counting up and down by natural numbers.
pub next_up : (a : ℤ) (n : ℕ) → (a +ℤ pos n) +ℤ pos 1 ≡ a +ℤ pos (suc n)
unfolding ◌+ℤ◌
next_up (pos a) n = ground arith
next_up (negsuc a) n = ground arith

pub next_down : (a : ℤ) (n : ℕ) → (a -ℤ pos n) -ℤ pos 1 ≡ a -ℤ pos (suc n)
unfolding ◌-ℤ◌
next_down (pos a) n = ground arith
next_down (negsuc a) n = ground arith

pub up_none : (a : ℤ) → a +ℤ pos 0 ≡ a
unfolding ◌+ℤ◌
up_none (pos a) = ground arith
up_none (negsuc a) = ground arith

pub down_none : (a : ℤ) → a -ℤ pos 0 ≡ a
unfolding ◌-ℤ◌
down_none (pos a) = ground arith
down_none (negsuc a) = ground arith

pub up_and_down : (a : ℤ) (n : ℕ) → (a +ℤ pos n) -ℤ pos n ≡ a
unfolding ◌+ℤ◌ ◌-ℤ◌
up_and_down (pos a) n = ground arith
up_and_down (negsuc a) n = ground arith
