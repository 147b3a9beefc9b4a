-- ===== src/Common/Xor.antt =====
-- Go's `^` on unsigned words: the native exclusive or, and the laws that folds over it need.
use Prim.Native.Nat.{bit_xor, bit_xor-bitwise, digits, differ}
use native.Mathlib.Nat.{pow-suc}
use toll_calc.Common.{
  ℕ, zero, suc, ◌+◌, ◌*◌, ◌/◌, ◌%◌, ◌≤◌, ◌<◌, ◌^◌, ◌≡◌, refl, arith, inl, inr, nat_eq, Bool-cases,
}

-- The digit recursion behind the native operation does not depend on spare fuel.
xor_digits_enough :
    (f g a b : ℕ) → a ≤ f → a ≤ g → digits (λ y. y) differ f a b ≡ digits (λ y. y) differ g a b
xor_digits_enough zero zero a b p q = refl
xor_digits_enough zero (suc g) zero b p q = refl
xor_digits_enough zero (suc g) (suc a) b p q = elim p [ ]
xor_digits_enough (suc f) zero zero b p q = refl
xor_digits_enough (suc f) zero (suc a) b p q = elim q [ ]
xor_digits_enough (suc f) (suc g) zero b p q = refl
xor_digits_enough (suc f) (suc g) (suc a) b p q =
    rw (xor_digits_enough f g (suc a / 2) (b / 2) (omega arith) (omega arith))

differ_digit : (x y : ℕ) → x < 2 → y < 2 → differ x y ≡ (x + y) % 2
differ_digit zero y p q = omega arith
differ_digit (suc zero) zero p q = refl
differ_digit (suc zero) (suc zero) p q = refl
differ_digit (suc zero) (suc (suc y)) p q = absurd (omega arith)
differ_digit (suc (suc x)) y p q = absurd (omega arith)

bit_xor_digit : (a b : ℕ) → bit_xor a b ≡ bit_xor (a / 2) (b / 2) * 2 + (a % 2 + b % 2) % 2
bit_xor_digit zero b = omega (arith, bit_xor-bitwise 0 b, bit_xor-bitwise 0 (b / 2))
bit_xor_digit (suc a) b = omega (
  arith,
  bit_xor-bitwise (suc a) b,
  bit_xor-bitwise (suc a / 2) (b / 2),
  xor_digits_enough a (suc a / 2) (suc a / 2) (b / 2) (omega arith) (omega arith),
  differ_digit (suc a % 2) (b % 2) (omega arith) (omega arith),
)

bit_xor_half : (x a : ℕ) → bit_xor x a / 2 ≡ bit_xor (x / 2) (a / 2)
bit_xor_half x a = omega (arith, bit_xor_digit x a)

bit_xor_low : (x a : ℕ) → bit_xor x a % 2 ≡ (x % 2 + a % 2) % 2
bit_xor_low x a = omega (arith, bit_xor_digit x a)

bit_xor_twice :
    (x a b : ℕ)
    → bit_xor (bit_xor x a) b
      ≡ bit_xor (bit_xor (x / 2) (a / 2)) (b / 2) * 2 + ((x % 2 + a % 2) % 2 + b % 2) % 2
bit_xor_twice x a b = rw (bit_xor_digit (bit_xor x a) b, bit_xor_half x a, bit_xor_low x a)

swap_within_zero : (x a b : ℕ) → x + a + b ≡ 0 → bit_xor (bit_xor x a) b ≡ bit_xor (bit_xor x b) a
swap_within_zero zero zero zero h = refl
swap_within_zero zero zero (suc b) h = absurd (omega arith)
swap_within_zero zero (suc a) b h = absurd (omega arith)
swap_within_zero (suc x) a b h = absurd (omega arith)

swap_within : (n x a b : ℕ) → x + a + b ≤ n → bit_xor (bit_xor x a) b ≡ bit_xor (bit_xor x b) a
swap_within zero x a b h = swap_within_zero x a b (omega arith)
swap_within (suc n) x a b h = elim (Bool-cases (nat_eq (x + a + b) 0)) [
  | inl nil ↦ swap_within_zero x a b (ground arith)
  | inr more ↦ omega (
    arith,
    bit_xor_twice x a b,
    bit_xor_twice x b a,
    swap_within n (x / 2) (a / 2) (b / 2) (ground arith),
  )
]

pub bit_xor_swap : (x a b : ℕ) → bit_xor (bit_xor x a) b ≡ bit_xor (bit_xor x b) a
bit_xor_swap x a b = swap_within (x + a + b) x a b (omega arith)

-- Words stay words: the result has no more bits than the operands.
pub bit_xor-lt : (w a b : ℕ) → a < 2 ^ w → b < 2 ^ w → bit_xor a b < 2 ^ w
bit_xor-lt zero zero zero p q = omega arith
bit_xor-lt zero zero (suc b) p q = absurd (omega arith)
bit_xor-lt zero (suc a) b p q = absurd (omega arith)
bit_xor-lt (suc w) a b p q = omega (
  arith,
  pow-suc 2 w,
  bit_xor_digit a b,
  bit_xor-lt w (a / 2) (b / 2) (omega (arith, pow-suc 2 w)) (omega (arith, pow-suc 2 w)),
)
