-- ===== src/Float.antt =====
-- Go's `float64`, as the operations of it that the services use. The type and its arithmetic are
-- a parameter; what a proof needs of IEEE 754 and of package `math` is a law of `IsFloat`.
pub mod Grid
use toll_calc.Common.{ℕ, ◌/◌, ◌%◌, ◌≡◌, Bool, true, false}
use toll_calc.Common.Int.{ℤ, pos}

pub record Float64 (F : Type 0) : Type 0 where
  -- the constant 0.0, and the literal n / 10 ^ k
  pub nought : F
  pub literal : ℕ → ℕ → F
  -- `float64(n)`
  pub of_int : ℤ → F
  pub add : F → F → F
  pub sub : F → F → F
  pub mul : F → F → F
  pub div : F → F → F
  pub lt : F → F → Bool
  pub le : F → F → Bool
  -- `math.IsNaN(x)`, `math.IsInf(x, 0)`, `math.Sqrt(x)` and `math.Pow(x, 2)`
  pub is_nan : F → Bool
  pub is_inf : F → Bool
  pub sqrt : F → F
  pub pow2 : F → F
  -- `int(x)`, which a conversion to a duration is too; `math.Ceil(x)`, `math.Round(x)`, `math.Inf(1)`
  pub to_int : F → ℤ
  pub ceil : F → F
  pub round : F → F
  pub infinity : F
  -- `x == y`, by which the keys of a map are found
  pub eq : F → F → Bool

-- `d.Seconds()`, for a duration that is not negative.
abbrev pub seconds_of : {F : Type 0} ⦃f : Float64 F⦄ → ℕ → F
seconds_of ⦃f⦄ d =
    f.add (f.of_int (pos (d / 1000000000)))
      (f.div (f.of_int (pos (d % 1000000000))) (f.of_int (pos 1000000000)))

pub record IsFloat (F : Type 0) ⦃f : Float64 F⦄ : Type 0 where
  -- A square root is never below zero: it is NaN, or +-0, or positive.
  pub sqrt_nonneg : (x : F) → f.lt (f.sqrt x) f.nought ≡ false
  -- x - y and y - x differ in sign alone, and an even power drops the sign.
  pub pow2-sub_comm : (x y : F) → f.pow2 (f.sub x y) ≡ f.pow2 (f.sub y x)
  pub nought_nonneg : f.lt f.nought f.nought ≡ false
  pub nought_finite : f.is_nan f.nought ≡ false
  pub nought_bounded : f.is_inf f.nought ≡ false
  -- Equality is symmetric and transitive; it is not reflexive, because of NaN.
  pub eq_sym : (x y : F) → f.eq x y ≡ true → f.eq y x ≡ true
  pub eq_trans : (x y z : F) → f.eq x y ≡ true → f.eq y z ≡ true → f.eq x z ≡ true
