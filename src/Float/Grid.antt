-- ===== src/Float/Grid.antt =====
-- A small number type on which the laws of `IsFloat` hold and the definitions run: whole numbers,
-- with NaN and one infinity.
use toll_calc.Common.{
  ℕ, zero, suc, ◌*◌, ◌/◌, ◌^◌, ◌≡◌, refl, sym, ap, subst, Bool, true, false, arith, leb,
  if◌then◌else◌,
}
use toll_calc.Common.Int.{ℤ, pos, negsuc, ◌+ℤ◌, ◌-ℤ◌, ◌*ℤ◌, ltb_ℤ, leb_ℤ}
use toll_calc.Common.Eq.{int_eq, int_eq_iff}
use toll_calc.Float.{Float64, IsFloat}

pub data Grid : Type 0 where
  nan inf : Grid
  whole : ℤ → Grid

abbrev lift : (ℤ → ℤ → ℤ) → Grid → Grid → Grid
lift f (whole a) (whole b) = whole (f a b)
lift f nan b = nan
lift f a nan = nan
lift f inf b = inf
lift f (whole a) inf = inf

abbrev compare_by : (ℤ → ℤ → Bool) → Grid → Grid → Bool
compare_by f (whole a) (whole b) = f a b
compare_by f (whole a) inf = true
compare_by f _ _ = false

-- The largest number up to `n` whose square is at most `m`.
abbrev root_below : ℕ → ℕ → ℕ
root_below zero m = 0
root_below (suc n) m = let rest = root_below n m in if leb (suc n * suc n) m then suc n else rest

abbrev grid_sqrt : Grid → Grid
grid_sqrt (whole (pos n)) = whole (pos (root_below n n))
grid_sqrt inf = inf
grid_sqrt _ = nan

abbrev grid_is_nan : Grid → Bool
grid_is_nan nan = true
grid_is_nan _ = false

abbrev grid_is_inf : Grid → Bool
grid_is_inf inf = true
grid_is_inf _ = false

abbrev grid_eq : Grid → Grid → Bool
grid_eq (whole a) (whole b) = int_eq a b
grid_eq inf inf = true
grid_eq _ _ = false

abbrev grid_to_int : Grid → ℤ
grid_to_int (whole a) = a
grid_to_int _ = pos 0

abbrev grid_div : Grid → Grid → Grid
grid_div (whole (pos a)) (whole (pos (suc b))) = whole (pos (a / suc b))
grid_div (whole _) inf = whole (pos 0)
grid_div _ _ = nan

abbrev square : ℤ → ℤ
square (pos n) = pos (n * n)
square (negsuc n) = pos (suc n * suc n)

abbrev grid_pow2 : Grid → Grid
grid_pow2 (whole a) = whole (square a)
grid_pow2 x = x

instance abbrev pub Grid-Float64 : Float64 Grid
Grid-Float64 = record {
  nought = whole (pos 0);
  literal = λ n k. whole (pos (n / 10 ^ k));
  of_int = whole;
  add = lift ◌+ℤ◌;
  sub = lift ◌-ℤ◌;
  mul = lift ◌*ℤ◌;
  div = grid_div;
  lt = compare_by ltb_ℤ;
  le = compare_by leb_ℤ;
  is_nan = grid_is_nan;
  is_inf = grid_is_inf;
  sqrt = grid_sqrt;
  pow2 = grid_pow2;
  to_int = grid_to_int;
  ceil = λ x. x;
  round = λ x. x;
  infinity = inf;
  eq = grid_eq;
}

sqrt_nonneg : (x : Grid) → compare_by ltb_ℤ (grid_sqrt x) (whole (pos 0)) ≡ false
sqrt_nonneg nan = refl
sqrt_nonneg inf = refl
sqrt_nonneg (whole (pos n)) = ground arith
sqrt_nonneg (whole (negsuc n)) = refl

square-sub_comm : (a b : ℤ) → square (a -ℤ b) ≡ square (b -ℤ a)
unfolding ◌-ℤ◌
square-sub_comm a b = ground arith

pow2-sub_comm : (x y : Grid) → grid_pow2 (lift ◌-ℤ◌ x y) ≡ grid_pow2 (lift ◌-ℤ◌ y x)
pow2-sub_comm nan nan = refl
pow2-sub_comm nan inf = refl
pow2-sub_comm nan (whole b) = refl
pow2-sub_comm inf nan = refl
pow2-sub_comm inf inf = refl
pow2-sub_comm inf (whole b) = refl
pow2-sub_comm (whole a) nan = refl
pow2-sub_comm (whole a) inf = refl
pow2-sub_comm (whole a) (whole b) = rw (square-sub_comm a b)

grid_eq-same : (x y : Grid) → grid_eq x y ≡ true → x ≡ y
grid_eq-same (whole a) (whole b) h = ap whole ((int_eq_iff a b).0 h)
grid_eq-same inf inf h = refl
grid_eq-same (whole a) nan h = ground (arith, h)
grid_eq-same (whole a) inf h = ground (arith, h)
grid_eq-same inf nan h = ground (arith, h)
grid_eq-same inf (whole b) h = ground (arith, h)
grid_eq-same nan y h = ground (arith, h)

eq_sym : (x y : Grid) → grid_eq x y ≡ true → grid_eq y x ≡ true
eq_sym x y h =
    let same = grid_eq-same x y h in
    subst (λ z. grid_eq y z ≡ true) (sym same) (subst (λ z. grid_eq z y ≡ true) same h)

eq_trans : (x y z : Grid) → grid_eq x y ≡ true → grid_eq y z ≡ true → grid_eq x z ≡ true
eq_trans x y z h k = subst (λ u. grid_eq u z ≡ true) (sym (grid_eq-same x y h)) k

pub Grid-IsFloat : IsFloat Grid
Grid-IsFloat = record {
  sqrt_nonneg = sqrt_nonneg;
  pow2-sub_comm = pow2-sub_comm;
  nought_nonneg = refl;
  nought_finite = refl;
  nought_bounded = refl;
  eq_sym = eq_sym;
  eq_trans = eq_trans;
}
