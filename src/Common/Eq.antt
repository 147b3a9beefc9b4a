-- ===== src/Common/Eq.antt =====
-- Decidable equality of map keys as an interface, with the instances that the program uses.
use Prim.Native.Nat.{ℕ}
use mathlib.Core.Path.{◌≡◌, refl}
use mathlib.Core.Logic.{◌↔◌}
use mathlib.Core.Bool.{Bool, true, false, ◌&&◌}
use mathlib.Core.List.{List, [], ◌∷◌}
use native.Mathlib.Omega.{arith}
use toll_calc.Common.Tests.{nat_eq, nat_eq_iff}
use toll_calc.Common.Int.{ℤ, pos, negsuc}

pub record Eq {ℓ} (A : Type ℓ) : Type ℓ where
  pub same : A → A → Bool
  pub same_iff : (x y : A) → (same x y ≡ true) ↔ (x ≡ y)

infix 50 ◌==◌
abbrev pub ◌==◌ {ℓ} : {A : Type ℓ} ⦃e : Eq A⦄ → A → A → Bool
◌==◌ ⦃e⦄ = e.same

pub ==_refl {ℓ} : {A : Type ℓ} ⦃e : Eq A⦄ (a : A) → (a == a) ≡ true
==_refl ⦃e⦄ a = (e.same_iff a a).1 refl

instance abbrev pub ℕ-Eq : Eq ℕ
ℕ-Eq = record { same = nat_eq; same_iff = nat_eq_iff }

abbrev pub int_eq : ℤ → ℤ → Bool
int_eq (pos a) (pos b) = nat_eq a b
int_eq (negsuc a) (negsuc b) = nat_eq a b
int_eq _ _ = false

pub int_eq_iff : (a b : ℤ) → (int_eq a b ≡ true) ↔ (a ≡ b)
int_eq_iff (pos a) (pos b) = (ground arith, ground arith)
int_eq_iff (negsuc a) (negsuc b) = (ground arith, ground arith)
int_eq_iff (pos a) (negsuc b) = (ground arith, ground arith)
int_eq_iff (negsuc a) (pos b) = (ground arith, ground arith)

instance abbrev pub ℤ-Eq : Eq ℤ
ℤ-Eq = record { same = int_eq; same_iff = int_eq_iff }

module _ {ℓ} {A : Type ℓ} ⦃e : Eq A⦄ where
  abbrev pub list_eq : List A → List A → Bool
  list_eq [] [] = true
  list_eq (x ∷ xs) (y ∷ ys) = x == y && list_eq xs ys
  list_eq _ _ = false

  pub list_eq_iff : (xs ys : List A) → (list_eq xs ys ≡ true) ↔ (xs ≡ ys)
  list_eq_iff [] [] = (ground arith, ground arith)
  list_eq_iff [] (y ∷ ys) = (ground arith, ground arith)
  list_eq_iff (x ∷ xs) [] = (ground arith, ground arith)
  list_eq_iff (x ∷ xs) (y ∷ ys) = (
    ground (arith, e.same_iff x y, list_eq_iff xs ys),
    ground (arith, e.same_iff x y, list_eq_iff xs ys),
  )

instance abbrev pub List-Eq {ℓ} : {A : Type ℓ} ⦃e : Eq A⦄ → Eq (List A)
List-Eq = record { same = list_eq; same_iff = list_eq_iff }
