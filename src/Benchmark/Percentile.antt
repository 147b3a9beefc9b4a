-- ===== src/Benchmark/Percentile.antt =====
-- benchmark/main.go: `percentile`, the nearest-rank percentile of the latencies.
use toll_calc.Common.{
  subst, ℕ, zero, suc, ◌+◌, ◌≤◌, ◌<◌, ◌≡◌, refl, Bool, true, Option, none, some, List, [], ◌∷◌,
  arith, if◌then◌else◌, Bool-cases, inl, inr,
}
use toll_calc.Common.Int.{ℤ, pos, negsuc, ltb_ℤ, leb_ℤ, ◌-ℤ◌}
use toll_calc.Common.Text.{length}
use toll_calc.Float.{Float64}

-- Into an ascending list.
unfoldable pub place : ℤ → List ℤ → List ℤ
place x [] = x ∷ []
place x (y ∷ ys) = let rest = place x ys in if leb_ℤ x y then x ∷ y ∷ ys else y ∷ rest

-- `sort.Slice` with `<` on the durations: equal durations cannot be told apart.
unfoldable pub sort_durations : List ℤ → List ℤ
sort_durations [] = []
sort_durations (x ∷ xs) = place x (sort_durations xs)

-- `values[i]`; `none` is the panic of an index out of range.
unfoldable pub nth_duration : List ℤ → ℕ → Option ℤ
nth_duration [] i = none
nth_duration (x ∷ xs) zero = some x
nth_duration (x ∷ xs) (suc i) = nth_duration xs i

abbrev pub duration_at : List ℤ → ℤ → Option ℤ
duration_at xs (pos i) = nth_duration xs i
duration_at xs (negsuc i) = none

module _ {F : Type 0} ⦃f : Float64 F⦄ where
  -- `int(math.Ceil(quantile * float64(n)))`
  abbrev pub rank_of : F → ℕ → ℤ
  rank_of quantile n = f.to_int (f.ceil (f.mul quantile (f.of_int (pos n))))

  unfoldable pub percentile : List ℤ → F → Option ℤ
  percentile values quantile =
      duration_at (sort_durations values) (rank_of quantile (length values) -ℤ pos 1)

-- How many values satisfy a test.
abbrev pub count : (ℤ → Bool) → List ℤ → ℕ
count p [] = 0
count p (x ∷ xs) = (if p x then 1 else 0) + count p xs

count-place : (p : ℤ → Bool) (x : ℤ) (ys : List ℤ) → count p (place x ys) ≡ count p (x ∷ ys)
unfolding place
count-place p x [] = refl
count-place p x (y ∷ ys) = elim (Bool-cases (leb_ℤ x y)) [
  | inl small ↦ rw small refl
  | inr large ↦ rw large (omega (arith, count-place p x ys))
]

count-sort_durations : (p : ℤ → Bool) (xs : List ℤ) → count p (sort_durations xs) ≡ count p xs
unfolding sort_durations
count-sort_durations p [] = refl
count-sort_durations p (x ∷ xs) =
    omega (arith, count-place p x (sort_durations xs), count-sort_durations p xs)

length-place : (x : ℤ) (ys : List ℤ) → length (place x ys) ≡ suc (length ys)
unfolding place
length-place x [] = refl
length-place x (y ∷ ys) = elim (Bool-cases (leb_ℤ x y)) [
  | inl small ↦ rw small refl
  | inr large ↦ rw large (omega (arith, length-place x ys))
]

length-sort_durations : (xs : List ℤ) → length (sort_durations xs) ≡ length xs
unfolding sort_durations
length-sort_durations [] = refl
length-sort_durations (x ∷ xs) =
    omega (arith, length-place x (sort_durations xs), length-sort_durations xs)

-- Every value of a list is at least `x`.
abbrev AtLeast : ℤ → List ℤ → Type 0
AtLeast x [] = Unit
AtLeast x (y ∷ ys) = (leb_ℤ x y ≡ true) × AtLeast x ys

abbrev Ascending : List ℤ → Type 0
Ascending [] = Unit
Ascending (x ∷ xs) = AtLeast x xs × Ascending xs

AtLeast-trans : (x y : ℤ) (zs : List ℤ) → leb_ℤ x y ≡ true → AtLeast y zs → AtLeast x zs
AtLeast-trans x y [] h a = tt
AtLeast-trans x y (z ∷ zs) h (b, rest) = (ground (arith, h, b), AtLeast-trans x y zs h rest)

AtLeast-place : (b x : ℤ) (ys : List ℤ) → leb_ℤ b x ≡ true → AtLeast b ys → AtLeast b (place x ys)
unfolding place
AtLeast-place b x [] h a = (h, tt)
AtLeast-place b x (y ∷ ys) h (g, rest) = elim (Bool-cases (leb_ℤ x y)) [
  | inl small ↦ rw small (h, (g, rest))
  | inr large ↦ rw large (g, AtLeast-place b x ys h rest)
]

place-Ascending : (x : ℤ) (ys : List ℤ) → Ascending ys → Ascending (place x ys)
unfolding place
place-Ascending x [] a = (tt, tt)
place-Ascending x (y ∷ ys) (above, a) = elim (Bool-cases (leb_ℤ x y)) [
  | inl small ↦ rw small ((small, AtLeast-trans x y ys small above), (above, a))
  | inr large ↦
      rw large (AtLeast-place y x ys (ground (arith, large)) above, place-Ascending x ys a)
]

sort_durations-Ascending : (xs : List ℤ) → Ascending (sort_durations xs)
unfolding sort_durations
sort_durations-Ascending [] = tt
sort_durations-Ascending (x ∷ xs) =
    place-Ascending x (sort_durations xs) (sort_durations-Ascending xs)

-- The tests by which a value divides the others.
abbrev pub up_to : ℤ → ℤ → Bool
up_to v x = leb_ℤ x v

abbrev pub below : ℤ → ℤ → Bool
below v x = ltb_ℤ x v

none_below : (v : ℤ) (xs : List ℤ) → AtLeast v xs → count (below v) xs ≡ 0
none_below v [] a = refl
none_below v (x ∷ xs) (h, rest) = ground (arith, h, none_below v xs rest)

AtLeast-nth_duration :
    (b v : ℤ) (xs : List ℤ) (i : ℕ) → AtLeast b xs → nth_duration xs i ≡ some v → leb_ℤ b v ≡ true
unfolding nth_duration
AtLeast-nth_duration b v [] i a h = ground (arith, h)
AtLeast-nth_duration b v (x ∷ xs) zero (g, rest) h = ground (arith, g, h)
AtLeast-nth_duration b v (x ∷ xs) (suc i) (g, rest) h = AtLeast-nth_duration b v xs i rest h

-- In an ascending list the value at an index divides the others there.
sorted_rank :
    (xs : List ℤ) (i : ℕ) (v : ℤ)
    → Ascending xs
    → nth_duration xs i ≡ some v
    → (count (below v) xs ≤ i) × (i < count (up_to v) xs)
unfolding nth_duration
sorted_rank [] i v a h = ground (arith, h)
sorted_rank (x ∷ xs) zero v (above, a) h =
    let same : x ≡ v = ground (arith, h) in
    subst (λ u. (count (below u) (x ∷ xs) ≤ 0) × (0 < count (up_to u) (x ∷ xs))) same
      (ground (arith, none_below x xs above), ground arith)
sorted_rank (x ∷ xs) (suc i) v (above, a) h =
    let (few, many) = sorted_rank xs i v a h in
    let small = AtLeast-nth_duration x v xs i above h in
    (ground (arith, few), ground (arith, many, small))

nth_duration-total : (xs : List ℤ) (i : ℕ) → i < length xs → (v : ℤ) × (nth_duration xs i ≡ some v)
unfolding nth_duration
nth_duration-total [] i h = absurd (omega (arith, h))
nth_duration-total (x ∷ xs) zero h = (x, refl)
nth_duration-total (x ∷ xs) (suc i) h = nth_duration-total xs i (omega (arith, h))

suc-sub_one : (k : ℕ) → pos (suc k) -ℤ pos 1 ≡ pos k
unfolding ◌-ℤ◌
suc-sub_one k = ground arith

module _ {F : Type 0} ⦃f : Float64 F⦄ where
  -- If the rank that is computed for a quantile of the latencies is a number k + 1 between 1 and
  -- their number, then `percentile` does not panic, and it returns a value such that at most k
  -- latencies are smaller and more than k are no greater.
  pub percentile_has_rank :
      (values : List ℤ) (quantile : F) (k : ℕ)
      → rank_of quantile (length values) ≡ pos (suc k)
      → k < length values
      → (v : ℤ) × (percentile values quantile ≡ some v)
        × (count (below v) values ≤ k)
        × (k < count (up_to v) values)
  unfolding percentile
  percentile_has_rank values quantile k rank inside =
      let sorted = sort_durations values in
      let (v, at) =
        nth_duration-total sorted k (omega (arith, inside, length-sort_durations values)) in
      let (few, many) = sorted_rank sorted k v (sort_durations-Ascending values) at in
      (
        v,
        rw (rank, suc-sub_one k) at,
        omega (arith, few, count-sort_durations (below v) values),
        omega (arith, many, count-sort_durations (up_to v) values),
      )
