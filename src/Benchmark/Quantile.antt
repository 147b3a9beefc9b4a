-- ===== src/Benchmark/Quantile.antt =====
-- benchmark/main.go: `histogramQuantile`, which interpolates within the first bucket that reaches the
-- rank.
use toll_calc.Common.{Bool, not, ◌&&◌, ◌||◌, List, [], ◌∷◌, if◌then◌else◌}
use toll_calc.Common.Int.{pos}
use toll_calc.Float.{Float64}
use toll_calc.Benchmark.Histogram.{Histogram, count_at, samples_of}

module _ {F : Type 0} ⦃f : Float64 F⦄ where
  -- The order of `sort.Float64s`: NaN first.
  abbrev comes_before : F → F → Bool
  comes_before x y = f.lt x y || f.is_nan x && not (f.is_nan y)

  unfoldable pub place_bound : F → List F → List F
  place_bound x [] = x ∷ []
  place_bound x (y ∷ ys) =
      let rest = place_bound x ys in if comes_before y x then y ∷ rest else x ∷ y ∷ ys

  -- The bounds of a histogram, sorted.
  unfoldable pub sorted_bounds : Histogram F → List F
  sorted_bounds [] = []
  sorted_bounds ((bound, count) ∷ values) = place_bound bound (sorted_bounds values)

  -- The loop over the bounds, with the bound and the count before.
  unfoldable pub quantile_from : Histogram F → (rank previous_bound previous_count : F) → List F → F
  quantile_from values rank previous_bound previous_count [] = f.nought
  quantile_from values rank previous_bound previous_count (bound ∷ bounds) =
      let count = f.of_int (pos (count_at bound values)) in
      let rest = quantile_from values rank bound count bounds in
      if f.le rank count
      then (if f.eq bound f.infinity
          then previous_bound
          else f.add previous_bound (
              f.div (f.mul (f.sub bound previous_bound) (f.sub rank previous_count))
                (f.sub count previous_count)))
      else rest

  unfoldable pub histogram_quantile : Histogram F → F → F
  histogram_quantile values quantile =
      quantile_from values (f.mul quantile (f.of_int (pos (samples_of values)))) f.nought f.nought
        (sorted_bounds values)
