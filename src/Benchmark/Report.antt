-- ===== src/Benchmark/Report.antt =====
-- benchmark/main.go: `formatReport`, the tables of the results.
use toll_calc.Common.{List, [], ◌∷◌, ◌++◌}
use toll_calc.Common.Int.{pos}
use toll_calc.Common.Text.{Text, text}
use toll_calc.Float.{Float64}
use toll_calc.Benchmark.{Measured}

module _ {F : Type 0} ⦃f : Float64 F⦄
    -- the verb `%.3f`
    (three_decimals : F → Text) where
  -- `float64(d)/float64(time.Millisecond)`
  abbrev milliseconds : Measured → F × F
  milliseconds m = (
    f.div (f.of_int m.p95) (f.of_int (pos 1000000)),
    f.div (f.of_int m.p99) (f.of_int (pos 1000000)),
  )

  abbrev row : Measured → Text
  row m =
      text "| "
      ++ (m.name
          ++ (text " | "
              ++ (three_decimals (milliseconds m).0
                  ++ (text " | " ++ (three_decimals (milliseconds m).1 ++ text " |\n")))))

  unfoldable pub rows : List Measured → Text
  rows [] = []
  rows (m ∷ ms) = row m ++ rows ms

  unfoldable pub format_report : (transports pipeline : List Measured) → Text
  format_report transports pipeline =
      text "| protocol | p95_ms | p99_ms |\n|---|---:|---:|\n"
      ++ (rows transports
          ++ (text "\n| load_eps | p95_ms | p99_ms |\n|---:|---:|---:|\n" ++ rows pipeline))
