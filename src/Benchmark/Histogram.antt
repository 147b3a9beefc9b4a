-- ===== src/Benchmark/Histogram.antt =====
-- benchmark/main.go: the histogram of the pipeline's latencies: how it is read from the metrics page,
-- and the difference of two readings.
use toll_calc.Common.{
  ℕ, ◌+◌, ◌-◌, ◌≤◌, ◌<◌, ◌≡◌, refl, sym, ◌∙◌, ap, subst, Bool, true, false, Option, none, some,
  get_or, ◌⊎◌, inl, inr, List, [], ◌∷◌, arith, ltb, if◌then◌else◌, Bool-cases, Option-cases,
}
use toll_calc.Common.Text.{Text, text, parse_uint}
use toll_calc.Common.Strings.{after_prefix, before_byte, fields}
use toll_calc.Float.{Float64, IsFloat}

-- `map[float64]uint64`: a count for each upper bound.
abbrev pub Histogram : Type 0 → Type 0
Histogram F = List (F × ℕ)

pub data ScrapeError : Type 0 where
  not_fetched invalid_histogram not_found not_read : ScrapeError

-- The body of the metrics page, in lines, and whether it was read to its end.
pub record Page : Type 0 where
  pub lines : List Text
  pub complete : Bool

abbrev pub bucket_prefix : Text
bucket_prefix = text "tollify_pipeline_event_duration_seconds_bucket{le=\""

module _ {F : Type 0} ⦃f : Float64 F⦄ where
  -- `count, ok := m[bound]`, and `m[bound]`, which is zero for a bound that is not there
  unfoldable pub find_count : F → Histogram F → Option ℕ
  find_count bound [] = none
  find_count bound ((b, c) ∷ m) = if f.eq b bound then some c else find_count bound m

  abbrev pub count_at : F → Histogram F → ℕ
  count_at bound m = get_or (find_count bound m) 0

  -- `m[bound] = count`
  unfoldable pub set_count : F → ℕ → Histogram F → Histogram F
  set_count bound count [] = (bound, count) ∷ []
  set_count bound count ((b, c) ∷ m) =
      let rest = set_count bound count m in if f.eq b bound then (b, count) ∷ m else (b, c) ∷ rest

  module _
      -- `strconv.ParseFloat`; `none` is an error
      (parse_float : Text → Option F) where
    abbrev set_parsed : Option F → Option ℕ → Histogram F → Option (Histogram F)
    set_parsed (some bound) (some count) m = some (set_count bound count m)
    set_parsed _ _ m = none

    abbrev scan_fields : Option Text → List Text → Histogram F → Option (Histogram F)
    scan_fields (some bound) (name ∷ count ∷ []) m =
        set_parsed (parse_float bound) (parse_uint count) m
    scan_fields _ _ m = some m

    abbrev scan_bucket : Option Text → Text → Histogram F → Option (Histogram F)
    scan_bucket none line m = some m
    scan_bucket (some rest) line m = scan_fields (before_byte b'"' rest) (fields line) m

    -- One line of the page; `none` is the error of an invalid histogram.
    unfoldable pub scan_line : Text → Histogram F → Option (Histogram F)
    scan_line line m = scan_bucket (after_prefix bucket_prefix line) line m

    abbrev scan_on :
        (Histogram F → Option (Histogram F)) → Option (Histogram F) → Option (Histogram F)
    scan_on rest none = none
    scan_on rest (some m) = rest m

    unfoldable pub scan_lines : List Text → Histogram F → Option (Histogram F)
    scan_lines [] m = some m
    scan_lines (line ∷ lines) m = scan_on (scan_lines lines) (scan_line line m)

    abbrev scanned : Bool → Option (Histogram F) → ScrapeError ⊎ Histogram F
    scanned complete none = inl invalid_histogram
    scanned complete (some []) = inl not_found
    scanned false (some (entry ∷ m)) = inl not_read
    scanned true (some (entry ∷ m)) = inr (entry ∷ m)

    -- `scrapeHistogram`, from the page that was fetched, if it was.
    unfoldable pub scrape_histogram : Option Page → ScrapeError ⊎ Histogram F
    scrape_histogram none = inl not_fetched
    scrape_histogram (some page) = scanned page.complete (scan_lines page.lines [])

  abbrev add_delta : F → ℕ → Option (Histogram F) → Option (Histogram F)
  add_delta bound count none = none
  add_delta bound count (some delta) = some ((bound, count) ∷ delta)

  -- Each bound of `after` comes once, so its assignment to `delta` adds an entry. `none` is the
  -- error of a histogram that was reset.
  unfoldable pub subtract_histogram : (after before : Histogram F) → Option (Histogram F)
  subtract_histogram [] before = some []
  subtract_histogram ((bound, count) ∷ after) before =
      let rest = subtract_histogram after before in
      if ltb count (count_at bound before)
      then none
      else add_delta bound (count - count_at bound before) rest

  -- The count of the last bucket, which holds every sample.
  abbrev pub samples_of : Histogram F → ℕ
  samples_of m = count_at f.infinity m

abbrev pub raised_by : ℕ → Option ℕ → Option ℕ
raised_by n none = none
raised_by n (some c) = some (n + c)

grown : (n c : ℕ) (d : Option ℕ) → some c ≡ raised_by n d → ¬ (c < n)
grown n c none h lost = ground (arith, h)
grown n c (some d) h lost = ground (arith, h, lost)

module _ {F : Type 0} ⦃f : Float64 F⦄ (laws : IsFloat F) where
  -- Equal bounds have the same count.
  find_count-eq :
      (b bound : F) (m : Histogram F) → f.eq b bound ≡ true → find_count b m ≡ find_count bound m
  unfolding find_count
  find_count-eq b bound [] same = refl
  find_count-eq b bound ((j, c) ∷ m) same = ground (
    arith,
    same,
    find_count-eq b bound m same,
    laws.eq_trans j b bound,
    laws.eq_trans j bound b,
    laws.eq_sym b bound same,
  )

  abbrev Restored : Histogram F → Histogram F → F → Option (Histogram F) → Type 0
  Restored after before bound none = Unit
  Restored after before bound (some delta) =
      find_count bound after ≡ raised_by (count_at bound before) (find_count bound delta)

  add_delta-Restored :
      (b bound : F) (c : ℕ) (after before : Histogram F) (rest : Option (Histogram F))
      → count_at b before ≤ c
      → Restored after before bound rest
      → Restored ((b, c) ∷ after) before bound (add_delta b (c - count_at b before) rest)
  unfolding find_count
  add_delta-Restored b bound c after before none grown r = tt
  add_delta-Restored b bound c after before (some delta) grown r =
      elim (Bool-cases (f.eq b bound)) [
        | inl same ↦
            let known : count_at b before ≡ count_at bound before =
              ap (λ o. get_or o 0) (find_count-eq b bound before same) in
            let total : c ≡ count_at bound before + (c - count_at b before) =
              omega (arith, known, grown) in
            rw same (ap some total)
        | inr other ↦ rw other r
      ]

  subtract-Restored :
      (bound : F) (after before : Histogram F)
      → Restored after before bound (subtract_histogram after before)
  unfolding subtract_histogram find_count
  subtract-Restored bound [] before = refl
  subtract-Restored bound ((b, c) ∷ after) before = elim (Bool-cases (ltb c (count_at b before))) [
    | inl reset ↦ rw reset tt
    | inr kept ↦ rw kept (
        add_delta-Restored b bound c after before (subtract_histogram after before)
          (ground (arith, kept)) (subtract-Restored bound after before))
  ]

  -- With IEEE 754's equality of bounds: where the difference of two histograms is taken, the
  -- earlier count of a bound, or zero, and its difference make its later count, and the
  -- difference has the bounds of the later histogram and no others.
  pub subtract_histogram-restores :
      (after before delta : Histogram F) (bound : F)
      → subtract_histogram after before ≡ some delta
      → find_count bound after ≡ raised_by (count_at bound before) (find_count bound delta)
  subtract_histogram-restores after before delta bound h =
      subst (Restored after before bound) h (subtract-Restored bound after before)

  -- A bucket that has lost samples since the earlier reading is an error.
  pub subtract_histogram-detects_reset :
      (after before : Histogram F) (bound : F) (c : ℕ)
      → find_count bound after ≡ some c
      → c < count_at bound before
      → subtract_histogram after before ≡ none
  subtract_histogram-detects_reset after before bound c h lost =
      elim (Option-cases (subtract_histogram after before)) [
        | inl refused ↦ refused
        | inr (delta, taken) ↦
            let kept = subtract_histogram-restores after before delta bound taken in
            absurd (grown (count_at bound before) c (find_count bound delta) (sym h ∙ kept) lost)
      ]
