-- ===== src/Benchmark/Waiting.antt =====
-- benchmark/main.go: `waitForSamples` and `waitForMetrics`, over a world with a clock in which the
-- metrics page can be fetched.
use toll_calc.Common.{
  ℕ, suc, ◌+◌, ◌*◌, ◌≤◌, ◌≡◌, ap, Option, none, some, ◌⊎◌, inl, inr, arith, leb, nat_eq,
  if◌then◌else◌,
}
use toll_calc.Common.Text.{Text}
use toll_calc.Float.{Float64}
use toll_calc.Aggregator.Http.{status_ok}
use toll_calc.Benchmark.Polling.{
  Clock, IsClock, Ended, answered, too_late, poll, IsOver, poll-IsOver,
}
use toll_calc.Benchmark.Histogram.{Histogram, ScrapeError, Page, scrape_histogram, samples_of}

pub data WaitError : Type 0 where
  not_scraped : ScrapeError → WaitError
  not_drained : WaitError

-- The pauses of 50 and of 100 milliseconds.
abbrev pub drain_pause : ℕ
drain_pause = 50000000

abbrev pub ready_pause : ℕ
ready_pause = 100000000

module _ {F W : Type 0} ⦃f : Float64 F⦄
    -- `strconv.ParseFloat`; `none` is an error
    (parse_float : Text → Option F) (clock : Clock W)
    -- `GET` of the metrics page within the timeout; `none` is an error
    (fetch : W → Option Page × W) where
  abbrev enough : ℕ → ScrapeError ⊎ Histogram F → Option (ScrapeError ⊎ Histogram F)
  enough want (inl e) = some (inl e)
  enough want (inr values) = if leb want (samples_of values) then some (inr values) else none

  abbrev pub ask_samples : ℕ → W → Option (ScrapeError ⊎ Histogram F) × W
  ask_samples want w =
      let (page, w') = fetch w in (enough want (scrape_histogram parse_float page), w')

  abbrev drained :
      Option (Ended (ScrapeError ⊎ Histogram F)) × W → Option (WaitError ⊎ Histogram F) × W
  drained (none, w) = (none, w)
  drained (some (answered (inl e)), w) = (some (inl (not_scraped e)), w)
  drained (some (answered (inr values)), w) = (some (inr values), w)
  drained (some too_late, w) = (some (inl not_drained), w)

  -- `waitForSamples(want, timeout)`, for so many rounds at most.
  unfoldable pub wait_for_samples :
      (rounds want timeout : ℕ) → W → Option (WaitError ⊎ Histogram F) × W
  wait_for_samples rounds want timeout w =
      drained (poll clock (ask_samples want) drain_pause (clock.now w + timeout) rounds w)

  -- It has returned: the samples that were wanted, the error of a reading, or the error of the
  -- deadline, which has passed.
  abbrev pub HasReturned : (want deadline : ℕ) → Option (WaitError ⊎ Histogram F) × W → Type 0
  HasReturned want deadline (none, w) = ⊥
  HasReturned want deadline (some (inr values), w) = want ≤ samples_of values
  HasReturned want deadline (some (inl (not_scraped e)), w) =
      (v : W) × (scrape_histogram parse_float (fetch v).0 ≡ inl e)
  HasReturned want deadline (some (inl not_drained), w) = deadline ≤ clock.now w

  Answers : (want : ℕ) (read answer : ScrapeError ⊎ Histogram F) → Type 0
  Answers want read (inl e) = read ≡ inl e
  Answers want read (inr values) = want ≤ samples_of values

  enough-Answers :
      (want : ℕ) (read answer : ScrapeError ⊎ Histogram F)
      → enough want read ≡ some answer
      → Answers want read answer
  unfolding Answers
  enough-Answers want (inl e) (inl e') h = ground (arith, h)
  enough-Answers want (inl e) (inr values) h = ground (arith, h)
  enough-Answers want (inr read) (inl e) h = ground (arith, h)
  enough-Answers want (inr read) (inr values) h = ground (arith, h)

  drained-HasReturned :
      (want deadline : ℕ) (out : Option (Ended (ScrapeError ⊎ Histogram F)) × W)
      → IsOver clock (ask_samples want) drain_pause deadline out
      → HasReturned want deadline (drained out)
  unfolding Answers
  drained-HasReturned want deadline (none, w) over = over
  drained-HasReturned want deadline (some (answered (inl e)), w) (v, asked) = (
    v,
    enough-Answers want (scrape_histogram parse_float (fetch v).0) (inl e) (ap (λ o. o.0) asked),
  )
  drained-HasReturned want deadline (some (answered (inr values)), w) (v, asked) =
      enough-Answers want (scrape_histogram parse_float (fetch v).0) (inr values)
        (ap (λ o. o.0) asked)
  drained-HasReturned want deadline (some too_late, w) over = over

  -- With a clock that never goes back and a sleep that is as long as it should be, the loop
  -- returns within the rounds that fit the timeout at 50 ms each and one more: with a histogram
  -- that has the wanted samples, with the error of a reading, or with the error of the deadline,
  -- and then the timeout has passed.
  pub wait_for_samples_returns :
      IsClock clock
      → ((w : W) → clock.now w ≤ clock.now (fetch w).1)
      → (n want timeout : ℕ) (w : W) → timeout ≤ n * drain_pause
      → HasReturned want (clock.now w + timeout) (wait_for_samples (suc n) want timeout w)
  unfolding wait_for_samples
  wait_for_samples_returns laws forward n want timeout w fits =
      drained-HasReturned want (clock.now w + timeout) _ (
        poll-IsOver clock (ask_samples want) drain_pause (clock.now w + timeout) laws forward n w
          (omega (arith, fits)))

module _ {W : Type 0} (clock : Clock W)
    -- `GET` of the metrics page: its status; `none` is an error
    (ping : W → Option ℕ × W) where
  abbrev if_ok : Option ℕ → Option (Unit {0})
  if_ok none = none
  if_ok (some status) = if nat_eq status status_ok then some tt else none

  abbrev ask_ready : W → Option (Unit {0}) × W
  ask_ready w = let (status, w') = ping w in (if_ok status, w')

  -- `waitForMetrics(timeout)`, for so many rounds at most.
  unfoldable pub wait_for_metrics : (rounds timeout : ℕ) → W → Option (Ended (Unit {0})) × W
  wait_for_metrics rounds timeout w =
      poll clock ask_ready ready_pause (clock.now w + timeout) rounds w

  -- The loop returns within the rounds that fit the timeout at 100 ms each and one more.
  pub wait_for_metrics_returns :
      IsClock clock
      → ((w : W) → clock.now w ≤ clock.now (ping w).1)
      → (n timeout : ℕ) (w : W) → timeout ≤ n * ready_pause
      → IsOver clock ask_ready ready_pause
          (clock.now w + timeout)
          (wait_for_metrics (suc n) timeout w)
  unfolding wait_for_metrics
  wait_for_metrics_returns laws forward n timeout w fits =
      poll-IsOver clock ask_ready ready_pause (clock.now w + timeout) laws forward n w
        (omega (arith, fits))
