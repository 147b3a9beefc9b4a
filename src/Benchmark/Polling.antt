-- ===== src/Benchmark/Polling.antt =====
-- benchmark/main.go: the loops of `waitForSamples` and `waitForMetrics`, which ask until the answer
-- is the one that they wait for or a deadline has passed.
use toll_calc.Common.{
  ℕ, zero, suc, ◌+◌, ◌*◌, ◌≤◌, ◌≡◌, refl, ap, Option, none, some, arith, ltb, if◌then◌else◌,
  Bool-cases, inl, inr,
}

-- The world around a loop: its clock, in nanoseconds, and `time.Sleep`.
pub record Clock (W : Type 0) : Type 0 where
  pub now : W → ℕ
  pub sleep : ℕ → W → W

-- A monotonic clock, and a sleep that is at least as long as it should be.
pub record IsClock {W : Type 0} (clock : Clock W) : Type 0 where
  pub sleep_advances : (d : ℕ) (w : W) → clock.now w + d ≤ clock.now (clock.sleep d w)

-- How a loop ends: with an answer, or at its deadline.
pub data Ended (R : Type 0) : Type 0 where
  answered : R → Ended R
  too_late : Ended R

module _ {W R : Type 0} (clock : Clock W) (ask : W → Option R × W) (pause deadline : ℕ) where
  abbrev after_answer : (W → Option (Ended R) × W) → Option R × W → Option (Ended R) × W
  after_answer rest (none, w) = rest (clock.sleep pause w)
  after_answer rest (some r, w) = (some (answered r), w)

  -- `for time.Now().Before(deadline) { ... time.Sleep(pause) }`, for so many rounds at most;
  -- `none` says that the loop is not over after them.
  unfoldable pub poll : ℕ → W → Option (Ended R) × W
  poll zero w = (none, w)
  poll (suc n) w =
      if ltb (clock.now w) deadline then after_answer (poll n) (ask w) else (some too_late, w)

  -- The loop is over: with an answer that was given, or not before the deadline.
  abbrev pub IsOver : Option (Ended R) × W → Type 0
  IsOver (none, w) = ⊥
  IsOver (some (answered r), w) = (w' : W) × (ask w' ≡ (some r, w))
  IsOver (some too_late, w) = deadline ≤ clock.now w

  module _ (laws : IsClock clock)
      -- the clock does not go back while the question is asked
      (forward : (w : W) → clock.now w ≤ clock.now (ask w).1) where
    after_answer-IsOver :
        (n : ℕ) (rest : W → Option (Ended R) × W) (w : W) (out : Option R × W)
        → ((v : W) → deadline ≤ clock.now v + n * pause → IsOver (rest v))
        → ask w ≡ out
        → deadline ≤ clock.now w + suc n * pause
        → IsOver (after_answer rest out)
    after_answer-IsOver n rest w (some r, w') h asked enough = (w, asked)
    after_answer-IsOver n rest w (none, w') h asked enough = h (clock.sleep pause w') (
        omega
          (arith, enough, laws.sleep_advances pause w', forward w, ap (λ o. clock.now o.1) asked))

    -- The time that is left for each pause is a round; one more sees the deadline.
    pub poll-IsOver : (n : ℕ) (w : W) → deadline ≤ clock.now w + n * pause → IsOver (poll (suc n) w)
    unfolding poll
    poll-IsOver zero w enough = elim (Bool-cases (ltb (clock.now w) deadline)) [
      | inl early ↦ absurd (ground (arith, early, enough))
      | inr late ↦ rw late (ground (arith, late))
    ]
    poll-IsOver (suc n) w enough = elim (Bool-cases (ltb (clock.now w) deadline)) [
      | inl early ↦
          rw early (after_answer-IsOver n (poll (suc n)) w (ask w) (poll-IsOver n) refl enough)
      | inr late ↦ rw late (ground (arith, late))
    ]
