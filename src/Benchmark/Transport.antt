-- ===== src/Benchmark/Transport.antt =====
-- benchmark/main.go: `benchmarkTransport`. Its workers run concurrently; a run is a sequence of their
-- actions in some order, where an action is a worker's next part up to a call of the network.
pub mod Sharing
pub mod EachOnce
use toll_calc.Common.{
  ℕ, zero, suc, ◌+◌, Bool, true, false, Option, none, some, List, [], ◌∷◌, ◌++◌, ltb, if◌then◌else◌,
}
use toll_calc.Common.Int.{ℤ, pos}
use toll_calc.Common.Text.{Text, text, itoa}
use toll_calc.Float.{Float64}
use toll_calc.Benchmark.{Measured}
use toll_calc.Benchmark.Percentile.{percentile}

-- A worker that waits for a job, one that sends a request, and one that has returned.
pub data Worker : Type 0 where
  waiting returned : Worker
  sending : ℕ → Worker

-- What the workers share: the next job, the latencies, and the number of errors in their channel;
-- `answered` are the requests whose sending has returned, newest first.
pub record Requests : Type 0 where
  pub next : ℕ
  pub latencies : List ℤ
  pub errors : ℕ
  pub answered : List ℕ

pub data WorkerAction : Type 0 where
  receive see_closed : WorkerAction
  -- the request returns, with or without an error, after some time
  answer : Bool → ℤ → WorkerAction

-- `latencies[i] = elapsed`
unfoldable pub set_latency : ℕ → ℤ → List ℤ → List ℤ
set_latency i elapsed [] = []
set_latency zero elapsed (x ∷ xs) = elapsed ∷ xs
set_latency (suc i) elapsed (x ∷ xs) = x ∷ set_latency i elapsed xs

-- `make([]time.Duration, n)`
unfoldable pub zeros : ℕ → List ℤ
zeros zero = []
zeros (suc n) = pos 0 ∷ zeros n

-- `fmt.Sprintf("bench-%s-%s-%d", name, runID, i)`, and "warm" for a request of the warm-up
abbrev pub request_id : (kind name : Text) → ℤ → ℕ → Text
request_id kind name run_id i =
    kind ++ (text "-" ++ (name ++ (text "-" ++ (itoa run_id ++ (text "-" ++ itoa (pos i))))))

module _ {W : Type 0} (send : Text → W → Bool × W) where
  abbrev warm_on : (W → Bool × W) → Bool × W → Bool × W
  warm_on rest (true, w) = rest w
  warm_on rest (false, w) = (false, w)

  -- The requests of the warm-up from `i` on, up to the first error; `true` is a nil error.
  unfoldable pub warm_up_requests : Text → ℤ → (left i : ℕ) → W → Bool × W
  warm_up_requests name run_id zero i w = (true, w)
  warm_up_requests name run_id (suc left) i w =
      warm_on (warm_up_requests name run_id left (suc i))
        (send (request_id (text "warm") name run_id i) w)

module _ (requests : ℕ) where
  -- The channel of the jobs hands out 0, 1 and so on, and is closed after the last one. An action
  -- that a worker cannot take does not happen.
  abbrev pub work_in : Worker → WorkerAction → Requests → Worker × Requests
  work_in waiting receive s =
      if ltb s.next requests then (sending s.next, record s { next = s.next + 1 }) else (waiting, s)
  work_in waiting see_closed s = if ltb s.next requests then (waiting, s) else (returned, s)
  work_in (sending i) (answer ok elapsed) s = (
    waiting,
    record s {
      latencies = set_latency i elapsed s.latencies;
      errors = if ok then s.errors else s.errors + 1;
      answered = i ∷ s.answered;
    },
  )
  work_in w _ s = (w, s)

  abbrev pub work_at : ℕ → WorkerAction → List Worker → Requests → List Worker × Requests
  work_at k a [] s = ([], s)
  work_at zero a (w ∷ ws) s = let (w', s') = work_in w a s in (w' ∷ ws, s')
  work_at (suc k) a (w ∷ ws) s = let (ws', s') = work_at k a ws s in (w ∷ ws', s')

  unfoldable pub run_requests :
      List (ℕ × WorkerAction) → List Worker → Requests → List Worker × Requests
  run_requests [] ws s = (ws, s)
  run_requests ((k, a) ∷ actions) ws s =
      let (ws', s') = work_at k a ws s in run_requests actions ws' s'

abbrev pub before_requests : ℕ → Requests
before_requests requests = record {
  next = 0;
  latencies = zeros requests;
  errors = 0;
  answered = [];
}

unfoldable pub idle_workers : ℕ → List Worker
idle_workers zero = []
idle_workers (suc k) = waiting ∷ idle_workers k

abbrev both : Text → Option ℤ → Option ℤ → Option Measured
both name (some p95) (some p99) = some (record { name = name; p95 = p95; p99 = p99 })
both name _ _ = none

-- What is returned when every worker has: the error of a request, or the percentiles of the
-- latencies; `none` is an error or a panic.
unfoldable pub transport_result : (F : Type 0) ⦃f : Float64 F⦄ → Text → Requests → Option Measured
transport_result F ⦃f⦄ name s =
    if ltb 0 s.errors
    then none
    else both name (percentile s.latencies (f.literal 95 2))
        (percentile s.latencies (f.literal 99 2))
