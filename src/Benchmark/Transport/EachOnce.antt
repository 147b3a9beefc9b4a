-- ===== src/Benchmark/Transport/EachOnce.antt =====
-- Every request of `benchmarkTransport` is sent exactly once, in whatever order its workers run.
use toll_calc.Common.{
  ℕ, zero, suc, ◌+◌, ◌≤◌, ◌<◌, ◌≡◌, refl, subst, Bool, true, false, List, [], ◌∷◌, arith, ltb,
  if◌then◌else◌,
}
use toll_calc.Common.Text.{length}
use toll_calc.Benchmark.Transport.{
  Worker, waiting, returned, sending, Requests, WorkerAction, zeros, run_requests, before_requests,
  idle_workers,
}
use toll_calc.Benchmark.Transport.Sharing.{times, held, AllClosedBy, run-IsShared}

abbrev pub all_returned : List Worker → Bool
all_returned [] = true
all_returned (returned ∷ ws) = all_returned ws
all_returned (_ ∷ ws) = false

held-returned : (i : ℕ) (ws : List Worker) → all_returned ws ≡ true → held i ws ≡ 0
held-returned i [] h = refl
held-returned i (returned ∷ ws) h = omega (arith, held-returned i ws h)
held-returned i (waiting ∷ ws) h = ground (arith, h)
held-returned i (sending j ∷ ws) h = ground (arith, h)

returned-next :
    (requests next : ℕ) (ws : List Worker)
    → 0 < length ws
    → all_returned ws ≡ true
    → AllClosedBy requests next ws
    → requests ≤ next
returned-next requests next [] some_worker h c = absurd (omega (arith, some_worker))
returned-next requests next (returned ∷ ws) some_worker h (c, rest) = c
returned-next requests next (waiting ∷ ws) some_worker h c = ground (arith, h)
returned-next requests next (sending j ∷ ws) some_worker h c = ground (arith, h)

length-idle_workers : (k : ℕ) → length (idle_workers k) ≡ k
unfolding idle_workers
length-idle_workers zero = refl
length-idle_workers (suc k) = omega (arith, length-idle_workers k)

idle_workers-AllClosedBy : (requests next k : ℕ) → AllClosedBy requests next (idle_workers k)
unfolding idle_workers
idle_workers-AllClosedBy requests next zero = tt
idle_workers-AllClosedBy requests next (suc k) = (tt, idle_workers-AllClosedBy requests next k)

held-idle_workers : (i k : ℕ) → held i (idle_workers k) ≡ 0
unfolding idle_workers
held-idle_workers i zero = refl
held-idle_workers i (suc k) = omega (arith, held-idle_workers i k)

length-zeros : (n : ℕ) → length (zeros n) ≡ n
unfolding zeros
length-zeros zero = refl
length-zeros (suc n) = omega (arith, length-zeros n)

-- The workers and what they share after a run of so many requests by so many workers.
abbrev pub after_requests :
    (requests concurrency : ℕ) → List (ℕ × WorkerAction) → List Worker × Requests
after_requests requests concurrency actions =
    run_requests requests actions (idle_workers concurrency) (before_requests requests)

-- However the actions of at least one worker are interleaved: when every worker has returned,
-- each number below that of the requests was sent and answered exactly once and no other one
-- was, and there is a latency for each request.
pub requests_sent_once :
    (requests concurrency : ℕ) (actions : List (ℕ × WorkerAction)) (i : ℕ)
    → 0 < concurrency
    → all_returned (after_requests requests concurrency actions).0 ≡ true
    → let s = (after_requests requests concurrency actions).1 in
      (times i s.answered ≡ (if ltb i requests then 1 else 0)) × (length s.latencies ≡ requests)
requests_sent_once requests concurrency actions i positive done =
    let (ws, s) = after_requests requests concurrency actions in
    let (t, c, len) =
      run-IsShared requests actions (idle_workers concurrency) (before_requests requests)
        (idle_workers-AllClosedBy requests 0 concurrency)
        (record {
          handed = λ j. ground (arith, held-idle_workers j concurrency);
          within = omega arith;
          sized = length-zeros requests;
        }) in
    let some_worker : 0 < length ws =
      omega (arith, len, length-idle_workers concurrency, positive) in
    let all_out : s.next ≡ requests =
      omega (arith, t.within, returned-next requests s.next ws some_worker done c) in
    let counted : held i ws + times i s.answered ≡ (if ltb i requests then 1 else 0) =
      subst (λ n. held i ws + times i s.answered ≡ (if ltb i n then 1 else 0)) all_out
        (t.handed i) in
    (omega (arith, counted, held-returned i ws done), t.sized)
