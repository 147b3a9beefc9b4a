-- ===== src/Benchmark/Transport/Sharing.antt =====
-- What the workers of `benchmarkTransport` share: each job that was handed out is sent by one of them
-- or answered.
use toll_calc.Common.{
  ℕ, zero, suc, ◌+◌, ◌≤◌, ◌≡◌, refl, ◌∙◌, List, [], ◌∷◌, arith, ltb, nat_eq, if◌then◌else◌,
  Bool-cases, inl, inr,
}
use toll_calc.Common.Int.{ℤ}
use toll_calc.Common.Text.{length}
use toll_calc.Benchmark.Transport.{
  Worker, waiting, returned, sending, Requests, WorkerAction, receive, see_closed, answer,
  set_latency, work_in, work_at, run_requests,
}

-- How often a request was answered, and how many workers are sending it.
abbrev pub times : ℕ → List ℕ → ℕ
times i [] = 0
times i (j ∷ js) = (if nat_eq i j then 1 else 0) + times i js

abbrev pub carries : ℕ → Worker → ℕ
carries i (sending j) = if nat_eq i j then 1 else 0
carries i _ = 0

abbrev pub held : ℕ → List Worker → ℕ
held i [] = 0
held i (w ∷ ws) = carries i w + held i ws

-- A worker only returns when every job has been handed out.
abbrev pub ClosedBy : (requests next : ℕ) → Worker → Type 0
ClosedBy requests next returned = requests ≤ next
ClosedBy requests next _ = Unit

abbrev pub AllClosedBy : (requests next : ℕ) → List Worker → Type 0
AllClosedBy requests next [] = Unit
AllClosedBy requests next (w ∷ ws) = ClosedBy requests next w × AllClosedBy requests next ws

-- `h` counts the workers that send a request: each that was handed out is being sent or answered.
pub record IsShared (requests : ℕ) (h : ℕ → ℕ) (s : Requests) : Type 0 where
  pub handed : (i : ℕ) → h i + times i s.answered ≡ (if ltb i s.next then 1 else 0)
  pub within : s.next ≤ requests
  pub sized : length s.latencies ≡ requests

IsShared-along :
    {requests : ℕ} {h h' : ℕ → ℕ} {s : Requests}
    → ((i : ℕ) → h i ≡ h' i)
    → IsShared requests h s
    → IsShared requests h' s
IsShared-along p t = record {
  handed = λ i. omega (arith, p i, t.handed i);
  within = t.within;
  sized = t.sized;
}

length-set_latency : (i : ℕ) (d : ℤ) (xs : List ℤ) → length (set_latency i d xs) ≡ length xs
unfolding set_latency
length-set_latency i d [] = refl
length-set_latency zero d (x ∷ xs) = refl
length-set_latency (suc i) d (x ∷ xs) = omega (arith, length-set_latency i d xs)

module _ (requests : ℕ) where
  work_in-IsShared :
      (w : Worker) (a : WorkerAction) (s : Requests) (r : ℕ → ℕ)
      → ClosedBy requests s.next w
      → IsShared requests (λ i. carries i w + r i) s
      → let (w', s') = work_in requests w a s in
        IsShared requests (λ i. carries i w' + r i) s'
        × ClosedBy requests s'.next w'
        × (s.next ≤ s'.next)
  work_in-IsShared waiting receive s r c t = elim (Bool-cases (ltb s.next requests)) [
    | inl more ↦ rw more (
      record {
        handed = λ i. ground (arith, t.handed i);
        within = ground (arith, more);
        sized = t.sized;
      },
      tt,
      omega arith,
    )
    | inr no_more ↦ rw no_more (t, tt, omega arith)
  ]
  work_in-IsShared waiting see_closed s r c t = elim (Bool-cases (ltb s.next requests)) [
    | inl more ↦ rw more (t, tt, omega arith)
    | inr no_more ↦
        rw no_more (IsShared-along (λ i. omega arith) t, ground (arith, no_more), omega arith)
  ]
  work_in-IsShared waiting (answer ok d) s r c t = (t, tt, omega arith)
  work_in-IsShared (sending j) (answer ok d) s r c t = (
    record {
      handed = λ i. omega (arith, t.handed i);
      within = t.within;
      sized = omega (arith, length-set_latency j d s.latencies, t.sized);
    },
    tt,
    omega arith,
  )
  work_in-IsShared (sending j) receive s r c t = (t, tt, omega arith)
  work_in-IsShared (sending j) see_closed s r c t = (t, tt, omega arith)
  work_in-IsShared returned a s r c t = (t, c, omega arith)

  ClosedBy-later : (n n' : ℕ) (w : Worker) → n ≤ n' → ClosedBy requests n w → ClosedBy requests n' w
  ClosedBy-later n n' waiting h c = tt
  ClosedBy-later n n' (sending i) h c = tt
  ClosedBy-later n n' returned h c = omega (arith, c, h)

  AllClosedBy-later :
      (n n' : ℕ) (ws : List Worker)
      → n ≤ n'
      → AllClosedBy requests n ws
      → AllClosedBy requests n' ws
  AllClosedBy-later n n' [] h c = tt
  AllClosedBy-later n n' (w ∷ ws) h (c, rest) =
      (ClosedBy-later n n' w h c, AllClosedBy-later n n' ws h rest)

  work_at-IsShared :
      (k : ℕ) (a : WorkerAction) (ws : List Worker) (s : Requests) (r : ℕ → ℕ)
      → AllClosedBy requests s.next ws
      → IsShared requests (λ i. held i ws + r i) s
      → let (ws', s') = work_at requests k a ws s in
        IsShared requests (λ i. held i ws' + r i) s'
        × AllClosedBy requests s'.next ws'
        × (s.next ≤ s'.next)
        × (length ws' ≡ length ws)
  work_at-IsShared k a [] s r c t = (t, tt, omega arith, refl)
  work_at-IsShared zero a (w ∷ ws) s r (c, rest) t =
      let (t', c', later) =
        work_in-IsShared w a s (λ i. held i ws + r i) c (IsShared-along (λ i. omega arith) t) in
      (IsShared-along (λ i. omega arith) t', (c', AllClosedBy-later _ _ ws later rest), later, refl)
  work_at-IsShared (suc k) a (w ∷ ws) s r (c, rest) t =
      let (t', rest', later, len) =
        work_at-IsShared k a ws s (λ i. carries i w + r i) rest
          (IsShared-along (λ i. omega arith) t) in
      (
        IsShared-along (λ i. omega arith) t',
        (ClosedBy-later _ _ w later c, rest'),
        later,
        omega (arith, len),
      )

  pub run-IsShared :
      (actions : List (ℕ × WorkerAction)) (ws : List Worker) (s : Requests)
      → AllClosedBy requests s.next ws
      → IsShared requests (λ i. held i ws) s
      → let (ws', s') = run_requests requests actions ws s in
        IsShared requests (λ i. held i ws') s'
        × AllClosedBy requests s'.next ws'
        × (length ws' ≡ length ws)
  unfolding run_requests
  run-IsShared [] ws s c t = (t, c, refl)
  run-IsShared ((k, a) ∷ actions) ws s c t =
      let (t', c', later, len) =
        work_at-IsShared k a ws s (λ i. 0) c (IsShared-along (λ i. omega arith) t) in
      let (t'', c'', len') = run-IsShared actions _ _ c' (IsShared-along (λ i. omega arith) t') in
      (t'', c'', len' ∙ len)
