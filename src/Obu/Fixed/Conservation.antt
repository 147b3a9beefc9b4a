-- ===== src/Obu/Fixed/Conservation.antt =====
-- What the statistics and the queues of a fixed-rate run say at every moment.
use toll_calc.Common.{
  ℕ, zero, suc, ◌+◌, ◌≤◌, ◌<◌, ◌≡◌, refl, Bool, true, false, List, [], ◌∷◌, arith, ◌++◌, ltb,
  Bool-cases, inl, inr,
}
use toll_calc.Common.Int.{pos}
use toll_calc.Common.Eq.{List-Eq, ℕ-Eq}
use toll_calc.Common.Text.{Text, length}
use toll_calc.Types.{ObuData, word}
use toll_calc.Obu.{
  LoadConfig, Sample, next_obu, next_event, event_for_obu, record_attempt, record_success,
  record_failure,
}
use toll_calc.Obu.Maximum.{Phase, idle, writing, Sending}
use toll_calc.Obu.Conservation.{
  carried, busy, IsTallied, IsTallied-along, generate-IsTallied, sent-IsTallied, failed-IsTallied,
}
use toll_calc.Obu.Fixed.{
  Writer, FixedRun, WriterAction, take, see_closed, see_done, write_succeeds, write_fails,
  FixedAction, tick, end_of_phase, interrupt, writer_at, queue_capacity, is_over, write_in,
  write_at, offer, offer_at, connection_of, tick_in, fixed_act, run_fixed_rate,
}

module _ {F : Type 0} where
  -- The events of a queue with an ID.
  abbrev queued : Text → List (ObuData F) → ℕ
  queued e [] = 0
  queued e (event ∷ events) = carried e (writing event) + queued e events

  -- The events that are queued or being written: how many with an ID, and how many in all.
  abbrev pub waiting : Text → List (Writer F) → ℕ
  waiting e [] = 0
  waiting e (w ∷ ws) = queued e w.queue + carried e w.phase + waiting e ws

  abbrev pub backlog : List (Writer F) → ℕ
  backlog [] = 0
  backlog (w ∷ ws) = length w.queue + busy w.phase + backlog ws

  abbrev pub WithinCapacity : List (Writer F) → Type 0
  WithinCapacity [] = Unit
  WithinCapacity (w ∷ ws) = (length w.queue ≤ queue_capacity) × WithinCapacity ws

  queued-append :
      (e : Text) (events : List (ObuData F)) (event : ObuData F)
      → queued e (events ++ (event ∷ [])) ≡ queued e events + carried e (writing event)
  queued-append e [] event = omega arith
  queued-append e (x ∷ events) event = omega (arith, queued-append e events event)

  length-append :
      (events : List (ObuData F)) (event : ObuData F)
      → length (events ++ (event ∷ [])) ≡ length events + 1
  length-append [] event = refl
  length-append (x ∷ events) event = omega (arith, length-append events event)

  module _ (cfg : LoadConfig F) (padding : Text) where
    write_in-IsTallied :
        (closed live : Bool) (p : Phase F) (q : List (ObuData F)) (a : WriterAction) (w : Writer F)
        (s : Sending) (r : Text → ℕ) (n : ℕ)
        → w.phase ≡ p
        → w.queue ≡ q
        → length q ≤ queue_capacity
        → IsTallied cfg.seed (λ e. queued e q + carried e p + r e) (length q + busy p + n) s
        → let (w', s') = write_in closed live p q a w s in
          IsTallied cfg.seed
            (λ e. queued e w'.queue + carried e w'.phase + r e)
            (length w'.queue + busy w'.phase + n)
            s'
          × (s'.stats.sequence ≡ s.stats.sequence)
          × (length w'.queue ≤ queue_capacity)
    unfolding record_success record_failure
    write_in-IsTallied closed live idle (event ∷ q) take w s r n at_p at_q small t =
        (IsTallied-along (λ e. omega arith) (omega arith) t, refl, omega (arith, small))
    write_in-IsTallied closed live (writing event) q write_succeeds w s r n at_p at_q small t =
        rw at_q (
          IsTallied-along (λ e. omega arith) (omega arith)
              (sent-IsTallied cfg padding event s (λ e. queued e q + r e) (length q + n)
                (IsTallied-along (λ e. omega arith) (omega arith) t)),
          refl,
          small,
        )
    write_in-IsTallied closed live (writing event) q write_fails w s r n at_p at_q small t =
        rw at_q (
          IsTallied-along (λ e. omega arith) (omega arith)
              (failed-IsTallied cfg padding event s (λ e. queued e q + r e) (length q + n)
                (IsTallied-along (λ e. omega arith) (omega arith) t)),
          refl,
          small,
        )
    write_in-IsTallied true live idle [] see_closed w s r n at_p at_q small t =
        rw at_q (IsTallied-along (λ e. omega arith) (omega arith) t, refl, small)
    write_in-IsTallied closed false idle q see_done w s r n at_p at_q small t =
        rw at_q (IsTallied-along (λ e. omega arith) (omega arith) t, refl, small)
    write_in-IsTallied _ _ _ _ _ w s r n at_p at_q small t = rw (at_p, at_q) (t, refl, small)

    write_at-IsTallied :
        (closed live : Bool) (i : ℕ) (a : WriterAction) (ws : List (Writer F)) (s : Sending)
        (r : Text → ℕ) (n : ℕ)
        → WithinCapacity ws
        → IsTallied cfg.seed (λ e. waiting e ws + r e) (backlog ws + n) s
        → let (ws', s') = write_at closed live i a ws s in
          IsTallied cfg.seed (λ e. waiting e ws' + r e) (backlog ws' + n) s'
          × (s'.stats.sequence ≡ s.stats.sequence)
          × WithinCapacity ws'
          × (length ws' ≡ length ws)
    write_at-IsTallied closed live i a [] s r n small t = (t, refl, tt, refl)
    write_at-IsTallied closed live zero a (w ∷ ws) s r n (small, rest) t =
        let (t', same, small') =
          write_in-IsTallied closed live w.phase w.queue a w s (λ e. waiting e ws + r e)
            (backlog ws + n) refl refl small (IsTallied-along (λ e. omega arith) (omega arith) t) in
        (IsTallied-along (λ e. omega arith) (omega arith) t', same, (small', rest), refl)
    write_at-IsTallied closed live (suc i) a (w ∷ ws) s r n (small, rest) t =
        let (t', same, rest', len) =
          write_at-IsTallied closed live i a ws s (λ e. queued e w.queue + carried e w.phase + r e)
            (length w.queue + busy w.phase + n) rest
            (IsTallied-along (λ e. omega arith) (omega arith) t) in
        (
          IsTallied-along (λ e. omega arith) (omega arith) t',
          same,
          (small, rest'),
          omega (arith, len),
        )

    offer-IsTallied :
        (event : ObuData F) (w : Writer F) (s : Sending) (r : Text → ℕ) (n : ℕ)
        → length w.queue ≤ queue_capacity
        → IsTallied cfg.seed
            (λ e. carried e (writing event) + (queued e w.queue + carried e w.phase + r e))
            (1 + (length w.queue + busy w.phase + n))
            s
        → let (w', s') = offer event w s in
          IsTallied cfg.seed
            (λ e. queued e w'.queue + carried e w'.phase + r e)
            (length w'.queue + busy w'.phase + n)
            s'
          × (s'.stats.sequence ≡ s.stats.sequence)
          × (length w'.queue ≤ queue_capacity)
    unfolding record_failure
    offer-IsTallied event w s r n small t =
        elim (Bool-cases (ltb (length w.queue) queue_capacity)) [
          | inl room ↦ rw room (
            IsTallied-along (λ e. omega (arith, queued-append e w.queue event))
                (omega (arith, length-append w.queue event)) t,
            refl,
            ground (arith, length-append w.queue event, room),
          )
          | inr full ↦ rw full (failed-IsTallied cfg padding event s _ _ t, refl, small)
        ]

    offer_at-IsTallied :
        (i : ℕ) (event : ObuData F) (ws : List (Writer F)) (s : Sending) (r : Text → ℕ) (n : ℕ)
        → i < length ws
        → WithinCapacity ws
        → IsTallied cfg.seed
            (λ e. carried e (writing event) + (waiting e ws + r e))
            (1 + (backlog ws + n))
            s
        → let (ws', s') = offer_at i event ws s in
          IsTallied cfg.seed (λ e. waiting e ws' + r e) (backlog ws' + n) s'
          × (s'.stats.sequence ≡ s.stats.sequence)
          × WithinCapacity ws'
          × (length ws' ≡ length ws)
    offer_at-IsTallied i event [] s r n lt small t = absurd (omega (arith, lt))
    offer_at-IsTallied zero event (w ∷ ws) s r n lt (small, rest) t =
        let (t', same, small') =
          offer-IsTallied event w s (λ e. waiting e ws + r e) (backlog ws + n) small
            (IsTallied-along (λ e. omega arith) (omega arith) t) in
        (IsTallied-along (λ e. omega arith) (omega arith) t', same, (small', rest), refl)
    offer_at-IsTallied (suc i) event (w ∷ ws) s r n lt (small, rest) t =
        let (t', same, rest', len) =
          offer_at-IsTallied i event ws s (λ e. queued e w.queue + carried e w.phase + r e)
            (length w.queue + busy w.phase + n) (omega (arith, lt)) rest
            (IsTallied-along (λ e. omega arith) (omega arith) t) in
        (
          IsTallied-along (λ e. omega arith) (omega arith) t',
          same,
          (small, rest'),
          omega (arith, len),
        )

    -- What holds between two actions: nobody else holds an event, no queue is beyond its capacity,
    -- and there is a connection.
    pub record IsConserved (run : FixedRun F) : Type 0 where
      pub tallied :
          IsTallied cfg.seed (λ e. waiting e run.writers) (backlog run.writers) run.sending
      pub bounded : WithinCapacity run.writers
      pub connected : 0 < length run.writers

    tick-IsConserved :
        (sample : Sample F) (run : FixedRun F)
        → run.sending.stats.sequence + 1 < word
        → IsConserved run
        → let run' = tick_in cfg padding false sample run in
          IsConserved run' × (run'.sending.stats.sequence ≤ run.sending.stats.sequence + 1)
    unfolding next_event event_for_obu record_attempt
    tick-IsConserved sample run room c =
        let (event, stats') = next_event cfg sample padding run.sending.stats in
        let (t', same, small, len) =
          offer_at-IsTallied (connection_of event run.writers) event run.writers
            (record run.sending { stats = record_attempt stats' }) (λ e. 0) 0
            (omega (arith, c.connected)) c.bounded
            (IsTallied-along (λ e. omega arith) (omega arith)
              (generate-IsTallied cfg padding sample (pos (next_obu cfg run.sending.stats))
                run.sending (λ e. waiting e run.writers) (backlog run.writers) room c.tallied)) in
        (
          record {
            tallied = IsTallied-along (λ e. omega arith) (omega arith) t';
            bounded = small;
            connected = omega (arith, len, c.connected);
          },
          omega (arith, same),
        )

    act-IsConserved :
        (a : FixedAction F) (run : FixedRun F)
        → run.sending.stats.sequence + 1 < word
        → IsConserved run
        → let run' = fixed_act cfg padding a run in
          IsConserved run' × (run'.sending.stats.sequence ≤ run.sending.stats.sequence + 1)
    act-IsConserved (tick sample) run room c = elim (Bool-cases (is_over run.phases)) [
      | inl over ↦ rw over (c, omega arith)
      | inr current ↦ rw current (tick-IsConserved sample run room c)
    ]
    act-IsConserved end_of_phase run room c =
        (record { tallied = c.tallied; bounded = c.bounded; connected = c.connected }, omega arith)
    act-IsConserved interrupt run room c =
        (record { tallied = c.tallied; bounded = c.bounded; connected = c.connected }, omega arith)
    act-IsConserved (writer_at i a) run room c =
        let (t', same, small, len) =
          write_at-IsTallied (is_over run.phases) run.live i a run.writers run.sending (λ e. 0) 0
            c.bounded (IsTallied-along (λ e. omega arith) (omega arith) c.tallied) in
        (
          record {
            tallied = IsTallied-along (λ e. omega arith) (omega arith) t';
            bounded = small;
            connected = omega (arith, len, c.connected);
          },
          omega (arith, same),
        )

    pub run-IsConserved :
        (actions : List (FixedAction F)) (run : FixedRun F)
        → run.sending.stats.sequence + length actions < word
        → IsConserved run
        → IsConserved (run_fixed_rate cfg padding actions run)
    unfolding run_fixed_rate
    run-IsConserved [] run room c = c
    run-IsConserved (a ∷ actions) run room c =
        let (c', bound) = act-IsConserved a run (omega (arith, room)) c in
        run-IsConserved actions _ (omega (arith, bound, room)) c'
