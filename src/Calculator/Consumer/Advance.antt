-- ===== src/Calculator/Consumer/Advance.antt =====
-- How far the loop of `Start` comes while every call succeeds: the induction behind Settling
-- and Blocked.
use toll_calc.Common.{
  ℕ, zero, suc, ◌+◌, ◌<◌, ◌≡◌, refl, ap, subst, Bool, true, false, Option, none, some, inl, inr,
  arith, Bool-cases, Option-cases,
}
use toll_calc.Common.Int.{pos}
use toll_calc.Float.{Float64}
use toll_calc.Types.{ObuData, invalid_event}
use toll_calc.Http.{Codec}
use toll_calc.Client.{Client}
use toll_calc.Calculator.{CalcService, calculate_dist}
use toll_calc.Calculator.Consumer.{
  Message, message, Broker, KafkaConsumer, ProcessError, Exit, Round, next_round, stop, request_of,
  process_event, commit_message, discard, process_message, then_commit, update_lag, after_read,
  after_process, continue_with, round, start,
}
use toll_calc.Calculator.Consumer.Delivery.{IsPartition}
use toll_calc.Calculator.Consumer.Sources.{IsSource}

module _ {F K W : Type 0} ⦃f : Float64 F⦄ (codec : Codec F) (kafka : Broker K) (client : Client F W)
    (deadline_exceeded : W → Bool) (log : ℕ → Option Message)
    (partition : IsPartition kafka log) where
  open partition use {position, committed}

  abbrev State : Type 0
  State = KafkaConsumer F K W

  -- A broker that answers: the consumer is not stopped, a record that is there is read, and commits
  -- and seeks are acknowledged.
  pub record IsServing : Type 0 where
    pub live : (k : K) → kafka.cancelled k ≡ false
    pub available : (k : K) (m : Message) → log (position k) ≡ some m → (kafka.read k).0 ≡ message m
    pub commits : (m : Message) (k : K) → (kafka.commit m k).0 ≡ true
    pub seeks : (m : Message) (k : K) → (kafka.seek m k).0 ≡ true

  pub update_lag_keeps :
      (m : Message) (s : State)
      → (update_lag codec kafka client deadline_exceeded m s).broker ≡ s.broker
  unfolding update_lag
  update_lag_keeps m s = ground arith

  module _ (serving : IsServing)
      -- what the calculator's service and the aggregator keep, and while which the aggregator takes
      -- the requests for the partition's events
      (Inv : CalcService F → W → Type 0)
      (takes : (d : ObuData F) (c : CalcService F) (w : W)
        → IsSource codec log d
        → Inv c w
        → ((client.aggregate (request_of (calculate_dist d c).0 d) w).0 ≡ none)
          × Inv
              (calculate_dist d c).1
              (client.aggregate (request_of (calculate_dist d c).0 d) w).1) where
    open serving use {live, available, commits, seeks}

    -- Before the message at offset `n` is read, and after the one before it was committed.
    pub record IsAt (n : ℕ) (s : State) : Type 0 where
      pub ahead : position s.broker ≡ n
      pub behind : committed s.broker ≡ n
      pub kept : Inv s.calc s.downstream

    -- The message at offset `n` is behind the offset and behind the position.
    abbrev Passed : ℕ → Option ProcessError × State → Type 0
    Passed n (e, s) = (e ≡ none) × IsAt (n + 1) s

    -- While the message at offset `n` is processed.
    abbrev Busy : ℕ → Message → State → Type 0
    Busy n m s = (m.offset ≡ pos n) × (position s.broker ≡ n + 1) × Inv s.calc s.downstream

    commit_message-Passed :
        (n : ℕ) (m : Message) (s : State)
        → Busy n m s
        → Passed n (commit_message codec kafka client deadline_exceeded m s)
    unfolding commit_message
    commit_message-Passed n m s (off, ahead, kept) = rw (commits m s.broker) (
      refl,
      record {
        ahead = rw (partition.commit_position s.broker m) ahead;
        behind = partition.commit_acknowledged s.broker m n off (commits m s.broker);
        kept = kept;
      },
    )

    discard-Passed :
        (n : ℕ) (m : Message) (s : State)
        → Busy n m s
        → Passed n (discard codec kafka client deadline_exceeded m s)
    unfolding discard
    discard-Passed n m s busy =
        let c = s.metrics in
        commit_message-Passed n m
          (record s {
            metrics = record c { deserialization_errors = c.deserialization_errors + 1 };
          })
          busy

    then_commit-Passed :
        (n : ℕ) (m : Message) (out : Option ProcessError × State)
        → out.0 ≡ none
        → Busy n m out.1
        → Passed n (then_commit codec kafka client deadline_exceeded m out)
    then_commit-Passed n m (none, s) done busy = commit_message-Passed n m s busy
    then_commit-Passed n m (some e, s) done busy = ground (arith, done)

    process_event-taken :
        (n : ℕ) (m : Message) (d : ObuData F) (s : State)
        → IsSource codec log d
        → Busy n m s
        → ((process_event codec kafka client deadline_exceeded d s).0 ≡ none)
          × Busy n m (process_event codec kafka client deadline_exceeded d s).1
    unfolding process_event
    process_event-taken n m d s source (off, ahead, kept) =
        let (taken, kept') = takes d s.calc s.downstream source kept in
        rw taken (refl, (off, ahead, kept'))

    process_message-Passed :
        (n : ℕ) (m : Message) (s : State)
        → log n ≡ some m
        → Busy n m s
        → Passed n (process_message codec kafka client deadline_exceeded m s)
    unfolding process_message
    process_message-Passed n m s at busy = elim (Option-cases (codec.decode_event m.value)) [
      | inl broken ↦ rw broken (discard-Passed n m s busy)
      | inr (d, decoded) ↦ elim (Bool-cases (invalid_event d)) [
        | inl invalid ↦ rw (decoded, invalid) (discard-Passed n m s busy)
        | inr valid ↦
            let source : IsSource codec log d = record {
              offset = n;
              record_at = m;
              at_offset = at;
              decoded = decoded;
              valid = valid;
            } in
            let (taken, busy') = process_event-taken n m d s source busy in
            rw (decoded, valid)
              (then_commit-Passed n m (process_event codec kafka client deadline_exceeded d s) taken
                busy')
      ]
    ]

    update_lag-Busy :
        (n : ℕ) (m : Message) (s : State)
        → Busy n m s
        → Busy n m (update_lag codec kafka client deadline_exceeded m s)
    unfolding update_lag
    update_lag-Busy n m s (off, ahead, kept) = (off, ground (arith, ahead), ground (arith, kept))

    -- A round that goes on with the message at offset `n` behind it.
    abbrev Forward : ℕ → Round State → Type 0
    Forward n (next_round s) = IsAt (n + 1) s
    Forward n (stop e s) = ⊥

    after_process-Forward :
        (n : ℕ) (m : Message) (out : Option ProcessError × State)
        → Passed n out
        → Forward n (after_process codec kafka client deadline_exceeded m out)
    after_process-Forward n m (none, s) (done, here) = here
    after_process-Forward n m (some e, s) (done, here) = ground (arith, done)

    after_read-Forward :
        (n : ℕ) (m : Message) (k : K) (s : State)
        → log n ≡ some m
        → Busy n m (record s { broker = k })
        → Forward n (after_read codec kafka client deadline_exceeded (message m, k) s)
    after_read-Forward n m k s at busy =
        after_process-Forward n m _ (process_message-Passed n m _ at (update_lag-Busy n m _ busy))

    round-Forward :
        (n : ℕ) (m : Message) (s : State)
        → log n ≡ some m
        → position s.broker ≡ n
        → Inv s.calc s.downstream
        → Forward n (round codec kafka client deadline_exceeded s)
    unfolding round
    round-Forward n m s at here kept =
        let (r, k) = kafka.read s.broker in
        let got : r ≡ message m = available s.broker m (rw here at) in
        let (_, off, ahead, _) = partition.read_message s.broker m k (ap (λ x. (x, k)) got) in
        rw (live s.broker, got)
          (after_read-Forward n m k s at (rw here at off, rw here at ahead, kept))

    abbrev pub CaughtUp : ℕ → Option Exit × State → Type 0
    CaughtUp n (e, s) = (e ≡ none) × IsAt n s

    continue-CaughtUp :
        (rest : State → Option Exit × State) (p n : ℕ)
        → ((s : State) → IsAt (p + 1) s → CaughtUp n (rest s))
        → (r : Round State) → Forward p r
        → CaughtUp n (continue_with codec kafka client deadline_exceeded rest r)
    continue-CaughtUp rest p n h (next_round s) here = h s here
    continue-CaughtUp rest p n h (stop e s) none_such = absurd none_such

    pub start-CaughtUp :
        (n p : ℕ) (s : State)
        → position s.broker ≡ p
        → Inv s.calc s.downstream
        → ((i : ℕ) → i < suc n → (m : Message) × (log (p + i) ≡ some m))
        → CaughtUp (p + suc n) (start codec kafka client deadline_exceeded (suc n) s)
    unfolding start
    start-CaughtUp zero p s here kept filled =
        let (m, at) = filled 0 (omega arith) in
        continue-CaughtUp (start codec kafka client deadline_exceeded zero) p (p + 1)
          (λ s' here'. (refl, here')) (round codec kafka client deadline_exceeded s)
          (round-Forward p m s (subst (λ k. log k ≡ some m) (omega arith) at) here kept)
    start-CaughtUp (suc n) p s here kept filled =
        let (m, at) = filled 0 (omega arith) in
        continue-CaughtUp (start codec kafka client deadline_exceeded (suc n)) p (p + suc (suc n))
          (λ s' here'.
            subst (λ k. CaughtUp k (start codec kafka client deadline_exceeded (suc n) s'))
              (omega arith)
              (start-CaughtUp n (p + 1) s' here'.ahead here'.kept (λ i lt.
                let (m', at') = filled (suc i) (omega (arith, lt)) in
                (m', subst (λ k. log k ≡ some m') (omega arith) at'))))
          (round codec kafka client deadline_exceeded s)
          (round-Forward p m s (subst (λ k. log k ≡ some m) (omega arith) at) here kept)
