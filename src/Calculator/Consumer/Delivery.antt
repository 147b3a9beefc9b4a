-- ===== src/Calculator/Consumer/Delivery.antt =====
-- At-least-once delivery: what lies below the committed offset of the partition is settled.
use toll_calc.Common.{
  ℕ, ◌+◌, ◌<◌, ◌≡◌, ◌≢◌, subst, ◌∙◌, Bool, true, Option, none, some, ◌⊎◌, inl, inr, arith,
  Bool-cases, Option-cases, nat_eq,
}
use toll_calc.Common.Int.{pos}
use toll_calc.Float.{Float64}
use toll_calc.Types.{ObuData, AggregateRequest, invalid_event}
use toll_calc.Http.{Codec}
use toll_calc.Client.{Client}
use toll_calc.Calculator.{calculate_dist}
use toll_calc.Calculator.Consumer.{
  Message, ReadResult, message, Broker, KafkaConsumer, ProcessError, request_of, process_event,
  commit_message, discard, process_message, then_commit,
}

-- What a consumer that is assigned one partition relies on. `log i` is the record at offset `i`,
-- `position` the offset of the next read and `committed` the group's offset.
pub record IsPartition {K : Type 0} (kafka : Broker K) (log : ℕ → Option Message) : Type 0 where
  pub position : K → ℕ
  pub committed : K → ℕ
  -- A read returns the record at the position and moves on, or returns none and stays.
  pub read_message :
      (k : K) (m : Message) (k' : K)
      → kafka.read k ≡ (message m, k')
      → (log (position k) ≡ some m)
        × (m.offset ≡ pos (position k))
        × (position k' ≡ position k + 1)
        × (committed k' ≡ committed k)
  pub read_nothing :
      (k : K) (r : ReadResult) (k' : K)
      → kafka.read k ≡ (r, k')
      → ((m : Message) → r ≢ message m)
      → (position k' ≡ position k) × (committed k' ≡ committed k)
  -- A commit that is acknowledged sets the offset behind the message; one that is not may have.
  pub commit_acknowledged :
      (k : K) (m : Message) (n : ℕ)
      → m.offset ≡ pos n
      → (kafka.commit m k).0 ≡ true
      → committed (kafka.commit m k).1 ≡ n + 1
  pub commit_sets :
      (k : K) (m : Message) (n : ℕ)
      → m.offset ≡ pos n
      → (committed (kafka.commit m k).1 ≡ committed k) ⊎ (committed (kafka.commit m k).1 ≡ n + 1)
  pub commit_position : (k : K) (m : Message) → position (kafka.commit m k).1 ≡ position k
  pub seek_committed : (k : K) (m : Message) → committed (kafka.seek m k).1 ≡ committed k
  pub seek_position :
      (k : K) (m : Message) (n : ℕ)
      → m.offset ≡ pos n
      → (kafka.seek m k).0 ≡ true
      → position (kafka.seek m k).1 ≡ n

-- `Applied r w`: the aggregator behind the client has taken the request `r`. It has when the client
-- returns no error, and it does not lose what it took.
pub record IsReliable {F W : Type 0} (client : Client F W) : Type 1 where
  pub Applied : AggregateRequest F → W → Type 0
  pub applied_if_nil :
      (r : AggregateRequest F) (w : W)
      → (client.aggregate r w).0 ≡ none
      → Applied r (client.aggregate r w).1
  pub applied_stays :
      (r q : AggregateRequest F) (w : W) → Applied r w → Applied r (client.aggregate q w).1

module _ {F K W : Type 0} ⦃f : Float64 F⦄ (codec : Codec F) (kafka : Broker K) (client : Client F W)
    (deadline_exceeded : W → Bool) (log : ℕ → Option Message) (partition : IsPartition kafka log)
    (reliable : IsReliable client) where
  open partition use {position, committed}
  open reliable use {Applied, applied_if_nil, applied_stays}

  -- The message is no valid event, or some distance of its event was applied.
  pub data Settled (m : Message) (w : W) : Type 0 where
    not_json : codec.decode_event m.value ≡ none → Settled m w
    not_valid :
        (d : ObuData F) → codec.decode_event m.value ≡ some d → invalid_event d ≡ true → Settled m w
    applied :
        (d : ObuData F) (dist : F)
        → codec.decode_event m.value ≡ some d
        → Applied (request_of dist d) w
        → Settled m w

  Settled-stays :
      (m : Message) (q : AggregateRequest F) (w : W)
      → Settled m w
      → Settled m (client.aggregate q w).1
  Settled-stays m q w (not_json e) = not_json e
  Settled-stays m q w (not_valid d e i) = not_valid d e i
  Settled-stays m q w (applied d dist e a) = applied d dist e (applied_stays _ q w a)

  abbrev pub SettledBelow : ℕ → W → Type 0
  SettledBelow n w = (i : ℕ) (m : Message) → i < n → log i ≡ some m → Settled m w

  pub SettledBelow-suc :
      (n : ℕ) (m : Message) (w : W)
      → SettledBelow n w
      → log n ≡ some m
      → Settled m w
      → SettledBelow (n + 1) w
  SettledBelow-suc n m w below e s i m' lt e' = elim (Bool-cases (nat_eq i n)) [
    | inl same ↦
        let at_n : i ≡ n = ground arith in let it : m ≡ m' = cc in subst (λ x. Settled x w) it s
    | inr other ↦ below i m' (ground arith) e'
  ]

  abbrev pub State : Type 0
  State = KafkaConsumer F K W

  -- At the head of the loop.
  pub record IsSafe (s : State) : Type 0 where
    pub read_settled : SettledBelow (position s.broker) s.downstream
    pub committed_settled : SettledBelow (committed s.broker) s.downstream

  -- While the message at offset `n` is processed.
  pub record IsBusy (n : ℕ) (s : State) : Type 0 where
    pub before : SettledBelow n s.downstream
    pub committed_settled : SettledBelow (committed s.broker) s.downstream
    pub ahead : position s.broker ≡ n + 1

  process_event-IsBusy :
      (n : ℕ) (d : ObuData F) (s : State)
      → IsBusy n s
      → IsBusy n (process_event codec kafka client deadline_exceeded d s).1
  unfolding process_event
  process_event-IsBusy n d s b =
      let q = request_of (calculate_dist d s.calc).0 d in
      record {
        before = λ i m lt e. Settled-stays m q s.downstream (b.before i m lt e);
        committed_settled =
            λ i m lt e. Settled-stays m q s.downstream (b.committed_settled i m lt e);
        ahead = b.ahead;
      }

  process_event-applied :
      (d : ObuData F) (s : State)
      → (process_event codec kafka client deadline_exceeded d s).0 ≡ none
      → Applied
          (request_of (calculate_dist d s.calc).0 d)
          (process_event codec kafka client deadline_exceeded d s).1.downstream
  unfolding process_event
  process_event-applied d s e =
      applied_if_nil (request_of (calculate_dist d s.calc).0 d) s.downstream (ground arith)

  commit_message-IsBusy :
      (n : ℕ) (m : Message) (s : State)
      → m.offset ≡ pos n
      → log n ≡ some m
      → Settled m s.downstream
      → IsBusy n s
      → IsBusy n (commit_message codec kafka client deadline_exceeded m s).1
        × Settled m (commit_message codec kafka client deadline_exceeded m s).1.downstream
  unfolding commit_message
  commit_message-IsBusy n m s off at settled b = (
    record {
      before = b.before;
      committed_settled = elim (partition.commit_sets s.broker m n off) [
        | inl same ↦ rw same b.committed_settled
        | inr moved ↦ rw moved (SettledBelow-suc n m s.downstream b.before at settled)
      ];
      ahead = partition.commit_position s.broker m ∙ b.ahead;
    },
    settled,
  )

  discard-IsBusy :
      (n : ℕ) (m : Message) (s : State)
      → m.offset ≡ pos n
      → log n ≡ some m
      → Settled m s.downstream
      → IsBusy n s
      → IsBusy n (discard codec kafka client deadline_exceeded m s).1
        × Settled m (discard codec kafka client deadline_exceeded m s).1.downstream
  unfolding discard
  discard-IsBusy n m s off at settled b =
      commit_message-IsBusy n m _ off at settled
        (record { before = b.before; committed_settled = b.committed_settled; ahead = b.ahead })

  abbrev pub Processed : ℕ → Message → Option ProcessError × State → Type 0
  Processed n m (e, s) = IsBusy n s × (e ≡ none → Settled m s.downstream)

  process_valid :
      (n : ℕ) (m : Message) (d : ObuData F) (s : State)
      → m.offset ≡ pos n
      → log n ≡ some m
      → codec.decode_event m.value ≡ some d
      → IsBusy n s
      → Processed n m (
          then_commit codec kafka client deadline_exceeded m
            (process_event codec kafka client deadline_exceeded d s))
  process_valid n m d s off at decoded b =
      let step = process_event codec kafka client deadline_exceeded d s in
      elim (Option-cases step.0) [
        | inl done ↦
            let settled : Settled m step.1.downstream =
              applied d _ decoded (process_event-applied d s done) in
            let busy : IsBusy n step.1 = process_event-IsBusy n d s b in
            let out = commit_message-IsBusy n m step.1 off at settled busy in
            rw done (out.0, λ _. out.1)
        | inr (e, failed) ↦ rw failed (process_event-IsBusy n d s b, λ h. cc)
      ]

  pub process_message-Processed :
      (n : ℕ) (m : Message) (s : State)
      → m.offset ≡ pos n
      → log n ≡ some m
      → IsBusy n s
      → Processed n m (process_message codec kafka client deadline_exceeded m s)
  unfolding process_message
  process_message-Processed n m s off at b = elim (Option-cases (codec.decode_event m.value)) [
    | inl broken ↦
        let out = discard-IsBusy n m s off at (not_json broken) b in rw broken (out.0, λ _. out.1)
    | inr (d, decoded) ↦ elim (Bool-cases (invalid_event d)) [
      | inl invalid ↦
          let out = discard-IsBusy n m s off at (not_valid d decoded invalid) b in
          rw (decoded, invalid) (out.0, λ _. out.1)
      | inr valid ↦ rw (decoded, valid) (process_valid n m d s off at decoded b)
    ]
  ]
