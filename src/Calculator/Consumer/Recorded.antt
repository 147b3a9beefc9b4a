-- ===== src/Calculator/Consumer/Recorded.antt =====
-- The consumer in front of the aggregator, over gRPC: what is behind the committed offset is in the
-- aggregator's store.
use toll_calc.Common.{
  ℕ, ◌<◌, ◌≡◌, refl, ap, subst, Bool, true, false, Option, none, some, ◌⊎◌, inl, inr, arith,
  Bool-cases,
}
use toll_calc.Common.Eq.{==_refl, List-Eq, ℕ-Eq}
use toll_calc.Common.Map.{contains, contains-insert}
use toll_calc.Common.Text.{Text, is_empty}
use toll_calc.Float.{Float64}
use toll_calc.Types.{ObuData, Distance, AggregateRequest, invalid_event}
use toll_calc.Http.{Codec}
use toll_calc.Aggregator.{Result, ok, err, refused, aggregate_distance}
use toll_calc.Aggregator.Store.{MemoryStore, mark_processed, add_total, insert}
use toll_calc.Aggregator.Http.{Server}
use toll_calc.Aggregator.Grpc.{GrpcCode, GrpcStatus, distance_of, status_of, intercepted}
use toll_calc.Aggregator.Grpc
use toll_calc.Aggregator.Refinement.{service}
use toll_calc.Client.GrpcClient
use toll_calc.Client.GrpcClient.{Channel, error_of, new_grpc_client}
use toll_calc.Calculator.Consumer.{Message, Broker, KafkaConsumer, start}
use toll_calc.Calculator.Consumer.Delivery.{
  IsPartition, IsReliable, not_json, not_valid, applied, IsSafe,
}
use toll_calc.Calculator.Consumer.Rounds.{start-Committed}

served_ok : (r : Result Bool) → (status_of r).code ≡ GrpcCode.ok_code → (b : Bool) × (r ≡ ok b)
served_ok (ok b) h = (b, refl)
served_ok (err e) h = ground (arith, h)

error_of-none : (code : GrpcCode) → error_of code ≡ none → code ≡ GrpcCode.ok_code
error_of-none GrpcCode.ok_code h = refl
error_of-none GrpcCode.invalid_argument h = ground (arith, h)
error_of-none GrpcCode.unknown h = ground (arith, h)
error_of-none GrpcCode.unimplemented h = ground (arith, h)
error_of-none GrpcCode.deadline_exceeded h = ground (arith, h)
error_of-none GrpcCode.unavailable h = ground (arith, h)
error_of-none (GrpcCode.other_code m) h = ground (arith, h)

module _ {F : Type 0} ⦃f : Float64 F⦄ where
  -- The store's set of processed events has this ID.
  abbrev pub Recorded : Text → MemoryStore F → Type 0
  Recorded e m = contains e m.processed ≡ true

  insert-keeps :
      (d : Distance F) (m : MemoryStore F) (e : Text) → Recorded e m → Recorded e (insert d m).1
  unfolding insert add_total mark_processed
  insert-keeps d m e h = ground (arith, h, contains-insert d.event_id e tt m.processed)

  insert-records :
      (d : Distance F) (m : MemoryStore F)
      → is_empty d.event_id ≡ false
      → Recorded d.event_id (insert d m).1
  unfolding insert add_total mark_processed
  insert-records d m named =
      ground
        (arith, named, contains-insert d.event_id d.event_id tt m.processed, ==_refl d.event_id)

  aggregate_distance-keeps :
      (d : Distance F) (m : MemoryStore F) (e : Text)
      → Recorded e m
      → Recorded e (service.aggregate_distance d m).1
  unfolding aggregate_distance
  aggregate_distance-keeps d m e h = elim (Bool-cases (refused d)) [
    | inl out ↦ rw out h
    | inr taken ↦ rw taken (insert-keeps d m e h)
  ]

  aggregate_distance-records :
      (d : Distance F) (m : MemoryStore F) (b : Bool)
      → (service.aggregate_distance d m).0 ≡ ok b
      → Recorded d.event_id (service.aggregate_distance d m).1
  unfolding aggregate_distance
  aggregate_distance-records d m b h = elim (Bool-cases (refused d)) [
    | inl out ↦ absurd (ground (arith, out, h))
    | inr taken ↦ rw taken (insert-records d m (ground (arith, taken)))
  ]

  -- What the aggregator does with a request.
  abbrev pub served_by_store : AggregateRequest F → MemoryStore F → Result Bool × MemoryStore F
  served_by_store r m = (service {F = F}).aggregate_distance (distance_of r) m

  -- A network between the gRPC client and the aggregator that may lose requests and answers: a call
  -- that returns OK was served, and any call was served or changed nothing.
  pub record IsDelivering
      (call : AggregateRequest F → Server (MemoryStore F) → GrpcStatus × Server (MemoryStore F))
      : Type 0 where
    pub served_if_ok :
        (r : AggregateRequest F) (w : Server (MemoryStore F))
        → (call r w).0.code ≡ GrpcCode.ok_code
        → let (answer, service') = served_by_store r w.service in
          ((b : Bool) × (answer ≡ ok b)) × ((call r w).1.service ≡ service')
    pub served_or_lost :
        (r : AggregateRequest F) (w : Server (MemoryStore F))
        → ((call r w).1.service ≡ w.service)
          ⊎ ((call r w).1.service ≡ (served_by_store r w.service).1)

  module _
      (call : AggregateRequest F → Server (MemoryStore F) → GrpcStatus × Server (MemoryStore F))
      (close_conn : Server (MemoryStore F) → Server (MemoryStore F))
      (delivering : IsDelivering call) where
    grpc_client-IsReliable : IsReliable (new_grpc_client call close_conn)
    unfolding GrpcClient.aggregate
    grpc_client-IsReliable = record {
      Applied = λ r w. Recorded r.event_id w.world.service;
      applied_if_nil = λ r w nil.
          let ((b, taken), served) =
            delivering.served_if_ok r w.world (error_of-none (call r w.world).0.code nil) in
          rw served (aggregate_distance-records (distance_of r) w.world.service b taken);
      applied_stays = λ r q w h. elim (delivering.served_or_lost q w.world) [
        | inl lost ↦ rw lost h
        | inr served ↦
            rw served (aggregate_distance-keeps (distance_of q) w.world.service r.event_id h)
      ];
    }

    -- The consumer after so many rounds.
    abbrev pub after_rounds :
        {K : Type 0}
        → Codec F
        → Broker K
        → (Channel (Server (MemoryStore F)) → Bool)
        → ℕ
        → KafkaConsumer F K (Channel (Server (MemoryStore F)))
        → KafkaConsumer F K (Channel (Server (MemoryStore F)))
    after_rounds codec kafka deadline_exceeded rounds s =
        (start codec kafka (new_grpc_client call close_conn) deadline_exceeded rounds s).1

    -- With a gRPC network that may lose requests and answers, over a partition with the laws of
    -- `IsPartition`, and for a group that starts at offset 0: however many rounds the loop has run
    -- and however it has returned, every record below the committed offset that holds a valid
    -- event is among the processed events of the aggregator's store.
    pub committed_reaches_store :
        {K : Type 0} (codec : Codec F) (kafka : Broker K)
        (deadline_exceeded : Channel (Server (MemoryStore F)) → Bool) (log : ℕ → Option Message)
        (partition : IsPartition kafka log) (rounds : ℕ)
        (s : KafkaConsumer F K (Channel (Server (MemoryStore F)))) (i : ℕ) (m : Message)
        (d : ObuData F)
        → partition.position s.broker ≡ 0
        → partition.committed s.broker ≡ 0
        → i < partition.committed (after_rounds codec kafka deadline_exceeded rounds s).broker
        → log i ≡ some m
        → codec.decode_event m.value ≡ some d
        → invalid_event d ≡ false
        → Recorded d.event_id
            (after_rounds codec kafka deadline_exceeded rounds s).downstream.world.service
    unfolding grpc_client-IsReliable
    committed_reaches_store codec kafka late log partition rounds s i m d at_0 none_yet below at
          decoded valid =
        let client = new_grpc_client call close_conn in
        let final = after_rounds codec kafka late rounds s in
        let safe : IsSafe codec kafka client late log partition grpc_client-IsReliable s = record {
          read_settled = λ j n lt e. absurd (omega (arith, lt, at_0));
          committed_settled = λ j n lt e. absurd (omega (arith, lt, none_yet));
        } in
        elim (start-Committed codec kafka client late log partition grpc_client-IsReliable rounds s
          safe i m below at) [
            | not_json broken ↦ absurd (ground (arith, decoded, broken))
            | not_valid d' decoded' invalid ↦
                let same : d ≡ d' = ground (arith, decoded, decoded') in
                absurd (ground (arith, valid, invalid, ap invalid_event same))
            | applied d' dist decoded' recorded ↦
                let same : d' ≡ d = ground (arith, decoded, decoded') in
                subst (λ x. Recorded x.event_id final.downstream.world.service) same recorded
          ]

  -- A network without failures.
  pub intercepted-IsDelivering : IsDelivering (intercepted service)
  unfolding intercepted Grpc.aggregate
  intercepted-IsDelivering = record {
    served_if_ok = λ r w fine. (served_ok (served_by_store r w.service).0 fine, refl);
    served_or_lost = λ r w. inr refl;
  }
