-- ===== src/Calculator/Consumer/Pipeline.antt =====
-- The calculator and the aggregator behind one partition, from its first record to its last.
use mathlib.Core.List.{Nodup}
use toll_calc.Common.{
  ℕ, suc, ◌-◌, ◌%◌, ◌^◌, ◌<◌, ◌≡◌, refl, subst, Bool, true, false, Option, none, some, inl, inr,
  List, [], arith, Bool-cases,
}
use toll_calc.Common.Int.{pos, int32, int32_exact, ◌≤ℤ◌}
use toll_calc.Common.Eq.{List-Eq, ℕ-Eq}
use toll_calc.Common.Map.{contains}
use toll_calc.Common.Text.{Text, length, is_empty}
use toll_calc.Float.{Float64, IsFloat}
use toll_calc.Types.{ObuData, Distance, invalid_event, word}
use toll_calc.Http.{Codec}
use toll_calc.Aggregator.{ok, aggregate_distance}
use toll_calc.Aggregator.Store.{MemoryStore, new_memory_store, insert, reconciliation}
use toll_calc.Aggregator.Store.Fingerprint.{xor_of, sum_of}
use toll_calc.Aggregator.Http.{Server}
use toll_calc.Aggregator.Grpc
use toll_calc.Aggregator.Grpc.{distance_of, intercepted}
use toll_calc.Aggregator.Refinement.{service, IsAdmissible, not_refused}
use toll_calc.Client.GrpcClient
use toll_calc.Client.GrpcClient.{Channel, new_grpc_client}
use toll_calc.Calculator.{CalcService, new_calc_service, calculate_dist}
use toll_calc.Calculator.History.{new_calc_service-Represents}
use toll_calc.Calculator.Consumer.{Message, Broker, KafkaConsumer, request_of, start, Exit}
use toll_calc.Calculator.Consumer.Delivery.{IsPartition}
use toll_calc.Calculator.Consumer.Sources.{IsSource}
use toll_calc.Calculator.Consumer.Advance.{IsServing, start-CaughtUp}
use toll_calc.Calculator.Consumer.Recorded.{intercepted-IsDelivering}
use toll_calc.Calculator.Consumer.Reconciled.{HoldsExactly, AllBelow, consumer_reconciles}
use toll_calc.Calculator.Consumer.Settling.{
  IsFine, IsModerate, HasHistory, calculate_dist-HasHistory,
}

module _ {F : Type 0} ⦃f : Float64 F⦄ where
  insert_ok : (d : Distance F) (m : MemoryStore F) → (b : Bool) × ((insert d m).0 ≡ ok b)
  unfolding insert
  insert_ok d m = elim (Bool-cases (is_empty d.event_id)) [
    | inl anonymous ↦ rw anonymous (true, refl)
    | inr named ↦ elim (Bool-cases (contains d.event_id m.processed)) [
      | inl old ↦ rw (named, old) (false, refl)
      | inr new ↦ rw (named, new) (true, refl)
    ]
  ]

  aggregate_distance_ok :
      (d : Distance F) (m : MemoryStore F)
      → IsAdmissible d
      → (b : Bool) × (((service {F = F}).aggregate_distance d m).0 ≡ ok b)
  unfolding aggregate_distance
  aggregate_distance_ok d m a = rw (not_refused d a) (insert_ok d m)

  valid_parts :
      (d : ObuData F)
      → invalid_event d ≡ false
      → (is_empty d.event_id ≡ false) × (pos 1 ≤ℤ d.produced_at_unix_nano) × (pos 1 ≤ℤ d.obu_id)
  valid_parts d valid = (ground (arith, valid), ground (arith, valid), ground (arith, valid))

  request_of-IsAdmissible :
      (d : ObuData F) (x : F)
      → invalid_event d ≡ false
      → d.obu_id ≤ℤ pos (2 ^ 31 - 1)
      → IsFine x
      → IsAdmissible (distance_of (request_of x d))
  request_of-IsAdmissible d x valid small fine =
      let (named, stamped, assigned) = valid_parts d valid in
      let exact : int32 d.obu_id ≡ d.obu_id =
        int32_exact d.obu_id (omega (arith, assigned)) small in
      record {
        named = named;
        stamped = stamped;
        assigned = rw exact assigned;
        not_negative = fine.not_negative;
        a_number = fine.a_number;
        finite = fine.finite;
      }

  module _ (codec : Codec F) (log : ℕ → Option Message) (laws : IsFloat F)
      (moderate : IsModerate codec log)
      (close_conn : Server (MemoryStore F) → Server (MemoryStore F)) where
    -- A request for an event of the partition, at the distance that is calculated, is taken.
    takes :
        (d : ObuData F) (c : CalcService F) (w : Channel (Server (MemoryStore F)))
        → IsSource codec log d
        → HasHistory codec log laws moderate c
        → ((new_grpc_client (intercepted service) close_conn).aggregate
              (request_of (calculate_dist d c).0 d)
              w).0
            ≡ none
          × HasHistory codec log laws moderate (calculate_dist d c).1
    unfolding GrpcClient.aggregate intercepted Grpc.aggregate
    takes d c w source h =
        let (fine, next) = calculate_dist-HasHistory codec log laws moderate d c source h in
        let (b, taken) =
          aggregate_distance_ok (distance_of (request_of (calculate_dist d c).0 d)) w.world.service
            (request_of-IsAdmissible d (calculate_dist d c).0 source.valid (moderate.small d source)
              fine) in
        (rw taken refl, next)

    module _ {K : Type 0} (kafka : Broker K)
        (deadline_exceeded : Channel (Server (MemoryStore F)) → Bool)
        (partition : IsPartition kafka log)
        (serving : IsServing codec kafka
          (new_grpc_client (intercepted service) close_conn)
          deadline_exceeded
          log
          partition) where
      abbrev State : Type 0
      State = KafkaConsumer F K (Channel (Server (MemoryStore F)))

      -- The loop after so many rounds, over a network without failures.
      abbrev pub run : ℕ → State → Option Exit × State
      run rounds s =
          start codec kafka (new_grpc_client (intercepted service) close_conn) deadline_exceeded
            rounds s

      -- A new group, a new calculator and a new aggregator.
      pub record IsNew (s : State) : Type 0 where
        pub at_0 : partition.position s.broker ≡ 0
        pub none_yet : partition.committed s.broker ≡ 0
        pub no_points : s.calc ≡ new_calc_service
        pub no_events : s.downstream.world.service ≡ new_memory_store

      -- The records of the partition are those at the offsets below `n`.
      pub record HasLength (n : ℕ) : Type 0 where
        pub there : (i : ℕ) → i < n → (m : Message) × (log i ≡ some m)
        pub no_more : AllBelow codec log n

      -- Over a partition with the laws of `IsPartition` and a gRPC network without failures, while
      -- the broker answers every call, with floats that obey `IsFloat`, and where no distance
      -- between two events of the partition overflows and their OBU IDs fit 32 bits: a new group
      -- with a new calculator and a new aggregator that serves only this consumer has, after as
      -- many rounds as the partition has records, at least one, committed all of them and is still
      -- running, and the aggregator's reconciliation has the number of the distinct IDs of the
      -- partition's valid events, the exclusive or of their fingerprints and their sum, as 64-bit
      -- words.
      pub pipeline_settles :
          (n : ℕ) (s : State) (written : List Text)
          → HasLength (suc n)
          → IsNew s
          → Nodup written
          → HoldsExactly codec log written
          → let (e, s') = run (suc n) s in
            let r = reconciliation s'.downstream.world.service in
            (e ≡ none)
            × (partition.committed s'.broker ≡ suc n)
            × (r.count ≡ length written % word)
            × (r.xor_hash ≡ xor_of written)
            × (r.sum_hash ≡ sum_of written % word)
      pipeline_settles n s written records new once exactly =
          let (going, end) =
            start-CaughtUp codec kafka (new_grpc_client (intercepted service) close_conn)
              deadline_exceeded log partition serving (λ c w. HasHistory codec log laws moderate c)
              takes n 0 s new.at_0
              (rw new.no_points
                (record { history = []; represents = new_calc_service-Represents; sources = tt }))
              (λ i lt.
                let (m, at) = records.there i lt in
                (m, subst (λ k. log k ≡ some m) (omega arith) at)) in
          let (count, xor_hash, sum_hash) =
            consumer_reconciles codec log (intercepted service) close_conn intercepted-IsDelivering
              kafka deadline_exceeded partition (suc n) s written new.at_0 new.none_yet
              new.no_events (λ i m at. omega (arith, end.behind, records.no_more i m at)) once
              exactly in
          (going, omega (arith, end.behind), count, xor_hash, sum_hash)
