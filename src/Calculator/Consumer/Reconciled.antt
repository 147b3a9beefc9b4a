-- ===== src/Calculator/Consumer/Reconciled.antt =====
-- The aggregator's reconciliation after the consumer has committed all of its partition.
use mathlib.Core.List.{Nodup, Nodup-nil}
use toll_calc.Common.{
  ℕ, ◌%◌, ◌<◌, ◌≡◌, refl, sym, subst, ◌∙◌, Bool, true, false, Option, some, ◌⊎◌, inl, inr, List, [],
  arith, Bool-cases,
}
use toll_calc.Common.Eq.{◌==◌, List-Eq, ℕ-Eq, list_eq_iff}
use toll_calc.Common.Text.{Text, is_empty, length}
use toll_calc.Float.{Float64}
use toll_calc.Types.{ObuData, Distance, AggregateRequest, invalid_event, word}
use toll_calc.Http.{Codec}
use toll_calc.Aggregator.{refused, aggregate_distance}
use toll_calc.Aggregator.Store.{MemoryStore, new_memory_store, insert, reconciliation}
use toll_calc.Aggregator.Store.Ledger.{
  Ledger, post, Represents, new_memory_store-Represents, insert-Represents,
}
use toll_calc.Aggregator.Store.Fingerprint.{
  mem, names, mem-names, Nodup-names-post, reconciliation_of_ledger, xor_of, sum_of,
}
use toll_calc.Aggregator.Http.{Server}
use toll_calc.Aggregator.Grpc.{GrpcStatus, distance_of}
use toll_calc.Client.GrpcClient
use toll_calc.Client.GrpcClient.{Channel, new_grpc_client}
use toll_calc.Calculator.Consumer.{Message, Broker, KafkaConsumer, request_of}
use toll_calc.Calculator.Consumer.Delivery.{IsPartition}
use toll_calc.Calculator.Consumer.Recorded.{
  Recorded, IsDelivering, served_by_store, after_rounds, committed_reaches_store,
}
use toll_calc.Calculator.Consumer.Sources.{IsSource, start-keeps}

same_truth : (a b : Bool) → (a ≡ true → b ≡ true) → (b ≡ true → a ≡ true) → a ≡ b
same_truth true b f g = sym (f refl)
same_truth false true f g = g refl
same_truth false false f g = refl

valid_named : {F : Type 0} (d : ObuData F) → invalid_event d ≡ false → is_empty d.event_id ≡ false
valid_named d h = ground (arith, h)

-- A valid event of the partition has this ID.
pub record IsNamed {F : Type 0} (codec : Codec F) (log : ℕ → Option Message) (e : Text)
    : Type 0 where
  pub event : ObuData F
  pub source : IsSource codec log event
  pub same_id : event.event_id ≡ e

module _ {F : Type 0} ⦃f : Float64 F⦄ (codec : Codec F) (log : ℕ → Option Message) where
  -- The store stands for a ledger of events of the partition.
  record HasSources (m : MemoryStore F) : Type 0 where
    ledger : Ledger F
    represents : Represents ledger m
    distinct : Nodup (names ledger)
    from_log : (e : Text) → mem e (names ledger) ≡ true → IsNamed codec log e

  new_memory_store-HasSources : HasSources new_memory_store
  new_memory_store-HasSources = record {
    ledger = [];
    represents = new_memory_store-Represents;
    distinct = Nodup-nil;
    from_log = λ e h. ground (arith, h);
  }

  mem-names-post :
      (d : Distance F) (l : Ledger F) (e : Text)
      → mem e (names (post d l)) ≡ true
      → (d.event_id ≡ e) ⊎ (mem e (names l) ≡ true)
  mem-names-post d l e h = elim (Bool-cases (d.event_id == e)) [
    | inl same ↦ inl ((list_eq_iff d.event_id e).0 same)
    | inr other ↦ inr (ground (arith, h, other))
  ]

  insert-HasSources :
      (d : Distance F) (m : MemoryStore F)
      → IsNamed codec log d.event_id
      → HasSources m
      → HasSources (insert d m).1
  insert-HasSources d m named s = record {
    ledger = post d s.ledger;
    represents = (insert-Represents d m s.ledger s.represents).1;
    distinct = Nodup-names-post d s.ledger s.distinct;
    from_log = λ e h. elim (mem-names-post d s.ledger e h) [
      | inl same ↦ subst (IsNamed codec log) same named
      | inr old ↦ s.from_log e old
    ];
  }

  served-HasSources :
      (d : ObuData F) (dist : F) (m : MemoryStore F)
      → IsSource codec log d
      → HasSources m
      → HasSources (served_by_store (request_of dist d) m).1
  unfolding aggregate_distance
  served-HasSources d dist m source s =
      let q = distance_of (request_of dist d) in
      elim (Bool-cases (refused q)) [
        | inl out ↦ rw out s
        | inr taken ↦
            rw taken
              (insert-HasSources q m (record { event = d; source = source; same_id = refl }) s)
      ]

  -- The IDs of the partition's valid events are exactly these.
  pub record HoldsExactly (written : List Text) : Type 0 where
    pub sent_only : (d : ObuData F) → IsSource codec log d → mem d.event_id written ≡ true
    pub all_there : (e : Text) → mem e written ≡ true → IsNamed codec log e

  IsNamed-mem :
      (written : List Text)
      → HoldsExactly written
      → (e : Text) → IsNamed codec log e
      → mem e written ≡ true
  IsNamed-mem written exactly e n =
      subst (λ x. mem x written ≡ true) n.same_id (exactly.sent_only n.event n.source)

  Recorded-mem :
      {m : MemoryStore F} (h : HasSources m) (e : Text)
      → is_empty e ≡ false
      → Recorded e m
      → mem e (names h.ledger) ≡ true
  Recorded-mem h e named there =
      mem-names e h.ledger named ∙ sym (h.represents.processed e named) ∙ there

  -- Every record is below the offset.
  abbrev pub AllBelow : ℕ → Type 0
  AllBelow n = (i : ℕ) (m : Message) → log i ≡ some m → i < n

  module _
      (call : AggregateRequest F → Server (MemoryStore F) → GrpcStatus × Server (MemoryStore F))
      (close_conn : Server (MemoryStore F) → Server (MemoryStore F))
      (delivering : IsDelivering call) where
    call-HasSources :
        (d : ObuData F) (dist : F) (w : Channel (Server (MemoryStore F)))
        → IsSource codec log d
        → HasSources w.world.service
        → HasSources
            ((new_grpc_client call close_conn).aggregate (request_of dist d) w).1.world.service
    unfolding GrpcClient.aggregate
    call-HasSources d dist w source h =
        elim (delivering.served_or_lost (request_of dist d) w.world) [
          | inl lost ↦ rw lost h
          | inr served ↦ rw served (served-HasSources d dist w.world.service source h)
        ]

    module _ {K : Type 0} (kafka : Broker K)
        (deadline_exceeded : Channel (Server (MemoryStore F)) → Bool)
        (partition : IsPartition kafka log) (rounds : ℕ)
        (s : KafkaConsumer F K (Channel (Server (MemoryStore F)))) where
      abbrev final : KafkaConsumer F K (Channel (Server (MemoryStore F)))
      final = after_rounds call close_conn delivering codec kafka deadline_exceeded rounds s

      final-HasSources :
          s.downstream.world.service ≡ new_memory_store → HasSources final.downstream.world.service
      final-HasSources fresh =
          start-keeps codec kafka (new_grpc_client call close_conn) deadline_exceeded log partition
            (λ w. HasSources w.world.service) call-HasSources rounds s
            (rw fresh new_memory_store-HasSources)

      committed-mem :
          partition.position s.broker ≡ 0
          → partition.committed s.broker ≡ 0
          → AllBelow (partition.committed final.broker)
          → (h : HasSources final.downstream.world.service) (e : Text) → IsNamed codec log e
          → mem e (names h.ledger) ≡ true
      committed-mem at_0 none_yet passed h e n =
          let source = n.source in
          let here : Recorded n.event.event_id final.downstream.world.service =
            committed_reaches_store call close_conn delivering codec kafka deadline_exceeded log
              partition rounds s source.offset source.record_at n.event at_0 none_yet
              (passed source.offset source.record_at source.at_offset) source.at_offset
              source.decoded source.valid in
          subst (λ x. mem x (names h.ledger) ≡ true) n.same_id
            (Recorded-mem h n.event.event_id (valid_named n.event source.valid) here)

      -- With a gRPC network that may lose requests and answers, over a partition with the laws of
      -- `IsPartition`, for a group that starts at offset 0 and an aggregator that starts with an
      -- empty store and serves only this consumer: once the committed offset is behind every
      -- record, however the loop came there, the store's reconciliation has the number of the
      -- distinct IDs of the partition's valid events, the exclusive or of their fingerprints and
      -- their sum, as 64-bit words.
      pub consumer_reconciles :
          (written : List Text)
          → partition.position s.broker ≡ 0
          → partition.committed s.broker ≡ 0
          → s.downstream.world.service ≡ new_memory_store
          → AllBelow (partition.committed final.broker)
          → Nodup written
          → HoldsExactly written
          → ((reconciliation final.downstream.world.service).count ≡ length written % word)
            × ((reconciliation final.downstream.world.service).xor_hash ≡ xor_of written)
            × ((reconciliation final.downstream.world.service).sum_hash ≡ sum_of written % word)
      consumer_reconciles written at_0 none_yet fresh passed once exactly =
          let h = final-HasSources fresh in
          reconciliation_of_ledger final.downstream.world.service h.ledger written h.represents
            h.distinct once
            (λ e.
              same_truth (mem e (names h.ledger)) (mem e written)
                (λ there. IsNamed-mem written exactly e (h.from_log e there))
                (λ there. committed-mem at_0 none_yet passed h e (exactly.all_there e there)))
