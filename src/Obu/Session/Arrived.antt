-- ===== src/Obu/Session/Arrived.antt =====
-- The line that the load generator prints against the aggregator behind Kafka and the calculator.
use toll_calc.Common.{ℕ, ◌<◌, ◌≡◌, sym, ◌∙◌, subst, Bool, Option, inr, arith}
use toll_calc.Common.Int.{ℤ}
use toll_calc.Common.Text.{Text, length}
use toll_calc.Float.{Float64}
use toll_calc.Types.{AggregateRequest, word}
use toll_calc.Http.{Codec}
use toll_calc.Aggregator.Store.{MemoryStore, new_memory_store, reconciliation}
use toll_calc.Aggregator.Http.{Server}
use toll_calc.Aggregator.Grpc.{GrpcStatus}
use toll_calc.Client.GrpcClient.{Channel}
use toll_calc.Calculator.Consumer.{Message, Broker, KafkaConsumer}
use toll_calc.Calculator.Consumer.Delivery.{IsPartition}
use toll_calc.Calculator.Consumer.Recorded.{IsDelivering, after_rounds}
use toll_calc.Calculator.Consumer.Reconciled.{HoldsExactly, AllBelow, consumer_reconciles}
use toll_calc.Obu.{LoadConfig}
use toll_calc.Obu.Reconciliation.{occurrences-Nodup}
use toll_calc.Obu.Session.{Dialer, Gauged, Report, Course, load_main, print_summary}
use toll_calc.Obu.Session.Printed.{StatesIfAny, load_main-StatesIfAny}

module _ {F : Type 0} ⦃f : Float64 F⦄ (codec : Codec F) (log : ℕ → Option Message)
    (call : AggregateRequest F → Server (MemoryStore F) → GrpcStatus × Server (MemoryStore F))
    (close_conn : Server (MemoryStore F) → Server (MemoryStore F)) (delivering : IsDelivering call)
    {K : Type 0} (kafka : Broker K) (deadline_exceeded : Channel (Server (MemoryStore F)) → Bool)
    (partition : IsPartition kafka log) (rounds : ℕ)
    (s : KafkaConsumer F K (Channel (Server (MemoryStore F)))) where
  -- The calculator and the aggregator behind it, after so many rounds.
  abbrev pub arrived : KafkaConsumer F K (Channel (Server (MemoryStore F)))
  arrived = after_rounds call close_conn delivering codec kafka deadline_exceeded rounds s

  -- A fresh group and a fresh aggregator.
  pub record IsFresh : Type 0 where
    pub at_0 : partition.position s.broker ≡ 0
    pub none_yet : partition.committed s.broker ≡ 0
    pub empty : s.downstream.world.service ≡ new_memory_store

  module _ (cfg : LoadConfig F) (course : Course F) {W : Type 0} (dialer : Dialer W)
      (parse_duration : Text → Option ℤ) (parse_float : Text → Option F) where
    -- In either mode, if fewer than 2^64 actions are taken, in any order and with any writes
    -- failing: whenever the load generator prints a summary and the partition's valid events are
    -- those that were sent, each at least once and in any order, then once the calculator has
    -- committed all of the partition, over a gRPC network that may lose requests and answers, for a
    -- group that starts at offset 0 and an aggregator that starts empty and serves only this
    -- consumer, the aggregator's reconciliation is what the summary states.
    pub summary_matches_aggregator :
        (gauged : Gauged W) (report : Report F)
        → length course.worker_actions < word
        → length course.fixed_actions < word
        → (load_main dialer parse_duration parse_float cfg course gauged).0 ≡ inr report
        → HoldsExactly codec log report.sending.sent
        → IsFresh
        → AllBelow codec log (partition.committed arrived.broker)
        → let r = reconciliation arrived.downstream.world.service in
          (r.count ≡ report.summary.events_written)
          × (r.xor_hash ≡ report.summary.event_id_hash_xor)
          × (r.sum_hash ≡ report.summary.event_id_hash_sum)
    unfolding print_summary
    summary_matches_aggregator gauged report few few_fixed printed exactly fresh passed =
        let ((h, n, t), stated) = subst (StatesIfAny cfg course few few_fixed) printed (
          load_main-StatesIfAny cfg course few few_fixed dialer parse_duration parse_float
            gauged) in
        let r =
          consumer_reconciles codec log call close_conn delivering kafka deadline_exceeded partition
            rounds s report.sending.sent fresh.at_0 fresh.none_yet fresh.empty passed
            (occurrences-Nodup report.sending.sent (λ e. omega (arith, t.unique e))) exactly in
        rw stated (r.0 ∙ sym t.written, r.1 ∙ sym t.hash_xor, r.2 ∙ sym t.hash_sum)
