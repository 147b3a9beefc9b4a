-- ===== src/Examples/Arrivals.antt =====
-- The events of a session of the load generator on their way into the aggregator's store.
use toll_calc.Common.{
  ℕ, zero, suc, ◌<◌, ◌≡◌, refl, sym, ◌∙◌, ap, subst, Bool, true, false, ◌&&◌, some, get_or, inl,
  inr, List, [], ◌∷◌, arith, Option-cases, Bool-cases,
}
use toll_calc.Common.Int.{pos}
use toll_calc.Common.Eq.{◌==◌, List-Eq, ℕ-Eq, ℤ-Eq, list_eq_iff}
use toll_calc.Common.Text.{Text, text, itoa}
use toll_calc.Common.Text.Utf8.{is_utf8}
use toll_calc.Float.Grid.{Grid, whole, Grid-Float64}
use toll_calc.Types.{ObuData, invalid_event}
use toll_calc.Aggregator.Store.Fingerprint.{mem}
use toll_calc.Common.Int.{int32}
use toll_calc.Common.Map.{lookup, contains, insert as put}
use toll_calc.Aggregator.{aggregate_distance}
use toll_calc.Aggregator.Store.{reconciliation, insert, add_total, mark_processed}
use toll_calc.Aggregator.Grpc
use toll_calc.Client.GrpcClient
use toll_calc.Calculator.{calculate_dist, calculate_new}
use toll_calc.Calculator.Consumer.{
  Message, KafkaConsumer, start, round, process_message, process_event, commit_message, update_lag,
}
use toll_calc.Aggregator.Http.{Server}
use toll_calc.Aggregator.Grpc.{intercepted}
use toll_calc.Aggregator.Store.{MemoryStore}
use toll_calc.Aggregator.Refinement.{service}
use toll_calc.Client.GrpcClient.{Channel}
use toll_calc.Calculator.Consumer.Recorded.{intercepted-IsDelivering}
use toll_calc.Receiver.Loop.{ws_receive_loop}
use toll_calc.Receiver.Publishing.{produce_all}
use toll_calc.Obu.Accepted.{generated, AreEncoded, generated_events_accepted}
use toll_calc.Examples.Streams.{producer, receiving}
use toll_calc.Obu.{
  Sample, zero_stats, next_event, event_for_obu, next_obu, event_id_of, record_attempt,
  record_success, record_failure,
}
use toll_calc.Obu.Fixed.{run_fixed_rate}
use toll_calc.Obu.Session.{run_load, padding_of}
use toll_calc.Obu.Session.Arrived.{arrived, summary_matches_aggregator}
use toll_calc.Calculator.Consumer.Sources.{IsSource}
use toll_calc.Calculator.Consumer.Reconciled.{HoldsExactly}
use toll_calc.Examples.Codec.{number_codec, number_codec-IsCodec}
use toll_calc.Examples.Parties.{Cursor, nth, log_of, list_broker, list_broker-IsPartition}
use toll_calc.Examples.Consumers.{over_grpc}
use toll_calc.Examples.Loads.{sample, ramped, duration_of, rate_of}
use toll_calc.Examples.Sessions.{dialer_for, course, offline, report, main_reports}

-- An event with this ID, what the codec writes for it, and a partition of such events.
abbrev pub event_named : Text → ObuData Grid
event_named e = record {
  event_id = e;
  produced_at_unix_nano = pos 5;
  obu_id = pos 1;
  lat = whole (pos 2);
  lon = whole (pos 3);
  payload = [];
}

abbrev pub bytes_of : Text → Text
bytes_of e = get_or (number_codec.encode_event (event_named e)) []

bytes_of-back :
    (e : Text) → is_utf8 e ≡ true → number_codec.decode_event (bytes_of e) ≡ some (event_named e)
bytes_of-back e utf8 = number_codec-IsCodec.event_back (event_named e) (bytes_of e) utf8 refl refl

abbrev pub all_utf8 : List Text → Bool
all_utf8 [] = true
all_utf8 (e ∷ es) = is_utf8 e && all_utf8 es

all_utf8-mem : (es : List Text) (e : Text) → all_utf8 es ≡ true → mem e es ≡ true → is_utf8 e ≡ true
all_utf8-mem [] e all there = ground (arith, there)
all_utf8-mem (x ∷ es) e all there = elim (Bool-cases (x == e)) [
  | inl here ↦ subst (λ t. is_utf8 t ≡ true) ((list_eq_iff x e).0 here) (ground (arith, all))
  | inr other ↦ all_utf8-mem es e (ground (arith, all)) (ground (arith, other, there))
]

abbrev pub values_of : List Text → List Text
values_of [] = []
values_of (e ∷ es) = bytes_of e ∷ values_of es

log_of-value :
    (vs : List Text) (i : ℕ) (m : Message) → log_of vs i ≡ some m → nth vs i ≡ some m.value
log_of-value vs i m h = elim (Option-cases (nth vs i)) [
  | inl absent ↦ ground (arith, absent, h)
  | inr (v, present) ↦ ground (arith, present, h)
]

nth-values_of :
    (es : List Text) (i : ℕ) (v : Text)
    → nth (values_of es) i ≡ some v
    → (e : Text) × (mem e es ≡ true) × (v ≡ bytes_of e)
nth-values_of [] i v h = ground (arith, h)
nth-values_of (e ∷ es) zero v h = (e, ground (arith, list_eq_iff e e), ground (arith, h))
nth-values_of (e ∷ es) (suc i) v h =
    let (e', there, same) = nth-values_of es i v h in (e', ground (arith, there), same)

mem-nth :
    (es : List Text) (e : Text)
    → mem e es ≡ true
    → (i : ℕ) × (nth (values_of es) i ≡ some (bytes_of e))
mem-nth [] e h = ground (arith, h)
mem-nth (x ∷ es) e h = elim (Bool-cases (x == e)) [
  | inl here ↦ (0, ap (λ t. some (bytes_of t)) ((list_eq_iff x e).0 here))
  | inr other ↦ let (i, at) = mem-nth es e (ground (arith, other, h)) in (suc i, at)
]

nth-log_of :
    (vs : List Text) (i : ℕ) (v : Text)
    → nth vs i ≡ some v
    → (m : Message) × (log_of vs i ≡ some m) × (m.value ≡ v)
nth-log_of vs i v h = rw h (_, refl, refl)

event_named-valid :
    (e : Text) (es : List Text)
    → mem [] es ≡ false
    → mem e es ≡ true
    → invalid_event (event_named e) ≡ false
event_named-valid [] es all_named there = ground (arith, all_named, there)
event_named-valid (c ∷ e) es all_named there = refl

-- The events of the partition are those with these IDs.
pub source_named :
    (es : List Text) (d : ObuData Grid)
    → all_utf8 es ≡ true
    → IsSource number_codec (log_of (values_of es)) d
    → (e : Text) × (mem e es ≡ true) × (event_named e ≡ d)
source_named es d all source =
    let (e, there, same) =
      nth-values_of es source.offset source.record_at.value
        (log_of-value (values_of es) source.offset source.record_at source.at_offset) in
    let back : some (event_named e) ≡ some d =
      sym (bytes_of-back e (all_utf8-mem es e all there))
      ∙ ap number_codec.decode_event (sym same)
      ∙ source.decoded in
    (e, there, ground (arith, back))

pub values_of-HoldsExactly :
    (es : List Text)
    → mem [] es ≡ false
    → all_utf8 es ≡ true
    → HoldsExactly number_codec (log_of (values_of es)) es
values_of-HoldsExactly es all_named all = record {
  sent_only = λ d source.
      let (e, there, it) = source_named es d all source in
      subst (λ x. mem x.event_id es ≡ true) it there;
  all_there = λ e there.
      let (i, at) = mem-nth es e there in
      let (m, at_i, value) = nth-log_of (values_of es) i (bytes_of e) at in
      record {
        event = event_named e;
        source = record {
          offset = i;
          record_at = m;
          at_offset = at_i;
          decoded = rw value (bytes_of-back e (all_utf8-mem es e all there));
          valid = event_named-valid e es all_named there;
        };
        same_id = refl;
      };
}

sent_one : report.sending.sent ≡ text "1-9-1" ∷ []
unfolding run_load run_fixed_rate next_event event_for_obu next_obu event_id_of itoa record_attempt
    record_success record_failure
sent_one = refl

-- The partition has the one event, and the calculator runs for three rounds.
abbrev values : List Text
values = values_of (text "1-9-1" ∷ [])

abbrev reached : KafkaConsumer Grid Cursor (Channel (Server (MemoryStore Grid)))
reached =
    arrived number_codec (log_of values) (intercepted service) (λ w. w) intercepted-IsDelivering
      (list_broker values) (λ w. false) (list_broker-IsPartition values) 3 over_grpc

one_committed : reached.broker.committed ≡ 1
unfolding start round process_message process_event int32 commit_message update_lag
    GrpcClient.aggregate intercepted Grpc.aggregate aggregate_distance insert calculate_dist
    calculate_new lookup contains put add_total mark_processed
one_committed = refl

all_passed : (i : ℕ) (m : Message) → log_of values i ≡ some m → i < 1
all_passed zero m h = omega arith
all_passed (suc i) m h = ground (arith, h)

summary_matches_aggregator_example :
    let r = reconciliation reached.downstream.world.service in
    (r.count ≡ report.summary.events_written)
    × (r.xor_hash ≡ report.summary.event_id_hash_xor)
    × (r.sum_hash ≡ report.summary.event_id_hash_sum)
unfolding list_broker-IsPartition
summary_matches_aggregator_example =
    summary_matches_aggregator number_codec (log_of values) (intercepted service) (λ w. w)
      intercepted-IsDelivering (list_broker values) (λ w. false) (list_broker-IsPartition values) 3
      over_grpc ramped course (dialer_for 2) duration_of rate_of offline report (omega arith)
      (omega arith) main_reports
      (rw sent_one (values_of-HoldsExactly (text "1-9-1" ∷ []) refl refl))
      (record { at_0 = refl; none_yet = refl; empty = refl })
      (λ i m h. omega (arith, all_passed i m h, one_committed))

abbrev samples : List (Sample Grid)
samples = sample ∷ sample ∷ []

-- What is written for the first two events of a run.
abbrev payloads : List Text
payloads =
    get_or (number_codec.encode_event (next_event ramped sample [] (zero_stats (pos 9))).0) []
    ∷ get_or
        (number_codec.encode_event
          (next_event ramped sample [] (next_event ramped sample [] (zero_stats (pos 9))).1).0)
        []
    ∷ []

payloads-AreEncoded :
    AreEncoded ramped number_codec (generated ramped samples (zero_stats (pos 9))) payloads
unfolding next_event event_for_obu padding_of
payloads-AreEncoded = (refl, (refl, tt))

generated_events_accepted_example :
    let r' = ws_receive_loop number_codec producer payloads receiving in
    (r'.producer
      ≡ (produce_all number_codec producer (generated ramped samples (zero_stats (pos 9))) []).1)
    × (r'.metrics.invalid ≡ 0)
    × (r'.metrics.received ≡ 2)
generated_events_accepted_example =
    generated_events_accepted ramped number_codec number_codec-IsCodec producer samples
      (zero_stats (pos 9)) payloads receiving (refl, (refl, tt)) payloads-AreEncoded
