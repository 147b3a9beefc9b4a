-- ===== src/Examples/Parties.antt =====
-- Concrete parties around the services: a Kafka partition, a client, and a network.
use toll_calc.Common.{
  ℕ, zero, suc, ◌+◌, ◌≡◌, refl, true, false, Option, none, some, inl, inr, List, [], ◌∷◌, ◌++◌,
  arith, if◌then◌else◌, Option-cases, Bool-cases, nat_eq,
}
use toll_calc.Common.Int.{pos, pos_part}
use toll_calc.Common.Eq.{List-Eq, ℕ-Eq}
use toll_calc.Common.Text.{Text, text}
use toll_calc.Common.Strings.{after_prefix}
use toll_calc.Float.Grid.{Grid, Grid-Float64}
use toll_calc.Types.{AggregateRequest}
use toll_calc.Http.{HttpRequest, HttpResponse}
use toll_calc.Aggregator.Http.{Server, new_http_handler}
use toll_calc.Aggregator.Store.{MemoryStore}
use toll_calc.Aggregator.Refinement.{service}
use toll_calc.Aggregator.Grpc.{GrpcCode}
use toll_calc.Client.{Client, grpc_status}
use toll_calc.Client.HttpClient
use toll_calc.Client.HttpClient.{Outgoing}
use toll_calc.Client.Agreement.{IsConnected, delivered}
use toll_calc.Calculator.Consumer.{Message, ReadResult, message, timed_out, Broker}
use toll_calc.Calculator.Consumer.Delivery.{IsPartition, IsReliable}
use toll_calc.Examples.Codec.{number_codec}

-- A partition with the given values, its consumer's position and the group's offset.
pub record Cursor : Type 0 where
  pub position : ℕ
  pub committed : ℕ

abbrev pub nth : List Text → ℕ → Option Text
nth [] i = none
nth (v ∷ vs) zero = some v
nth (v ∷ vs) (suc i) = nth vs i

abbrev at_offset : ℕ → Option Text → Option Message
at_offset i none = none
at_offset i (some v) =
    some (record { topic = some (text "obudata"); partition = pos 0; offset = pos i; value = v })

abbrev pub log_of : List Text → ℕ → Option Message
log_of values i = at_offset i (nth values i)

abbrev read_at : Option Message → Cursor → ReadResult × Cursor
read_at none k = (timed_out, k)
read_at (some m) k = (message m, record k { position = k.position + 1 })

abbrev pub list_broker : List Text → Broker Cursor
list_broker values = record {
  cancelled = λ k. false;
  read = λ k. read_at (log_of values k.position) k;
  commit = λ m k. (true, record k { committed = pos_part m.offset + 1 });
  seek = λ m k. (true, record k { position = pos_part m.offset });
  watermark = λ topic partition k. none;
}

pub log_of-offset :
    (values : List Text) (i : ℕ) (m : Message) → log_of values i ≡ some m → m.offset ≡ pos i
log_of-offset values i m h = elim (Option-cases (nth values i)) [
  | inl absent ↦ ground (arith, absent, h)
  | inr (v, present) ↦ ground (arith, present, h)
]

unfoldable pub list_broker-IsPartition :
    (values : List Text) → IsPartition (list_broker values) (log_of values)
list_broker-IsPartition values = record {
  position = λ k. k.position;
  committed = λ k. k.committed;
  read_message = λ k m k' h. elim (Option-cases (log_of values k.position)) [
    | inl absent ↦ absurd (ground (arith, rw absent at h))
    | inr (m', present) ↦
        let read : read_at (some m') k ≡ (message m, k') = rw present at h in
        let same : m' ≡ m = ground (arith, read) in
        (
          cc (present, same),
          log_of-offset values k.position m (cc (present, same)),
          ground (arith, read),
          ground (arith, read),
        )
  ];
  read_nothing = λ k r k' h other. elim (Option-cases (log_of values k.position)) [
    | inl absent ↦
        let read : read_at none k ≡ (r, k') = rw absent at h in
        (ground (arith, read), ground (arith, read))
    | inr (m, present) ↦
        let read : read_at (some m) k ≡ (r, k') = rw present at h in
        absurd (other m (ground (arith, read)))
  ];
  commit_acknowledged = λ k m n h done. ground (arith, h);
  commit_sets = λ k m n h. inr (ground (arith, h));
  commit_position = λ k m. refl;
  seek_committed = λ k m. refl;
  seek_position = λ k m n h done. ground (arith, h);
}

-- A client whose server takes every request but those for OBU 0.
abbrev pub recording_client : Client Grid (List (AggregateRequest Grid))
recording_client = record {
  aggregate = λ r w.
      if nat_eq (pos_part r.obu_id) 0
      then (some (grpc_status GrpcCode.invalid_argument), w)
      else (none, r ∷ w);
  get_invoice = λ id w. (inl (grpc_status GrpcCode.unimplemented), w);
  close = λ w. w;
}

data Taken (r : AggregateRequest Grid) : List (AggregateRequest Grid) → Type 0 where
  now : {w : List (AggregateRequest Grid)} → Taken r (r ∷ w)
  before :
      {q : AggregateRequest Grid} {w : List (AggregateRequest Grid)} → Taken r w → Taken r (q ∷ w)

pub recording_client-IsReliable : IsReliable recording_client
recording_client-IsReliable = record {
  Applied = Taken;
  applied_if_nil = λ r w h. elim (Bool-cases (nat_eq (pos_part r.obu_id) 0)) [
    | inl nobody ↦ absurd (ground (arith, nobody, h))
    | inr somebody ↦ rw somebody now
  ];
  applied_stays = λ r q w h. elim (Bool-cases (nat_eq (pos_part q.obu_id) 0)) [
    | inl nobody ↦ rw nobody h
    | inr somebody ↦ rw somebody (before h)
  ];
}

abbrev pub endpoint : Text
endpoint = text "http://agg/"

abbrev pub no_metrics : Server (MemoryStore Grid) → HttpResponse
no_metrics s = record { status = 200; allow = none; body = [] }

abbrev route : Outgoing → Option Text → HttpRequest
route o none = record { method = o.method; path = text "/agg"; obu = []; body = o.body }
route o (some id) = record { method = o.method; path = text "/invoice"; obu = id; body = o.body }

-- A network that takes both URLs of a client to the aggregator at `base`.
abbrev pub network_at :
    Text → Outgoing → Server (MemoryStore Grid) → Option HttpResponse × Server (MemoryStore Grid)
network_at base o s = delivered (
    new_http_handler number_codec service no_metrics
      (route o (after_prefix (base ++ text "/invoice?obu=") o.url)) s)

abbrev pub local_network :
    Outgoing → Server (MemoryStore Grid) → Option HttpResponse × Server (MemoryStore Grid)
local_network = network_at (text "http://agg")

pub local_network-IsConnected : IsConnected number_codec service no_metrics local_network endpoint
unfolding HttpClient.trim_slashes after_prefix
local_network-IsConnected = record { events = λ b s. refl; invoices = λ id s. refl }
