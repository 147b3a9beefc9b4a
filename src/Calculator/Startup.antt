-- ===== src/Calculator/Startup.antt =====
-- dist-calc/main.go and the constructors of dist-calc/consumer.go: what the calculator is started with.
-- The Kafka library is a parameter.
use toll_calc.Common.{
  ◌≡◌, refl, sym, ap, ◌∙◌, subst, Bool, true, false, Option, none, some, ◌⊎◌, inl, inr, List, [],
  ◌∷◌, arith, if◌then◌else◌, Bool-cases, Option-cases,
}
use toll_calc.Common.Int.{ℤ, pos, leb_ℤ}
use toll_calc.Common.Eq.{◌==◌, List-Eq, ℕ-Eq}
use toll_calc.Common.Text.{Text, text}
use toll_calc.Common.Strings.{to_lower}
use toll_calc.Client.HttpClient.{trim_slashes}
use toll_calc.Obu.Settings.{env_or}

pub record ConsumerConfig : Type 0 where
  pub brokers : Text
  pub group_id : Text
  pub topic : Text
  pub downstream_timeout : ℤ
  pub poll_interval : ℤ

-- The client of the aggregator: its address and, over HTTP, without the slashes at its end.
pub data ClientChoice : Type 0 where
  http_client grpc_client : (endpoint : Text) → (timeout : ℤ) → ClientChoice

-- Why the process ends: `log.Fatal`.
pub data Fatal : Type 0 where
  invalid_timeout : Fatal
  unknown_protocol : Text → Fatal

-- 250 and 2000 milliseconds in nanoseconds.
abbrev pub usual_poll_interval : ℤ
usual_poll_interval = pos 250000000

abbrev pub usual_timeout : ℤ
usual_timeout = pos 2000000000

-- `NewHttpClientWithTimeout` and `NewGrpcClientWithTimeout`, whose connection is made later.
unfoldable pub new_http_client_with_timeout : Text → ℤ → ClientChoice
new_http_client_with_timeout endpoint timeout = http_client (trim_slashes endpoint) timeout

unfoldable pub new_grpc_client_with_timeout : Text → ℤ → ClientChoice
new_grpc_client_with_timeout endpoint timeout = grpc_client endpoint timeout

abbrev pub new_http_client : Text → ClientChoice
new_http_client endpoint = new_http_client_with_timeout endpoint usual_timeout

abbrev pub new_grpc_client : Text → ClientChoice
new_grpc_client endpoint = new_grpc_client_with_timeout endpoint usual_timeout

module _
    -- `time.ParseDuration`; `none` is an error
    (parse_duration : Text → Option ℤ) (env : Text → Text) where
  abbrev positive_timeout : Option ℤ → Option ℤ
  positive_timeout none = none
  positive_timeout (some t) = if leb_ℤ t (pos 0) then none else some t

  abbrev client_for : Text → ℤ → Fatal ⊎ ClientChoice
  client_for protocol timeout =
      if protocol == text "http"
      then inr (
          new_http_client_with_timeout
            (env_or env (text "AGGREGATOR_HTTP_ADDR") (text "http://localhost:4000")) timeout)
      else if protocol == text "grpc"
      then inr (
          new_grpc_client_with_timeout
            (env_or env (text "AGGREGATOR_GRPC_ADDR") (text "localhost:3001")) timeout)
      else inl (unknown_protocol protocol)

  abbrev with_timeout : Option ℤ → Fatal ⊎ ClientChoice
  with_timeout none = inl invalid_timeout
  with_timeout (some timeout) =
      client_for (to_lower (env_or env (text "AGGREGATOR_PROTOCOL") (text "grpc"))) timeout

  -- The first part of `main`.
  unfoldable pub choose_client : Fatal ⊎ ClientChoice
  choose_client = with_timeout (
      positive_timeout
        (parse_duration (env_or env (text "AGGREGATOR_REQUEST_TIMEOUT") (text "2s"))))

  positive_timeout-positive :
      (o : Option ℤ) (t : ℤ) → positive_timeout o ≡ some t → leb_ℤ t (pos 0) ≡ false
  positive_timeout-positive none t h = ground (arith, h)
  positive_timeout-positive (some d) t h = elim (Bool-cases (leb_ℤ d (pos 0))) [
    | inl small ↦ absurd (ground (arith, small, h))
    | inr large ↦
        let same : d ≡ t = ground (arith, large, h) in
        subst (λ x. leb_ℤ x (pos 0) ≡ false) same large
  ]

  abbrev pub timeout_of : ClientChoice → ℤ
  timeout_of (http_client endpoint timeout) = timeout
  timeout_of (grpc_client endpoint timeout) = timeout

  -- The timeout of the client that was chosen, if one was.
  abbrev timeout_or : ℤ → Fatal ⊎ ClientChoice → ℤ
  timeout_or t (inl e) = t
  timeout_or t (inr c) = timeout_of c

  client_for-timeout : (protocol : Text) (t : ℤ) → timeout_or t (client_for protocol t) ≡ t
  unfolding new_http_client_with_timeout new_grpc_client_with_timeout
  client_for-timeout protocol t = elim (Bool-cases (protocol == text "http")) [
    | inl http ↦ rw http refl
    | inr other ↦ elim (Bool-cases (protocol == text "grpc")) [
      | inl grpc ↦ rw (other, grpc) refl
      | inr unknown ↦ rw (other, unknown) refl
    ]
  ]

  -- A client that `main` makes has a timeout that is positive.
  pub choose_client-positive :
      (c : ClientChoice) → choose_client ≡ inr c → leb_ℤ (timeout_of c) (pos 0) ≡ false
  unfolding choose_client
  choose_client-positive c h =
      let parsed = parse_duration (env_or env (text "AGGREGATOR_REQUEST_TIMEOUT") (text "2s")) in
      elim (Option-cases (positive_timeout parsed)) [
        | inl unset ↦ absurd (ground (arith, rw unset at h))
        | inr (t, set) ↦
            let chosen = rw set at h in
            let same : timeout_of c ≡ t =
              sym (ap (timeout_or t) chosen)
              ∙ client_for-timeout
                  (to_lower (env_or env (text "AGGREGATOR_PROTOCOL") (text "grpc"))) t in
            subst (λ x. leb_ℤ x (pos 0) ≡ false) (sym same) (positive_timeout-positive parsed t set)
      ]

  unfoldable pub consumer_config : (downstream_timeout : ℤ) → ConsumerConfig
  consumer_config downstream_timeout = record {
    brokers = env_or env (text "KAFKA_BROKERS") (text "localhost:9092");
    group_id = env_or env (text "KAFKA_GROUP_ID") (text "tollify-distance-calculator");
    topic = env_or env (text "KAFKA_TOPIC") (text "obudata");
    downstream_timeout = downstream_timeout;
    poll_interval = usual_poll_interval;
  }

-- `NewKafkaConsumer`
unfoldable pub usual_config : Text → ConsumerConfig
usual_config topic = record {
  brokers = text "localhost:9092";
  group_id = text "tollify-distance-calculator";
  topic = topic;
  downstream_timeout = usual_timeout;
  poll_interval = usual_poll_interval;
}

-- What the library is asked for.
pub record KafkaSettings : Type 0 where
  pub bootstrap_servers : Text
  pub group_id : Text
  pub auto_offset_reset : Text
  pub enable_auto_commit : Bool

-- The Kafka library: a consumer `C` in a world `W`; `none` and `false` are errors.
pub record KafkaLibrary (C W : Type 0) : Type 0 where
  pub new_consumer : KafkaSettings → W → Option C × W
  pub subscribe : C → List Text → W → Bool × W
  pub close : C → W → Bool × W

-- A consumer and whether it has been closed, which happens once.
pub record Consumer (C : Type 0) : Type 0 where
  pub consumer : C
  pub config : ConsumerConfig
  pub closed : Bool

module _ {C W : Type 0} (kafka : KafkaLibrary C W) where
  abbrev subscribed : ConsumerConfig → C → Bool × W → Option (Consumer C) × W
  subscribed cfg c (true, w) = (some (record { consumer = c; config = cfg; closed = false }), w)
  subscribed cfg c (false, w) = let (_, w') = kafka.close c w in (none, w')

  abbrev created : ConsumerConfig → Option C × W → Option (Consumer C) × W
  created cfg (none, w) = (none, w)
  created cfg (some c, w) = subscribed cfg c (kafka.subscribe c (cfg.topic ∷ []) w)

  unfoldable pub new_kafka_consumer : ConsumerConfig → W → Option (Consumer C) × W
  new_kafka_consumer cfg w = created cfg (
      kafka.new_consumer
        (record {
          bootstrap_servers = cfg.brokers;
          group_id = cfg.group_id;
          auto_offset_reset = text "earliest";
          enable_auto_commit = false;
        })
        w)

  -- `Close`: `true` is a nil error.
  unfoldable pub close_consumer : Consumer C → W → Bool × Consumer C × W
  close_consumer c w =
      let (done, w') = kafka.close c.consumer w in
      if c.closed then (true, c, w) else (done, record c { closed = true }, w')

  -- A second call does nothing and returns no error.
  pub close_consumer_again :
      (c : Consumer C) (w v : W)
      → let (_, c', _) = close_consumer c w in close_consumer c' v ≡ (true, c', v)
  unfolding close_consumer
  close_consumer_again c w v = elim (Bool-cases c.closed) [
    | inl shut ↦ rw shut refl
    | inr usable ↦ rw usable refl
  ]
