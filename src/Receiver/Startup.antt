-- ===== src/Receiver/Startup.antt =====
-- data_receiver/main.go and producer.go: what the receiver is made of. The Kafka library is a parameter.
use toll_calc.Common.{Option, none, some}
use toll_calc.Common.Text.{Text, text}
use toll_calc.Http.{Codec}
use toll_calc.Obu.Settings.{env_or}
use toll_calc.Receiver.{ReceiverSettings, new_data_receiver}
use toll_calc.Receiver.Producer.{KafkaClient, DataProducer, kafka_producer}

-- What the library is asked for.
pub record ProducerSettings : Type 0 where
  pub bootstrap_servers : Text
  pub acks : Text

-- A client of the library, and the topic.
pub record KafkaProducer (P : Type 0) : Type 0 where
  pub producer : KafkaClient P
  pub topic : Text

pub record DataReceiver (F P : Type 0) : Type 0 where
  pub prod : DataProducer F P
  pub settings : ReceiverSettings

module _ {P W : Type 0}
    -- `kafka.NewProducer`; `none` is an error
    (new_producer : ProducerSettings → W → Option (KafkaClient P) × W) (env : Text → Text) where
  abbrev made : Option (KafkaClient P) × W → Option (KafkaProducer P) × W
  made (none, w) = (none, w)
  made (some p, w) =
      (some (record { producer = p; topic = env_or env (text "KAFKA_TOPIC") (text "obudata") }), w)

  unfoldable pub new_kafka_producer : W → Option (KafkaProducer P) × W
  new_kafka_producer w = made (
      new_producer
        (record {
          bootstrap_servers = env_or env (text "KAFKA_BROKERS") (text "localhost:9092");
          acks = text "all";
        })
        w)

  module _ {F : Type 0} (codec : Codec F) where
    abbrev receiver_with : Option (KafkaProducer P) × W → Option (DataReceiver F P) × W
    receiver_with (none, w) = (none, w)
    receiver_with (some p, w) = (
      some (record {
        prod = kafka_producer codec p.producer p.topic;
        settings = new_data_receiver env;
      }),
      w,
    )

    -- `NewDataReceiver`
    unfoldable pub new_receiver : W → Option (DataReceiver F P) × W
    new_receiver w = receiver_with (new_kafka_producer w)
