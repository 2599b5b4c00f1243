-- ===== src/Kafka/Client.antt =====
-- internal/pkg/providers/kafka.go: the writer, and the readers that are made on demand.
use synp.Prelude.{Bool, true, false, Option, none, some, List, if◌then◌else◌}
use synp.Prelude.Int.{ℤ, pos}
use synp.Prelude.Text.{Text, codes}
use synp.Fault.{Fault, wrap, Result, ok, err}
use synp.Kafka.Settings.{
  KafkaConfig, Compression, RequiredAcks, require_all, get_kafka_compression,
  get_kafka_required_acks, TlsConfig, Mechanism, configure_kafka_tls, configure_kafka_sasl,
}

-- The fields that the program gives to kafka.Writer, with its Transport.
pub record Writer (Pool Scram : Type 0) : Type 0 where
  pub addr : List Text
  pub compression : Compression
  pub max_attempts : ℤ
  pub batch_size : ℤ
  pub batch_timeout : ℤ
  pub read_timeout : ℤ
  pub write_timeout : ℤ
  pub required_acks : RequiredAcks
  pub async : Bool
  pub tls : TlsConfig Pool
  pub sasl : Mechanism Scram

-- And to kafka.ReaderConfig, with its Dialer.
pub record Reader (Pool Scram : Type 0) : Type 0 where
  pub brokers : List Text
  pub topic : Text
  pub group_id : Text
  pub min_bytes : ℤ
  pub max_bytes : ℤ
  pub max_wait : ℤ
  pub read_backoff_min : ℤ
  pub read_backoff_max : ℤ
  pub commit_interval : ℤ
  pub start_offset : ℤ
  pub dial_timeout : ℤ
  pub dual_stack : Bool
  pub tls : TlsConfig Pool
  pub sasl_mechanism : Mechanism Scram

pub record KafkaFxResult (Pool Scram : Type 0) : Type 0 where
  pub writer : Writer Pool Scram
  pub reader_create_func : Text → Text → Reader Pool Scram

-- `unmarshal` is viper.UnmarshalKey of the key kafka.
unfoldable pub load_kafka_config : Result KafkaConfig → Result KafkaConfig
load_kafka_config (err e) = err (wrap (codes "failed to unmarshal kafka config: ") e)
load_kafka_config (ok cfg) = ok cfg

abbrev pub acks_of : KafkaConfig → RequiredAcks
acks_of cfg =
    if cfg.producer.idempotent_enabled
    then require_all
    else get_kafka_required_acks cfg.producer.required_acks

-- OnStop, with what closing the writer returns.
abbrev pub on_stop : Option Fault → Option Fault
on_stop none = none
on_stop (some e) = some (wrap (codes "failed to close kafka writer: ") e)

module _ {Pool Scram : Type 0} where
  abbrev pub new_writer : KafkaConfig → TlsConfig Pool → Mechanism Scram → Writer Pool Scram
  new_writer cfg tls sasl = record {
    addr = cfg.brokers;
    compression = get_kafka_compression cfg.producer.compression;
    max_attempts = cfg.producer.retry_max;
    batch_size = cfg.producer.batch_size;
    batch_timeout = cfg.producer.batch_timeout;
    read_timeout = cfg.consumer.read_timeout;
    write_timeout = cfg.producer.write_timeout;
    required_acks = acks_of cfg;
    async = false;
    tls = tls;
    sasl = sasl;
  }

  abbrev pub new_reader :
      KafkaConfig → TlsConfig Pool → Mechanism Scram → Text → Text → Reader Pool Scram
  new_reader cfg tls sasl topic group_id = record {
    brokers = cfg.brokers;
    topic = topic;
    group_id = group_id;
    min_bytes = cfg.consumer.min_bytes;
    max_bytes = cfg.consumer.max_bytes;
    max_wait = cfg.consumer.max_wait;
    read_backoff_min = pos 100000000;
    read_backoff_max = pos 1000000000;
    commit_interval = cfg.consumer.commit_interval;
    start_offset = cfg.consumer.start_offset;
    dial_timeout = pos 10000000000;
    dual_stack = true;
    tls = tls;
    sasl_mechanism = sasl;
  }

module _ {Pool Scram : Type 0} (append_certs : Text → Option Pool)
    (sha256 : Text → Text → Result Scram) where
  abbrev pub with_sasl :
      KafkaConfig → TlsConfig Pool → Result (Mechanism Scram) → Result (KafkaFxResult Pool Scram)
  with_sasl cfg tls (err e) = err e
  with_sasl cfg tls (ok sasl) =
      ok (record { writer = new_writer cfg tls sasl; reader_create_func = new_reader cfg tls sasl })

  abbrev pub with_tls : KafkaConfig → Result (TlsConfig Pool) → Result (KafkaFxResult Pool Scram)
  with_tls cfg (err e) = err e
  with_tls cfg (ok tls) = with_sasl cfg tls (configure_kafka_sasl sha256 cfg.sasl)

  abbrev pub loaded : Result KafkaConfig → Result (KafkaFxResult Pool Scram)
  loaded (err e) = err e
  loaded (ok cfg) = with_tls cfg (configure_kafka_tls append_certs cfg.tls)

  unfoldable pub new_kafka_client : Result KafkaConfig → Result (KafkaFxResult Pool Scram)
  unfolding load_kafka_config get_kafka_compression get_kafka_required_acks configure_kafka_tls
      configure_kafka_sasl
  new_kafka_client unmarshal = loaded (load_kafka_config unmarshal)
