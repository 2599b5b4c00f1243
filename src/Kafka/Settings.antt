-- ===== src/Kafka/Settings.antt =====
-- internal/pkg/providers/kafka.go: the configuration of Kafka, and what its words stand for.
use synp.Prelude.{
  ℕ, zero, suc, Bool, false, ◌||◌, Option, none, some, List, [], if◌then◌else◌, ◌++◌,
}
use synp.Prelude.Int.{ℤ, pos, negsuc}
use synp.Prelude.Text.{Text, codes, text_eq}
use synp.Fault.{foreign, wrap, Result, ok, err}
use synp.Kafka.Oauth.{KafkaOauthMechanism, new_kafka_oauth_mechanism}

-- Durations are nanoseconds.
pub record KafkaProducerConfig : Type 0 where
  pub required_acks : ℤ
  pub compression : Text
  pub max_message_bytes : ℤ
  pub retry_max : ℤ
  pub batch_size : ℤ
  pub batch_timeout : ℤ
  pub write_timeout : ℤ
  pub idempotent_enabled : Bool

pub record KafkaConsumerConfig : Type 0 where
  pub read_timeout : ℤ
  pub commit_interval : ℤ
  pub start_offset : ℤ
  pub min_bytes : ℤ
  pub max_bytes : ℤ
  pub max_wait : ℤ

pub record KafkaTlsConfig : Type 0 where
  pub ca : Text

pub record KafkaOauthConfig : Type 0 where
  pub endpoint : Text
  pub client_id : Text
  pub client_secret : Text

pub record KafkaSaslConfig : Type 0 where
  pub mechanism : Text
  pub username : Text
  pub password : Text
  pub oauth : KafkaOauthConfig

pub record KafkaConfig : Type 0 where
  pub brokers : List Text
  pub producer : KafkaProducerConfig
  pub consumer : KafkaConsumerConfig
  pub tls : KafkaTlsConfig
  pub sasl : KafkaSaslConfig

-- kafka.Compression and kafka.RequiredAcks, as far as the program names them.
pub data Compression : Type 0 where
  uncompressed gzip snappy lz4 zstd : Compression

pub data RequiredAcks : Type 0 where
  require_all require_none require_one : RequiredAcks

unfoldable pub get_kafka_compression : Text → Compression
get_kafka_compression compression =
    if text_eq compression (codes "gzip")
    then gzip
    else if text_eq compression (codes "snappy")
    then snappy
    else if text_eq compression (codes "lz4")
    then lz4
    else if text_eq compression (codes "zstd")
    then zstd
    else uncompressed

unfoldable pub get_kafka_required_acks : ℤ → RequiredAcks
get_kafka_required_acks (negsuc n) = require_all
get_kafka_required_acks (pos zero) = require_none
get_kafka_required_acks (pos (suc zero)) = require_one
get_kafka_required_acks (pos (suc (suc n))) = require_all

-- The configuration of TLS, with a pool of certificates.
pub record TlsConfig (Pool : Type 0) : Type 0 where
  pub min_version : ℕ
  pub insecure_skip_verify : Bool
  pub root_cas : Pool

-- tls.VersionTLS13
abbrev pub version_tls13 : ℕ
version_tls13 = 772

-- sasl.Mechanism, as the program makes one: of scram.Mechanism, or the program's own.
pub data Mechanism (Scram : Type 0) : Type 0 where
  scram : Scram → Mechanism Scram
  oauth : KafkaOauthMechanism → Mechanism Scram

module _ {Pool : Type 0} where
  abbrev pub pool_made : Option Pool → Result (TlsConfig Pool)
  pool_made none = err (foreign (codes "failed to append CA certificate to pool for kafka"))
  pool_made (some pool) =
      ok (record { min_version = version_tls13; insecure_skip_verify = false; root_cas = pool })

  -- `append_certs` is AppendCertsFromPEM on an empty pool.
  unfoldable pub configure_kafka_tls :
      (Text → Option Pool) → KafkaTlsConfig → Result (TlsConfig Pool)
  configure_kafka_tls append_certs tls =
      if text_eq tls.ca []
      then err (foreign (codes "CA file is required"))
      else pool_made (append_certs tls.ca)

-- The name of the mechanism, scram where none is given.
abbrev pub mechanism_name : KafkaSaslConfig → Text
mechanism_name cfg = if text_eq cfg.mechanism [] then codes "scram" else cfg.mechanism

module _ {Scram : Type 0} where
  abbrev pub scram_made : Result Scram → Result (Mechanism Scram)
  scram_made (err e) = err (wrap (codes "failed to create SASL/SCRAM mechanism: ") e)
  scram_made (ok mechanism) = ok (scram mechanism)

  -- `sha256` is scram.Mechanism with SHA256, of a username and a password.
  unfoldable pub configure_kafka_sasl_scram :
      (Text → Text → Result Scram) → KafkaSaslConfig → Result (Mechanism Scram)
  configure_kafka_sasl_scram sha256 cfg =
      if text_eq cfg.username [] || text_eq cfg.password []
      then err (foreign (codes "username and password are required for SCRAM authentication"))
      else scram_made (sha256 cfg.username cfg.password)

  unfoldable pub configure_kafka_sasl_oauth : KafkaOauthConfig → Result (Mechanism Scram)
  unfolding new_kafka_oauth_mechanism
  configure_kafka_sasl_oauth cfg =
      if text_eq cfg.endpoint [] || (text_eq cfg.client_id [] || text_eq cfg.client_secret [])
      then err (
          foreign (
            codes
              "token_endpoint, client_id and client_secret are required for OAuth authentication"))
      else ok (oauth (new_kafka_oauth_mechanism cfg.endpoint cfg.client_id cfg.client_secret))

  unfoldable pub configure_kafka_sasl :
      (Text → Text → Result Scram) → KafkaSaslConfig → Result (Mechanism Scram)
  unfolding configure_kafka_sasl_scram configure_kafka_sasl_oauth
  configure_kafka_sasl sha256 cfg =
      if text_eq (mechanism_name cfg) (codes "scram")
      then configure_kafka_sasl_scram sha256 cfg
      else if text_eq (mechanism_name cfg) (codes "oauth")
      then configure_kafka_sasl_oauth cfg.oauth
      else err (foreign (codes "unsupported SASL mechanism: " ++ mechanism_name cfg))
