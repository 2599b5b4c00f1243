-- ===== src/Kafka/Examples.antt =====
-- A token for an hour, one for half a minute, and a client with SCRAM.
use synp.Prelude.{◌≡◌, refl, true, false, Option, some, [], ◌∷◌, arith, length}
use synp.Prelude.Int.{ℤ, pos, negsuc}
use synp.Prelude.Text.{Text, codes, text_eq}
use synp.Fault.{foreign, Result, ok}
use synp.Kafka.Oauth.{
  KafkaOauthMechanism, new_kafka_oauth_mechanism, answered, no_send, get_access_token,
}
use synp.Kafka.Token.{token_reused}
use synp.Kafka.Settings.{
  KafkaConfig, TlsConfig, Mechanism, scram, version_tls13, configure_kafka_sasl,
  configure_kafka_tls,
}
use synp.Kafka.Client.{KafkaFxResult, new_kafka_client, new_writer, new_reader, load_kafka_config}
use synp.Kafka.Secured.{IsSecured, new_kafka_client-IsSecured}

abbrev mechanism : KafkaOauthMechanism
unfolding new_kafka_oauth_mechanism
mechanism = new_kafka_oauth_mechanism (codes "http://auth") (codes "synp") (codes "secret")

-- An hour for every token.
abbrev parse : Text → Result (Text × ℤ)
parse body = ok (codes "t", pos 3600)

token_reused_example :
    let r =
      get_access_token parse mechanism
        (pos 1)
        mechanism
        (pos 1)
        (answered 200 (codes "{}"))
        (pos 2) in
    (r.token ≡ ok (codes "t"))
    × (length r.requests ≡ 1)
    × (get_access_token parse r.mechanism
          (pos 5)
          r.mechanism
          (pos 5)
          (no_send (foreign (codes "timeout")))
          (pos 6)
        ≡ record { token = ok (codes "t"); mechanism = r.mechanism; requests = [] })
unfolding text_eq mechanism
token_reused_example =
    token_reused parse mechanism mechanism (pos 1) (pos 1) (codes "{}") (codes "t") 2 3600 5 (pos 5)
      (pos 6) (no_send (foreign (codes "timeout"))) refl refl refl (omega arith) refl (omega arith)

-- The pool of one certificate, and a mechanism of the two words.
abbrev append_certs : Text → Option Text
append_certs ca = some ca

abbrev sha256 : Text → Text → Result (Text × Text)
sha256 username password = ok (username, password)

abbrev config : KafkaConfig
config = record {
  brokers = codes "kafka:9092" ∷ [];
  producer = record {
    required_acks = pos 1;
    compression = codes "gzip";
    max_message_bytes = pos 1048576;
    retry_max = pos 3;
    batch_size = pos 100;
    batch_timeout = pos 10;
    write_timeout = pos 10;
    idempotent_enabled = true;
  };
  consumer = record {
    read_timeout = pos 10;
    commit_interval = pos 0;
    start_offset = negsuc 0;
    min_bytes = pos 1;
    max_bytes = pos 1048576;
    max_wait = pos 10;
  };
  tls = record { ca = codes "cert" };
  sasl = record {
    mechanism = [];
    username = codes "synp";
    password = codes "pw";
    oauth = record { endpoint = []; client_id = []; client_secret = [] };
  };
}

abbrev by_password : Mechanism (Text × Text)
by_password = scram (codes "synp", codes "pw")

abbrev certified : TlsConfig Text
certified = record {
  min_version = version_tls13;
  insecure_skip_verify = false;
  root_cas = codes "cert";
}

abbrev client : KafkaFxResult Text (Text × Text)
client = record {
  writer = new_writer config certified by_password;
  reader_create_func = new_reader config certified by_password;
}

new_kafka_client-IsSecured_example :
    (cfg : KafkaConfig) × (ok config ≡ ok cfg) × IsSecured append_certs sha256 cfg client
unfolding text_eq new_kafka_client load_kafka_config configure_kafka_tls configure_kafka_sasl
new_kafka_client-IsSecured_example =
    new_kafka_client-IsSecured append_certs sha256 (ok config) client refl
