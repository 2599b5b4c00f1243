-- ===== src/Wiring/Examples.antt =====
-- A limit that does not fit an int32, an interval that is not positive, and the program with the
-- configuration of the repository.
use synp.Prelude.{ℕ, ◌<◌, true, false, ◌≡◌, refl, ap, subst, Option, none, some, [], ◌∷◌}
use mathlib.Core.List.{foldl}
use synp.Prelude.Int.{ℤ, pos, pos_part, mul64}
use synp.Prelude.Text.{Text, codes, text_eq}
use synp.SyncMap.{SyncMap, list_map}
use synp.Fault.{foreign, Result, ok, err}
use synp.Compression
use synp.Conn.Settings.{ConnConfig}
use synp.Retransmit.{Task, Manager, new_manager}
use synp.Handlers.{Answers, frontend_msg_handler}
use synp.Upgrader.{Inputs}
use synp.Codec.{new_codec, json_codec}
use synp.Limiter.{default_config, new_token_limiter}
use synp.Mq.{KafkaConsumer, new_kafka_consumer}
use synp.Gateway.{kafka_factory, new_consumer}
use synp.Server.Running.{
  Server, ServerOptions, default_config_of_server, new_server, new_kafka_consumers,
  push_message_consumer,
}
use synp.Wiring.{
  RetransmitConfig, int32, new_retransmit_manager, new_ws_upgrader, conn_manager_config,
  load_config, merge_all,
}
use synp.Wiring.Sound.{IsSound, new_retransmit_manager-IsSound}
use synp.Wiring.Program.{
  Surroundings, Program, LifecycleConfig, development, running, main, new_logger, new_redis_cmdable,
  new_validator, new_conn_lc_handler, init_app, new_frontend_msg_handler, on_start, on_stop,
  stopped,
}
use synp.Wiring.Running.{starts_app, hooked, all_started, main_lem}

abbrev ops : SyncMap Task
ops = list_map Task

abbrev shipped_compression : Compression.Config
shipped_compression = record {
  enabled = true;
  server_max_window_bits = pos 15;
  server_no_context_takeover = false;
  client_max_window_bits = pos 15;
  client_no_context_takeover = false;
  level = pos 6;
}

abbrev shipped_lifecycle : LifecycleConfig
shipped_lifecycle = record {
  cache_request_timeout = pos 10000000000;
  cache_expiration = pos 10000000000;
}

abbrev shipped_conn : ConnConfig
shipped_conn = record {
  read_timeout = pos 15000000000;
  write_timeout = pos 10000000000;
  init_retry_interval = pos 1000000000;
  max_retry_interval = pos 5000000000;
  max_retry_count = pos 3;
  send_buffer_size = pos 256;
  receive_buffer_size = pos 256;
  close_timeout = pos 1000000000;
  rate_limit = pos 0;
}

abbrev too_many : RetransmitConfig
too_many = record { interval = pos 0; max_retry = pos 4294967296 }

abbrev by_default : Manager ops
by_default = record {
  tasks = ops.empty;
  total_task_cnt = 0;
  retry_interval = 8000000000;
  max_retry_cnt = 3;
  closed = false;
  retired = [];
}

new_retransmit_manager-IsSound_example : IsSound ops by_default []
unfolding new_retransmit_manager int32 mul64 new_manager
new_retransmit_manager-IsSound_example =
    new_retransmit_manager-IsSound ops (ok too_many) by_default [] refl

-- The configuration files of the repository: config/base.yaml, redis.yaml and kafka.yaml. viper leaves a
-- configuration empty whose key it does not find, as those of the logger, of retransmit and of the
-- handler of upstream messages.
abbrev shipped : Surroundings
shipped = record {
  read = λ name. none;
  merge = λ name. none;
  project = ok [];
  zap = λ kind. none;
  redis = ok (record { addr = codes "192.168.3.3:6379"; password = codes "<passwd>" });
  kafka = none;
  jwt = ok (record { issuer = codes "hermet-access"; private_key = []; public_key = codes "key" });
  build = λ issuer public_key. ok (λ token. ok (1, 7));
  codec = ok (codes "json");
  retransmit = ok (record { interval = pos 0; max_retry = pos 0 });
  frontend = ok (record { topic = []; on_receive_timeout = pos 0 });
  compression = ok shipped_compression;
  handler = ok shipped_lifecycle;
  conn_manager = ok shipped_conn;
  consumers = ok (codes "event.message.downstream", (codes "synp-gateway-downstream", pos 6));
}

abbrev inputs : Inputs
inputs = record {
  query = λ uri. none;
  equal_fold = text_eq;
  decrypt = λ token. err (foreign (codes "no key"));
}

abbrev answers : Answers
answers = record {
  push = λ c m. none;
  marshal_message = λ m. ok m.body;
  marshal_ack = λ p. ok p.error_message;
  produce = λ m. none;
  now = 0;
}

abbrev options : ServerOptions
options = record { apply = λ s opts. foldl (λ s o. o s) s opts; apply_lem = λ s opts. refl }

abbrev server : Server
unfolding default_config_of_server
server = record {
  config = default_config_of_server;
  consumers =
      (
        codes "push_message",
        record {
          topic = codes "event.message.downstream";
          group_id = codes "synp-gateway-downstream";
          partitions = pos 6;
          cancelled = false;
        },
      )
      ∷ [];
  conn_limiter = record {
    cfg = record {
      init_capacity = pos 2000;
      max_capacity = pos 50000;
      increase_step = pos 500;
      increase_interval = pos 2000000000;
    };
    tokens = 2000;
    chan_cap = 2000;
    curr_capacity = pos 2000;
    cancelled = false;
  };
  accept_new_conn = true;
  listening = false;
  accepting = 0;
  ctx_done = false;
}

-- The program that runs has no topic for the messages of its clients, and no time to forward one.
abbrev program : Program ops
unfolding server frontend_msg_handler
program = record {
  logger = development;
  redis = record { addr = codes "192.168.3.3:6379"; password = codes "<passwd>" };
  inputs = record inputs { decrypt = λ token. ok (1, 7) };
  codec = json_codec;
  manager = by_default;
  frontend = record { handler = frontend_msg_handler ops answers []; on_receive_timeout = pos 0 };
  compression = shipped_compression;
  lifecycle = shipped_lifecycle;
  conn_config = shipped_conn;
  app = record { ws_svr = server };
}

program_eq : main ops options inputs answers shipped ≡ running program
unfolding main program server load_config merge_all new_logger text_eq new_redis_cmdable
    new_validator new_codec new_retransmit_manager int32 mul64 new_manager new_ws_upgrader
    new_conn_lc_handler conn_manager_config new_kafka_consumers push_message_consumer new_consumer
    init_app new_server default_config new_token_limiter new_frontend_msg_handler
program_eq = refl

-- Readers as kafka.NewReader makes them: none without a topic.
abbrev create : Text → Text → Option Text
create [] group_id = none
create (c ∷ cs) group_id = some group_id

-- What the factory for Kafka returns for such readers.
abbrev made : Text → ℕ → Result KafkaConsumer
made key i = ok new_kafka_consumer

abbrev config_of : Result (Text × (Text × ℤ)) → Text × (Text × ℤ)
config_of (err e) = ([], ([], pos 0))
config_of (ok c) = c

readers_made :
    (c : Text × (Text × ℤ))
    → shipped.consumers ≡ ok c
    → (i : ℕ) → i < pos_part c.1.1
    → kafka_factory create c.0 c.1.0 ≡ some (made (codes "push_message") i)
unfolding kafka_factory
readers_made c e i b =
    subst (λ x. kafka_factory create x.0 x.1.0 ≡ some (made (codes "push_message") i))
      (ap config_of e) refl

main_lem_example :
    ((load_config shipped.read shipped.merge).error ≡ none)
    × IsSound ops program.manager []
    × ((c : Text × (Text × ℤ)) × (shipped.consumers ≡ ok c)
        × ((on_start made (codes "push_message" ∷ []) none program.app).0
            ≡ all_started ops options c.1.1))
    × (stopped
          (on_stop (hooked made (starts_app (codes "push_message" ∷ []) none ∷ []) program.app))
        ≡ none)
unfolding program server
main_lem_example =
    main_lem ops options inputs answers create made shipped program
      (starts_app (codes "push_message" ∷ []) none ∷ []) [] readers_made program_eq
