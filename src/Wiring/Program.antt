-- ===== src/Wiring/Program.antt =====
-- The program as a whole: cmd/main.go with the constructors that fx calls, of internal/app/app.go,
-- internal/ws/conn/lifecycle/module.go and the files zap_logger.go, redis.go, validator.go and message_handler.go of
-- internal/pkg/providers.
use synp.Prelude.{ℕ, Option, none, some, List, [], if◌then◌else◌}
use synp.Prelude.Int.{ℤ, pos, mul64}
use synp.Prelude.Text.{Text, codes, text_eq}
use synp.SyncMap.{SyncMap}
use synp.Fault.{Fault, foreign, Result, ok, err}
use synp.Compression
use synp.Conn.Settings.{ConnConfig}
use synp.Retransmit.{Task, Manager}
use synp.Handlers.{UMsgHandler, Answers, frontend_msg_handler}
use synp.Upgrader.{Inputs}
use synp.Codec.{Codec, new_codec}
use synp.Mq.{KafkaConsumer}
use synp.Gateway.{Consumer}
use synp.Server.Running.{
  Server, ServerOptions, default_config_of_server, new_server, start, drain, awaited,
  new_kafka_consumers, Consuming,
}
use synp.Wiring.{
  RetransmitConfig, new_retransmit_manager, new_ws_upgrader, conn_manager_config, load_config,
}

-- newLogger: the kind of logger for the environment, with what zap returns for it.
pub data LoggerKind : Type 0 where
  production development : LoggerKind

abbrev pub logger_kind : Text → LoggerKind
logger_kind env = if text_eq env (codes "prod") then production else development

abbrev pub logger_made : LoggerKind → Option Fault → Result LoggerKind
logger_made kind none = ok kind
logger_made kind (some e) = err e

unfoldable pub new_logger : Result Text → (LoggerKind → Option Fault) → Result LoggerKind
new_logger (err e) zap = err e
new_logger (ok env) zap = logger_made (logger_kind env) (zap (logger_kind env))

-- newRedisCmdable: the client is made without a connection.
pub record RedisConfig : Type 0 where
  pub addr : Text
  pub password : Text

unfoldable pub new_redis_cmdable : Result RedisConfig → Result RedisConfig
new_redis_cmdable (err e) = err e
new_redis_cmdable (ok cfg) = ok cfg

pub record JwtConfig : Type 0 where
  pub issuer : Text
  pub private_key : Text
  pub public_key : Text

-- newValidator; `build` makes a verifier of the issuer and the public key.
abbrev pub validating : Inputs → Result (Text → Result (ℕ × ℕ)) → Result Inputs
validating inputs (err e) = err e
validating inputs (ok decrypt) = ok (record inputs { decrypt = decrypt })

unfoldable pub new_validator :
    Inputs → (Text → Text → Result (Text → Result (ℕ × ℕ))) → Result JwtConfig → Result Inputs
new_validator inputs build (err e) = err e
new_validator inputs build (ok cfg) = validating inputs (build cfg.issuer cfg.public_key)

-- The configuration of the handler of upstream messages; newFrontendMsgHandler panics without it.
pub record FrontendConfig : Type 0 where
  pub topic : Text
  pub on_receive_timeout : ℤ

pub record Frontend (ops : SyncMap Task) : Type 0 where
  pub handler : UMsgHandler ops
  pub on_receive_timeout : ℤ

unfoldable pub new_frontend_msg_handler :
    (ops : SyncMap Task) → Answers → FrontendConfig → Frontend ops
unfolding mul64 frontend_msg_handler
new_frontend_msg_handler ops answers cfg = record {
  handler = frontend_msg_handler ops answers cfg.topic;
  on_receive_timeout = mul64 cfg.on_receive_timeout (pos 1000000);
}

-- newConnLcHandler: what the handler of connection events is made with.
pub record LifecycleConfig : Type 0 where
  pub cache_request_timeout : ℤ
  pub cache_expiration : ℤ

unfoldable pub new_conn_lc_handler : Result LifecycleConfig → Result LifecycleConfig
new_conn_lc_handler (err e) = err e
new_conn_lc_handler (ok cfg) = ok cfg

-- The app, and the two hooks that initApp gives to fx. `none` is the panic of NewServer.
pub record App : Type 0 where
  pub ws_svr : Server

abbrev pub app_of : Option Server → Option App
app_of none = none
app_of (some s) = some (record { ws_svr = s })

unfoldable pub init_app : ServerOptions → List (Text × Consumer) → Option App
unfolding new_server default_config_of_server
init_app pkg consumers = app_of (new_server pkg default_config_of_server consumers [])

unfoldable pub on_start :
    (Text → ℕ → Result KafkaConsumer) → List Text → Option Fault → App → Consuming × App
unfolding start
on_start factory keys listen app =
    let r = start factory keys listen app.ws_svr in (r.0, record { ws_svr = r.1 })

-- GracefulShutdown up to its wait, and from it on: `none` means that it still waits.
unfoldable pub on_stop : App → App
unfolding drain
on_stop app = record { ws_svr = drain app.ws_svr }

unfoldable pub stopped : App → Option (Option Fault × Server)
unfolding awaited
stopped app = awaited app.ws_svr

-- What main meets: the configuration files, the keys that viper reads, what zap, the JWT package and
-- newKafkaClient return.
pub record Surroundings : Type 0 where
  pub read : Text → Option Fault
  pub merge : Text → Option Fault
  pub project : Result Text
  pub zap : LoggerKind → Option Fault
  pub redis : Result RedisConfig
  pub kafka : Option Fault
  pub jwt : Result JwtConfig
  pub build : Text → Text → Result (Text → Result (ℕ × ℕ))
  pub codec : Result Text
  pub retransmit : Result RetransmitConfig
  pub frontend : Result FrontendConfig
  pub compression : Result Compression.Config
  pub handler : Result LifecycleConfig
  pub conn_manager : Result ConnConfig
  pub consumers : Result (Text × (Text × ℤ))

pub record Program (ops : SyncMap Task) : Type 0 where
  pub logger : LoggerKind
  pub redis : RedisConfig
  pub inputs : Inputs
  pub codec : Codec
  pub manager : Manager ops
  pub frontend : Frontend ops
  pub compression : Compression.Config
  pub lifecycle : LifecycleConfig
  pub conn_config : ConnConfig
  pub app : App

-- main panics, fx logs the error of a constructor and ends the program, or the program runs.
pub data Outcome (ops : SyncMap Task) : Type 0 where
  panicked : Fault → Outcome ops
  failed : Fault → Outcome ops
  running : Program ops → Outcome ops

module _ (ops : SyncMap Task) where
  abbrev pub with_app : Option App → (App → Program ops) → Outcome ops
  with_app none made = panicked (foreign (codes "invalid limiter config"))
  with_app (some app) made = running (made app)

  module _ (pkg : ServerOptions) (inputs : Inputs) (answers : Answers) where
    -- What becomes of the program, by what the constructors return. fx chooses an order of them in which
    -- each has its parameters; this is one.
    abbrev pub assembled :
        Option Fault
        → Result LoggerKind
        → Result RedisConfig
        → Option Fault
        → Result Inputs
        → Result Codec
        → Result (Manager ops)
        → Result FrontendConfig
        → Result Compression.Config
        → Result LifecycleConfig
        → Result ConnConfig
        → Result (List (Text × Consumer))
        → Outcome ops
    assembled (some e) _ _ _ _ _ _ _ _ _ _ _ = panicked e
    assembled none (err e) _ _ _ _ _ _ _ _ _ _ = failed e
    assembled none (ok l) (err e) _ _ _ _ _ _ _ _ _ = failed e
    assembled none (ok l) (ok r) (some e) _ _ _ _ _ _ _ _ = failed e
    assembled none (ok l) (ok r) none (err e) _ _ _ _ _ _ _ = failed e
    assembled none (ok l) (ok r) none (ok v) (err e) _ _ _ _ _ _ = failed e
    assembled none (ok l) (ok r) none (ok v) (ok c) (err e) _ _ _ _ _ = failed e
    assembled none (ok l) (ok r) none (ok v) (ok c) (ok m) (err e) _ _ _ _ = panicked e
    assembled none (ok l) (ok r) none (ok v) (ok c) (ok m) (ok f) (err e) _ _ _ = failed e
    assembled none (ok l) (ok r) none (ok v) (ok c) (ok m) (ok f) (ok u) (err e) _ _ = failed e
    assembled none (ok l) (ok r) none (ok v) (ok c) (ok m) (ok f) (ok u) (ok h) (err e) _ = failed e
    assembled none (ok l) (ok r) none (ok v) (ok c) (ok m) (ok f) (ok u) (ok h) (ok n) (err e) =
        failed e
    assembled none (ok l) (ok r) none (ok v) (ok c) (ok m) (ok f) (ok u) (ok h) (ok n) (ok t) =
        with_app (init_app pkg t) (λ app. record {
          logger = l;
          redis = r;
          inputs = v;
          codec = c;
          manager = m;
          frontend = new_frontend_msg_handler ops answers f;
          compression = u;
          lifecycle = h;
          conn_config = n;
          app = app;
        })

    unfoldable pub main : Surroundings → Outcome ops
    unfolding load_config new_logger new_redis_cmdable new_validator new_codec
        new_retransmit_manager new_ws_upgrader new_conn_lc_handler conn_manager_config
        new_kafka_consumers
    main s =
        assembled (load_config s.read s.merge).error (new_logger s.project s.zap)
          (new_redis_cmdable s.redis) s.kafka (new_validator inputs s.build s.jwt)
          (new_codec s.codec) (new_retransmit_manager ops s.retransmit) s.frontend
          (new_ws_upgrader s.compression) (new_conn_lc_handler s.handler)
          (conn_manager_config s.conn_manager) (new_kafka_consumers s.consumers)
