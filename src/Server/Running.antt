-- ===== src/Server/Running.antt =====
-- internal/ws/server.go: NewServer, Start, Shutdown and GracefulShutdown, with config.go, options.go
-- and the consumers of internal/pkg/providers/kafka_consumer.go.
use synp.Prelude.{
  ℕ, suc, Bool, true, false, ◌||◌, Option, none, some, List, [], ◌∷◌, ◌++◌, if◌then◌else◌, ◌≡◌,
}
use mathlib.Core.List.{foldl}
use synp.Prelude.Int.{ℤ, pos, negsuc}
use synp.Prelude.Text.{Text, codes, text_eq, decimal}
use synp.Prelude.Dict.{lookup}
use synp.Fault.{Fault, wrap, foreign, Result, ok, err}
use synp.Limiter.{TokenLimiter, default_config, new_token_limiter, close}
use synp.Mq.{KafkaConsumer}
use synp.Gateway
use synp.Gateway.{Consumer, new_consumer}

pub record Config : Type 0 where
  pub host : Text
  pub port : ℤ
  pub network : Text
  pub enable_local_mode : Bool

-- The flags have their defaults when they are read, since nothing has parsed the command line.
unfoldable pub default_config_of_server : Config
default_config_of_server = record {
  host = codes "0.0.0.0";
  port = pos 17001;
  network = codes "tcp4";
  enable_local_mode = false;
}

abbrev pub printed : ℤ → Text
printed (pos n) = decimal n
printed (negsuc n) = 45 ∷ decimal (suc n)

unfoldable pub address : Config → Text
unfolding decimal
address cfg =
    if text_eq cfg.network (codes "unix")
    then cfg.host
    else cfg.host ++ (codes ":" ++ printed cfg.port)

-- `listening` says that there is a listener that is open, `ctx_done` that the context was cancelled,
-- and `accepting` counts the goroutines of acceptConn that were started.
pub record Server : Type 0 where
  pub config : Config
  pub consumers : List (Text × Consumer)
  pub conn_limiter : TokenLimiter
  pub accept_new_conn : Bool
  pub listening : Bool
  pub accepting : ℕ
  pub ctx_done : Bool

unfoldable pub svr_with_conn_limiter : TokenLimiter → Server → Server
svr_with_conn_limiter l s = record s { conn_limiter = l }

-- option.Apply of the jit package applies the options in order.
pub record ServerOptions : Type 0 where
  pub apply : Server → List (Server → Server) → Server
  pub apply_lem :
      (s : Server) (opts : List (Server → Server)) → apply s opts ≡ foldl (λ s o. o s) s opts

abbrev pub with_limiter :
    ServerOptions
    → Config
    → List (Text × Consumer)
    → List (Server → Server)
    → Option TokenLimiter
    → Option Server
with_limiter pkg config consumers opts none = none
with_limiter pkg config consumers opts (some l) = some (
    pkg.apply
      (record {
        config = config;
        consumers = consumers;
        conn_limiter = l;
        accept_new_conn = true;
        listening = false;
        accepting = 0;
        ctx_done = false;
      })
      opts)

-- NewServer; `none` would be the panic of NewTokenLimiter.
unfoldable pub new_server :
    ServerOptions → Config → List (Text × Consumer) → List (Server → Server) → Option Server
unfolding default_config new_token_limiter
new_server pkg config consumers opts =
    with_limiter pkg config consumers opts (new_token_limiter default_config)

-- gateway.EventPushMessage and gateway.EventScaleUp
abbrev pub is_event : Text → Bool
is_event key = text_eq key (codes "push_message") || text_eq key (codes "scale_up")

-- What became of the consumers: the error, and what Start of each that was reached has done.
pub record Consuming : Type 0 where
  pub error : Option Fault
  pub started : List (Text × Gateway.Progress)

abbrev pub joined : Consuming → Text → Gateway.Progress → Option Fault → Consuming
joined rest key p none = record rest { started = (key, p) ∷ rest.started }
joined rest key p (some e) = record { error = some e; started = (key, p) ∷ [] }

-- A consumer of the table is started; the rest is the loop for the keys behind.
abbrev pub consumer_started :
    (Text → ℕ → Result KafkaConsumer)
    → Option Fault
    → Consuming
    → Text
    → Option Consumer
    → Consuming
consumer_started factory ctx rest key none = rest
consumer_started factory ctx rest key (some c) =
    let p = Gateway.start (factory key) ctx c.partitions in joined rest key p p.error

-- The loop over the keys, in the order in which they are given. `factory` is what NewConsumer of the
-- factory returns, by the key and the partition, and `ctx` the error of the server's context.
unfoldable pub start_consumers :
    (Text → ℕ → Result KafkaConsumer)
    → Option Fault
    → List (Text × Consumer)
    → List Text
    → Consuming
unfolding lookup Gateway.start
start_consumers factory ctx table [] = record { error = none; started = [] }
start_consumers factory ctx table (key ∷ keys) =
    let rest = start_consumers factory ctx table keys in
    if is_event key then consumer_started factory ctx rest key (lookup key table) else rest

-- The error of the server's context.
abbrev pub ctx_err : Server → Option Fault
ctx_err s = if s.ctx_done then some (foreign (codes "context canceled")) else none

-- Start, with the error of net.Listen
unfoldable pub start :
    (Text → ℕ → Result KafkaConsumer) → List Text → Option Fault → Server → Consuming × Server
unfolding start_consumers
start factory keys (some e) s = (record { error = some e; started = [] }, s)
start factory keys none s = (
  start_consumers factory (ctx_err s) s.consumers keys,
  record s { listening = true; accepting = suc s.accepting },
)

unfoldable pub shutdown : Server → Option Fault × Server
unfolding close
shutdown s = (none, record s { conn_limiter = close s.conn_limiter; ctx_done = true })

-- GracefulShutdown up to its wait; an error of the listener's Close is only logged.
unfoldable pub drain : Server → Server
drain s = record s { accept_new_conn = false; listening = false }

-- And from the wait on: `none` means that it still waits for the context.
unfoldable pub awaited : Server → Option (Option Fault × Server)
unfolding shutdown
awaited s = if s.ctx_done then some (shutdown s) else none

-- pushMessageConsumer, with what viper reads: the topic, the group and the partitions.
unfoldable pub push_message_consumer : Result (Text × (Text × ℤ)) → Result Consumer
unfolding new_consumer
push_message_consumer (err e) =
    err (wrap (codes "failed to unmarshal push message consumer config: ") e)
push_message_consumer (ok (topic, (group_id, partitions))) =
    ok (new_consumer topic group_id partitions)

abbrev pub consumer_table : Result Consumer → Result (List (Text × Consumer))
consumer_table (err e) = err (wrap (codes "failed to create push message consumer: ") e)
consumer_table (ok c) = ok ((codes "push_message", c) ∷ [])

unfoldable pub new_kafka_consumers : Result (Text × (Text × ℤ)) → Result (List (Text × Consumer))
unfolding push_message_consumer
new_kafka_consumers config = consumer_table (push_message_consumer config)
