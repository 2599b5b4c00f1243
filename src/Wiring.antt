-- ===== src/Wiring.antt =====
-- What the application makes its parts with: cmd/main.go, the providers retransmit.go and
-- redis.go of internal/pkg/providers, and the modules internal/ws/module.go and internal/ws/conn/module.go.
pub mod Sound
pub mod Program
pub mod Running
mod Examples
use synp.Prelude.{ℕ, ◌-◌, ◌%◌, Option, none, some, List, [], ◌∷◌, ◌++◌, if◌then◌else◌, ltb, Bool}
use synp.Prelude.Int.{ℤ, pos, negsuc, sub_ℕ, mul64}
use synp.Prelude.Text.{Text, codes}
use synp.Prelude.Word.{word32}
use synp.SyncMap.{SyncMap}
use synp.Fault.{Fault, wrap, Result, ok, err}
use synp.Compression
use synp.Conn.Settings.{ConnConfig}
use synp.Retransmit.{Task, Manager, new_manager}

-- The conversion of an int to an int32, which keeps the last 32 bits.
abbrev pub signed32 : ℕ → ℤ
signed32 r = if ltb r 2147483648 then pos r else sub_ℕ r word32

unfoldable pub int32 : ℤ → ℤ
int32 (pos n) = signed32 (n % word32)
int32 (negsuc n) = signed32 (word32 - 1 - n % word32)

-- The configuration of retransmit, with milliseconds.
pub record RetransmitConfig : Type 0 where
  pub interval : ℤ
  pub max_retry : ℤ

-- newRetransmitManager, with what viper reads; the hook of its end calls Close.
unfoldable pub new_retransmit_manager :
    (ops : SyncMap Task) → Result RetransmitConfig → Result (Manager ops)
unfolding int32 mul64 new_manager
new_retransmit_manager ops (err e) = err e
new_retransmit_manager ops (ok cfg) =
    ok (new_manager ops (mul64 cfg.interval (pos 1000000)) (int32 cfg.max_retry))

-- newWsUpgrader: the fields of the configuration are copied.
unfoldable pub new_ws_upgrader : Result Compression.Config → Result Compression.Config
new_ws_upgrader (err e) = err e
new_ws_upgrader (ok cfg) = ok (record {
  enabled = cfg.enabled;
  server_max_window_bits = cfg.server_max_window_bits;
  server_no_context_takeover = cfg.server_no_context_takeover;
  client_max_window_bits = cfg.client_max_window_bits;
  client_no_context_takeover = cfg.client_no_context_takeover;
  level = cfg.level;
})

-- newConnManager: the configuration that the connection manager is made with.
unfoldable pub conn_manager_config : Result ConnConfig → Result ConnConfig
conn_manager_config (err e) = err e
conn_manager_config (ok cfg) = ok (record {
  read_timeout = cfg.read_timeout;
  write_timeout = cfg.write_timeout;
  init_retry_interval = cfg.init_retry_interval;
  max_retry_interval = cfg.max_retry_interval;
  max_retry_count = cfg.max_retry_count;
  send_buffer_size = cfg.send_buffer_size;
  receive_buffer_size = cfg.receive_buffer_size;
  close_timeout = cfg.close_timeout;
  rate_limit = cfg.rate_limit;
})

-- The hooks of Redis, with what Ping and Close return.
abbrev pub redis_on_start : Option Fault → Option Fault
redis_on_start none = none
redis_on_start (some e) = some (wrap (codes "failed to ping redis: ") e)

abbrev pub redis_on_stop : Option Fault → Option Fault
redis_on_stop none = none
redis_on_stop (some e) = some (wrap (codes "failed to close redis: ") e)

-- What loadConfig does: the files that it asks viper for, and its error.
pub record Loading : Type 0 where
  pub names : List Text
  pub error : Option Fault

abbrev pub merged : Text → Loading → Option Fault → Loading
merged name rest none = record rest { names = name ∷ rest.names }
merged name rest (some e) = record {
  names = name ∷ [];
  error = some (wrap (codes "failed to merge " ++ (name ++ codes " config: ")) e);
}

-- The loop over the names; `merge` is MergeInConfig.
unfoldable pub merge_all : (Text → Option Fault) → List Text → Loading
merge_all merge [] = record { names = []; error = none }
merge_all merge (name ∷ names) = let rest = merge_all merge names in merged name rest (merge name)

abbrev pub after_base : (Text → Option Fault) → Option Fault → Loading
after_base merge none =
    merged (codes "base") (merge_all merge (codes "redis" ∷ codes "kafka" ∷ [])) none
after_base merge (some e) = record {
  names = codes "base" ∷ [];
  error = some (wrap (codes "failed to read base config: ") e);
}

-- loadConfig; `read` is ReadInConfig, and main panics with the error.
unfoldable pub load_config : (Text → Option Fault) → (Text → Option Fault) → Loading
unfolding merge_all
load_config read merge = after_base merge (read (codes "base"))
