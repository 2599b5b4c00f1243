-- ===== src/Lifecycle/Threads.antt =====
-- internal/ws/conn/lifecycle/handler.go with messages that arrive at the same time: OnReceiveFromFrontend
-- in goroutines that are interleaved at its calls of Redis and of the message handler.
pub mod Moves
pub mod Exclusive
mod Examples
use synp.Prelude.{ℕ, Bool, Option, none, some, List, [], ◌∷◌, if◌then◌else◌}
use synp.Prelude.Text.{Text}
use synp.Prelude.Goroutines.{place, moved}
use synp.Redis.{Redis}
use synp.SyncMap.{SyncMap}
use synp.Fault.{Fault, Result, ok, err}
use synp.Message.{Message, CommandType}
use synp.Conn.{Conn}
use synp.Retransmit.{Task}
use synp.Lifecycle.{decode_payload, need_uncache_message, cache_message_of, uncache_message_of}

-- Where a goroutine stands, with the connection and the decoded message.
pub data Pc : Type 0 where
  idle : Pc
  caching handling uncaching : Conn → Message → Pc  -- before SetNX, before the end of Handle, before Del

-- A message that a handler was called for, with what it returned.
pub record Handled : Type 0 where
  pub conn : Conn
  pub msg : Message
  pub outcome : Option Fault

-- A turn: the goroutine, the call that it begins where it is idle, and what Handle returns to it.
pub record Turn : Type 0 where
  pub goroutine : ℕ
  pub conn : Conn
  pub payload : Text
  pub outcome : Option Fault

abbrev pub received : Conn → Result Message → Pc
received conn (err e) = idle
received conn (ok msg) = caching conn msg

abbrev pub cached : Conn → Message → Result Bool → Pc
cached conn msg (err e) = idle
cached conn msg (ok fresh) = if fresh then handling conn msg else idle

unfoldable pub returned : Conn → Message → Option Fault → Pc
unfolding need_uncache_message
returned conn msg none = idle
returned conn msg (some e) = if need_uncache_message e then uncaching conn msg else idle

-- `known` says which commands have a handler.
module _ (redis : Redis) (ops : SyncMap Task) (unmarshal : Text → Result Message)
    (known : CommandType → Bool) where
  -- `handled` lists the messages for which Handle has returned, the last first.
  pub record Shared : Type 0 where
    pub state : redis.State
    pub handled : List Handled

  pub record System : Type 0 where
    pub mem : Shared
    pub pcs : List Pc

  abbrev pub handled_one : Conn → Message → Option Fault → Shared → Shared × Pc
  handled_one conn msg outcome m = (
    record m { handled = record { conn = conn; msg = msg; outcome = outcome } ∷ m.handled },
    returned conn msg outcome,
  )

  unfoldable pub move : Turn → Pc → Shared → Shared × Pc
  unfolding decode_payload cache_message_of uncache_message_of
  move t idle m = (m, received t.conn (decode_payload unmarshal t.payload))
  move t (caching conn msg) m =
      let r = cache_message_of redis ops m.state conn.user.bid msg in
      (record m { state = r.1 }, cached conn msg r.0)
  move t (handling conn msg) m =
      if known msg.cmd then handled_one conn msg t.outcome m else (m, idle)
  move t (uncaching conn msg) m =
      (record m { state = (uncache_message_of redis ops m.state conn.user.bid msg).1 }, idle)

  abbrev pub turn : Turn → System → Option Pc → System
  turn t s none = s
  turn t s (some pc) =
      let r = move t pc s.mem in record { mem = r.0; pcs = moved s.pcs t.goroutine r.1 }

  unfoldable pub step : Turn → System → System
  unfolding move
  step t s = turn t s (place s.pcs t.goroutine)

  unfoldable pub run : List Turn → System → System
  unfolding step
  run [] s = s
  run (t ∷ ts) s = run ts (step t s)
