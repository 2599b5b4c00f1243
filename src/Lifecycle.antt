-- ===== src/Lifecycle.antt =====
-- internal/ws/conn/lifecycle/handler.go: what happens to a message from a client and to one from the
-- business servers. Redis, the codec and the handlers' answers are parameters.
pub mod Cache
pub mod Program
pub mod Registered
pub mod Disconnected
pub mod Threads
mod Examples
use synp.Prelude.{
  ℕ, ◌++◌, Bool, true, false, ◌&&◌, ◌||◌, not, Option, none, some, List, [], ◌∷◌, if◌then◌else◌,
  ◌==◌,
}
use synp.Prelude.Text.{Text, codes, decimal, colon, text_eq}
use synp.Redis.{Redis}
use synp.SyncMap.{SyncMap}
use synp.Fault.{
  Fault, sentinel, detail, join, Result, ok, err, is, invalid_message, cache_message,
  uncache_message, message_duplicated, unknown_message_type, max_retry_exceeded,
}
use synp.Message.{Message, CommandType, CommandType-discrete, heartbeat}
use synp.Session.{User}
use synp.Conn.{Conn}
use synp.Retransmit.{Task}
use synp.Handlers.{World, UMsgHandler, PushMessage, Answers, backend_handle}
use mathlib.Core.Logic.{ite}

unfoldable pub is_cmd : CommandType → CommandType → Bool
unfolding CommandType-discrete
is_cmd a b = ite (CommandType-discrete a b) true false

-- fmt.Sprintf("%d:%s", bizID, messageID)
unfoldable pub cache_key : ℕ → Text → Text
cache_key biz_id message_id = decimal biz_id ++ colon ∷ message_id

-- h.needUncacheMessage
unfoldable pub need_uncache_message : Fault → Bool
unfolding is
need_uncache_message e = is e unknown_message_type || is e max_retry_exceeded

-- `unmarshal` is codec.Unmarshal into a new Message.
abbrev pub checked : Result Message → Result Message
checked (err e) = err (detail (sentinel invalid_message) (codes ": unknown message type"))
checked (ok msg) =
    if not (is_cmd msg.cmd heartbeat) && text_eq msg.message_id []
    then err (detail (sentinel invalid_message) (codes ": empty message_id"))
    else ok msg

unfoldable pub decode_payload : (Text → Result Message) → Text → Result Message
unfolding is_cmd
decode_payload unmarshal payload = checked (unmarshal payload)

module _ (ops : SyncMap Task) where
  -- The map of NewHandler: a later handler of a command takes the place of an earlier one.
  unfoldable pub handlers_map :
      List (UMsgHandler ops)
      → (CommandType → Option (UMsgHandler ops))
      → CommandType
      → Option (UMsgHandler ops)
  unfolding is_cmd
  handlers_map [] m cmd = m cmd
  handlers_map (h ∷ hs) m cmd =
      handlers_map hs (λ c. if is_cmd h.cmd_type c then some h else m c) cmd

  -- NewHandler: the fields rdb, codec and dMsgHandler are parameters.
  unfoldable pub new_handler : List (UMsgHandler ops) → CommandType → Option (UMsgHandler ops)
  unfolding handlers_map
  new_handler hs = handlers_map hs (λ c. none)

module _ (redis : Redis) (ops : SyncMap Task) where
  open redis use {State, set_nx, del}

  unfoldable pub cache_message_of : State → ℕ → Message → Result Bool × State
  unfolding cache_key is_cmd
  cache_message_of s biz_id msg =
      if is_cmd msg.cmd heartbeat
      then (ok true, s)
      else set_nx s (cache_key biz_id msg.message_id) msg.message_id

  abbrev pub uncached : Option Fault × State → Option Fault × State
  uncached (none, s) = (none, s)
  uncached (some e, s) = (some (join (sentinel uncache_message) e), s)

  unfoldable pub uncache_message_of : State → ℕ → Message → Option Fault × State
  unfolding cache_key is_cmd
  uncache_message_of s biz_id msg =
      if is_cmd msg.cmd heartbeat
      then (none, s)
      else uncached (del s (cache_key biz_id msg.message_id))

  abbrev pub Reply : Type 0
  Reply = Option Fault × State × World ops

  -- What follows uMsgHandler.Handle: an error of a certain kind takes the message off the cache, an
  -- error of Redis there is only logged.
  abbrev pub finished : State → ℕ → Message → Option Fault × World ops → Reply
  finished s biz_id msg (none, w) = (none, s, w)
  finished s biz_id msg (some e, w) =
      if need_uncache_message e
      then (some e, (uncache_message_of s biz_id msg).1, w)
      else (some e, s, w)

  abbrev pub handled : State → World ops → Conn → Message → Option (UMsgHandler ops) → Reply
  handled s w conn msg none = (some (sentinel unknown_message_type), s, w)
  handled s w conn msg (some h) = finished s conn.user.bid msg (h.handle w conn msg)

  -- What follows cacheMessage.
  abbrev pub deduplicated :
      (CommandType → Option (UMsgHandler ops))
      → World ops
      → Conn
      → Message
      → Result Bool × State
      → Reply
  deduplicated table w conn msg (err e, s) = (some (join (sentinel cache_message) e), s, w)
  deduplicated table w conn msg (ok false, s) = (some (sentinel message_duplicated), s, w)
  deduplicated table w conn msg (ok true, s) = handled s w conn msg (table msg.cmd)

  abbrev pub decoded :
      (CommandType → Option (UMsgHandler ops)) → State → World ops → Conn → Result Message → Reply
  decoded table s w conn (err e) = (some e, s, w)
  decoded table s w conn (ok msg) =
      deduplicated table w conn msg (cache_message_of s conn.user.bid msg)

  -- OnReceiveFromFrontend
  unfoldable pub on_receive_from_frontend :
      (CommandType → Option (UMsgHandler ops))
      → (Text → Result Message)
      → State
      → World ops
      → Conn
      → Text
      → Reply
  unfolding decode_payload cache_message_of uncache_message_of need_uncache_message
  on_receive_from_frontend table unmarshal s w conn payload =
      decoded table s w conn (decode_payload unmarshal payload)

module _ (ops : SyncMap Task) (answers : Answers) where
  -- OnReceiveFromBackend
  unfoldable pub on_receive_from_backend :
      List Conn → PushMessage → World ops → Option Fault × World ops
  unfolding backend_handle
  on_receive_from_backend conns msg w =
      if text_eq msg.message_id []
      then (some (detail (sentinel invalid_message) (codes ": empty message_id")), w)
      else if msg.biz_id == 0
      then (some (detail (sentinel invalid_message) (codes ": empty biz_id")), w)
      else if msg.receiver_id == 0
      then (some (detail (sentinel invalid_message) (codes ": empty receiver_id")), w)
      else backend_handle ops answers conns msg w
