-- ===== src/Lifecycle/Examples.antt =====
-- A client whose message comes twice.
use synp.Prelude.{◌≡◌, refl, true, false, none, some, []}
use synp.Prelude.Text.{Text, codes, text_eq, decimal}
use synp.Prelude.Dict.{lookup}
use synp.Redis.{local_redis}
use synp.SyncMap.{SyncMap, list_map}
use synp.Session.{device_mobile, session_key}
use synp.Fault.{Fault, Result, ok, foreign, sentinel, is, message_duplicated}
use synp.Message.{Message, heartbeat, upstream}
use synp.Conn.{Conn}
use synp.Conn.Closing.{Runtime}
use synp.Retransmit.{Task}
use synp.Handlers.{Answers, World}
use synp.Lifecycle.{
  is_cmd, cache_key, need_uncache_message, decode_payload, on_receive_from_frontend,
}
use synp.Lifecycle.Registered.{HandlerState, lifecycle_handler}
use synp.Lifecycle.Disconnected.{IsClosed, IsRepeated, disconnect_closes}
use synp.Lifecycle.Program.{program_table, IsQuiet, program_second_delivery}

abbrev ops : SyncMap Task
ops = list_map Task

abbrev phone : Conn
phone = record {
  serial = 1;
  id = codes "1:7:mobile";
  user = record { bid = 1; uid = 7; device = device_mobile; auto_close = false };
}

abbrev lost : Fault
lost = foreign (codes "broken pipe")

-- Every connection is lost, and the queue takes every message.
abbrev answers : Answers
answers = record {
  push = λ c m. some lost;
  marshal_message = λ m. ok m.body;
  marshal_ack = λ p. ok p.error_message;
  produce = λ m. none;
  now = 0;
}

abbrev topic : Text
topic = codes "synp_frontend_message"

abbrev start_world : World ops
start_world = record {
  manager = record {
    tasks = ops.empty;
    total_task_cnt = 0;
    retry_interval = 8000000000;
    max_retry_cnt = 3;
    closed = false;
    retired = [];
  };
  effects = [];
}

abbrev order : Message
order = record { message_id = codes "m1"; cmd = upstream; body = codes "buy" }

abbrev beat : Message
beat = record { message_id = []; cmd = heartbeat; body = [] }

-- A codec that reads every payload as the same message.
abbrev reads : Message → Text → Result Message
reads msg payload = ok msg

order_decoded : decode_payload (reads order) [] ≡ ok order
unfolding decode_payload is_cmd text_eq
order_decoded = refl

order_command : is_cmd order.cmd heartbeat ≡ false
unfolding is_cmd
order_command = refl

beat_command : is_cmd beat.cmd heartbeat ≡ true
unfolding is_cmd
beat_command = refl

answers-IsQuiet : IsQuiet ops answers topic
unfolding need_uncache_message is
answers-IsQuiet = record { push_quiet = λ c m e h. cc; ack_quiet = λ p e h. cc }

abbrev order_key : Text
order_key = cache_key phone.user.bid order.message_id

abbrev order_cached : local_redis.State
order_cached = (local_redis.set_nx [] order_key order.message_id).1

first_set : local_redis.set_nx [] order_key order.message_id ≡ (ok true, order_cached)
unfolding cache_key lookup text_eq decimal
first_set = refl

second_set : local_redis.set_nx order_cached order_key order.message_id ≡ (ok false, order_cached)
unfolding cache_key lookup text_eq decimal
second_set = refl

program_second_delivery_example :
    on_receive_from_frontend local_redis ops
      (program_table ops answers topic)
      (reads order)
      (on_receive_from_frontend local_redis ops
        (program_table ops answers topic)
        (reads order)
        []
        start_world
        phone
        []).1
      (on_receive_from_frontend local_redis ops
        (program_table ops answers topic)
        (reads order)
        []
        start_world
        phone
        []).2
      phone
      []
    ≡ (
      some (sentinel message_duplicated),
      order_cached,
      (on_receive_from_frontend local_redis ops
          (program_table ops answers topic)
          (reads order)
          []
          start_world
          phone
          []).2,
    )
program_second_delivery_example =
    program_second_delivery ops answers topic local_redis (reads order) [] order_cached order_cached
      start_world phone phone [] order true false answers-IsQuiet order_decoded order_command
      first_set second_set refl

-- Two open connections.
abbrev open_conn : Runtime
open_conn = record {
  cancelled = false;
  closing = false;
  close_err = none;
  send_chan = [];
  send_cap = 256;
  activity_time = 0;
  effects = [];
}

abbrev connected : HandlerState local_redis ops
connected = (
  local_redis.hset_cmd [] (session_key phone.user) (codes "token") (codes "t1"),
  (start_world, λ n. open_conn),
)

disconnect_closes_example :
    let r =
      (lifecycle_handler local_redis ops answers topic (reads order) (λ c. some lost)).on_disconnect
        phone connected in
    (r.0 ≡ some lost)
    × IsClosed local_redis ops phone connected r.1
    × IsRepeated local_redis ops phone r.0 r.1
disconnect_closes_example =
    disconnect_closes local_redis ops answers topic (reads order) (λ c. some lost) phone connected
      (local_redis.del connected.0 (session_key phone.user)).1 refl refl
