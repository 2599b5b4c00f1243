-- ===== src/Gateway/PushExamples.antt =====
-- A partition with a message that is no json before one for a user whose connection is lost.
use synp.Prelude.{false, none, some, List, [], ◌∷◌}
use synp.Prelude.Int.{pos}
use synp.Prelude.Text.{Text, codes}
use synp.SyncMap.{SyncMap, list_map}
use synp.Fault.{Fault, Result, ok, err, foreign}
use synp.Message.{Message}
use synp.Session.{User, device_pc}
use synp.Conn.Closing.{Runtime}
use synp.ConnManager.{DeviceConns, ConnManager, new_conn_manager, new_conn}
use synp.Retransmit.{Task}
use synp.Handlers.{World, Answers, PushMessage, downstream_msg}
use synp.Mq
use synp.Gateway.{Arrival, message, closed}

abbrev conn_ops : SyncMap DeviceConns
conn_ops = list_map DeviceConns

abbrev task_ops : SyncMap Task
task_ops = list_map Task

abbrev desk : User
desk = record { bid = 1; uid = 7; device = device_pc; auto_close = false }

abbrev with_desk : ConnManager conn_ops
with_desk = (new_conn conn_ops (new_conn_manager conn_ops) desk 1).0

abbrev event : Text → Mq.Message
event val = record {
  headers = [];
  topic = codes "push";
  partition = pos 0;
  offset = pos 0;
  key = [];
  val = val;
}

-- The first message is no json.
abbrev arrivals : List Arrival
arrivals = message (event []) ∷ message (event (codes "{}")) ∷ closed ∷ []

abbrev lost : Fault
lost = foreign (codes "broken pipe")

-- Every connection is lost.
abbrev answers : Answers
answers = record {
  push = λ c m. some lost;
  marshal_message = λ m. ok m.body;
  marshal_ack = λ p. ok p.error_message;
  produce = λ m. none;
  now = 0;
}

abbrev start_world : World task_ops
start_world = record {
  manager = record {
    tasks = task_ops.empty;
    total_task_cnt = 0;
    retry_interval = 8000000000;
    max_retry_cnt = 3;
    closed = false;
    retired = [];
  };
  effects = [];
}

abbrev hello : PushMessage
hello = record { message_id = codes "m1"; biz_id = 1; receiver_id = 7; body = codes "hi" }

abbrev unmarshal : Text → Result Message
unmarshal payload = ok (downstream_msg hello)

abbrev decode : Text → Result PushMessage
decode [] = err (foreign (codes "unexpected end of JSON input"))
decode (c ∷ cs) = ok hello

-- The connections, all open.
abbrev fresh : Runtime
fresh = record {
  cancelled = false;
  closing = false;
  close_err = none;
  send_chan = [];
  send_cap = 256;
  activity_time = 0;
  effects = [];
}
