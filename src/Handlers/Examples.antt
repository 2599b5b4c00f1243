-- ===== src/Handlers/Examples.antt =====
-- Two phones, and connections that take a message or refuse it.
use synp.Prelude.{◌≡◌, refl, arith, List, if◌then◌else◌, ◌==◌, false, none, some, [], ◌∷◌, Option}
use synp.Prelude.Int.{pos}
use synp.Prelude.Text.{codes, text_eq}
use synp.SyncMap.{SyncMap, list_map}
use synp.Session.{device_mobile}
use synp.Fault.{Fault, ok, foreign}
use synp.Message.{Message, downstream_ack}
use synp.Conn.{Conn}
use synp.Retransmit.{Task, task_key, new_manager, run}
use synp.Retransmit.Counts.{IsValid, start-IsValid, new_manager-IsValid}
use synp.Retransmit.History.{Call, starts, fires, perform_all}
use synp.Retransmit.Absent.{Unstarted}
use synp.Handlers.{
  PushMessage, Answers, World, downstream_msg, backend_handle, downstream_ack_handler,
}
use synp.Handlers.Downstream.{ack_stops}

abbrev ops : SyncMap Task
ops = list_map Task

abbrev phone : Conn
phone = record {
  serial = 1;
  id = codes "1:7:mobile";
  user = record { bid = 1; uid = 7; device = device_mobile; auto_close = false };
}

abbrev lost : Fault
lost = foreign (codes "broken pipe")

-- The connection with the number 2 is lost.
abbrev push_reply : Conn → Option Fault
push_reply c = if c.serial == 2 then some lost else none

abbrev answers : Answers
answers = record {
  push = λ c m. push_reply c;
  marshal_message = λ m. ok m.body;
  marshal_ack = λ p. ok p.error_message;
  produce = λ m. none;
  now = 0;
}

abbrev hello : PushMessage
hello = record { message_id = codes "m1"; biz_id = 1; receiver_id = 7; body = codes "hi" }

abbrev start_world : World ops
start_world = record {
  manager = record {
    tasks = ops.empty;
    total_task_cnt = 0;
    retry_interval = 8000000000;
    max_retry_cnt = 3;
    closed = false;
    retired = [];
  };
  effects = [];
}

abbrev ack : Message
ack = record { message_id = codes "m1"; cmd = downstream_ack; body = [] }

abbrev waiting : World ops
waiting = (backend_handle ops answers (phone ∷ []) hello start_world).1

waiting-IsValid : IsValid ops waiting.manager
unfolding new_manager backend_handle
waiting-IsValid =
    start-IsValid ops start_world.manager (phone ∷ []) (downstream_msg hello)
      (new_manager-IsValid ops (pos 8000000000) (pos 3) (omega arith))

-- Another message is sent to the phone, and timers fire.
abbrev other : Message
other = record { message_id = codes "m2"; cmd = downstream_ack; body = [] }

abbrev later : List Call
later =
    starts (phone ∷ []) other
    ∷ fires (task_key phone.id (codes "m2")) none
    ∷ fires (task_key phone.id (codes "m1")) none
    ∷ []

later-Unstarted : Unstarted (task_key phone.id (codes "m1")) later
unfolding task_key text_eq
later-Unstarted = ((refl, tt), tt)

ack_stops_example :
    let m =
      perform_all ops
        ((downstream_ack_handler ops answers).handle waiting phone ack).1.manager
        later in
    run ops m (task_key phone.id (codes "m1")) none ≡ (m, [])
ack_stops_example =
    ack_stops ops answers waiting phone ack later none waiting-IsValid later-Unstarted
