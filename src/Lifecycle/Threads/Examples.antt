-- ===== src/Lifecycle/Threads/Examples.antt =====
-- The same message on two connections of a user at the same time.
use synp.Prelude.{ℕ, ◌+◌, ◌≤◌, ◌≡◌, refl, true, false, none, List, [], ◌∷◌, length, arith}
use synp.Prelude.Text.{codes, text_eq, decimal}
use synp.Prelude.Dict.{lookup, insert, lookup-insert, lookup-without}
use synp.Prelude.Goroutines.{total}
use synp.Redis.{local_redis}
use synp.SyncMap.{SyncMap, list_map}
use synp.Session.{device_mobile, device_pc}
use synp.Fault.{ok}
use synp.Message.{Message, upstream}
use synp.Conn.{Conn}
use synp.Retransmit.{Task}
use synp.Lifecycle.{cache_key, is_cmd, decode_payload, cache_message_of}
use synp.Lifecycle.Threads.{idle, Turn, System, move, step, run, returned}
use synp.Lifecycle.Threads.Moves.{Lasting, holds, settled}
use synp.Lifecycle.Threads.Exclusive.{handled_once}

abbrev ops : SyncMap Task
ops = list_map Task

abbrev phone : Conn
phone = record {
  serial = 1;
  id = codes "1:7:mobile";
  user = record { bid = 1; uid = 7; device = device_mobile; auto_close = false };
}

abbrev desk : Conn
desk = record {
  serial = 2;
  id = codes "1:7:pc";
  user = record { bid = 1; uid = 7; device = device_pc; auto_close = false };
}

abbrev order : Message
order = record { message_id = codes "m1"; cmd = upstream; body = codes "buy" }

local_redis-Lasting : Lasting local_redis
local_redis-Lasting = record {
  set_nx-keeps = λ s t k v j r h e. ground (arith, h, e, lookup-insert k j (([], v) ∷ []) s);
  del-keeps = λ s t k j r h d e. ground (arith, h, d, e, lookup-without k j s);
}

abbrev free : System local_redis ops (λ payload. ok order) (λ cmd. true)
free = record { mem = record { state = []; handled = [] }; pcs = idle ∷ idle ∷ [] }

abbrev turn_of : ℕ → Conn → Turn
turn_of i conn = record { goroutine = i; conn = conn; payload = []; outcome = none }

-- Both have decoded the message before either asks Redis.
abbrev race : List Turn
race = turn_of 0 phone ∷ turn_of 1 desk ∷ turn_of 1 desk ∷ turn_of 0 phone ∷ turn_of 1 desk ∷ []

handled_once_example :
    let r = run local_redis ops (λ payload. ok order) (λ cmd. true) race free in
    settled (cache_key 1 (codes "m1")) r.mem.handled
      + total (holds (cache_key 1 (codes "m1"))) r.pcs
    ≤ 1
handled_once_example =
    handled_once local_redis local_redis-Lasting ops (λ payload. ok order) (λ cmd. true)
      (cache_key 1 (codes "m1")) race free refl refl

-- One of the two was handled.
race_handled :
    (length (run local_redis ops (λ payload. ok order) (λ cmd. true) race free).mem.handled ≡ 1)
    × ((run local_redis ops (λ payload. ok order) (λ cmd. true) race free).pcs ≡ idle ∷ idle ∷ [])
unfolding run step move decode_payload cache_message_of is_cmd cache_key lookup insert text_eq
    decimal returned
race_handled = (refl, refl)
