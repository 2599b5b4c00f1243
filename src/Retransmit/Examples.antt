-- ===== src/Retransmit/Examples.antt =====
-- A manager with one task.
use synp.Prelude.{◌+◌, suc, ◌≡◌, refl, subst, false, none, some, [], ◌∷◌, arith}
use synp.Prelude.Int.{pos}
use synp.Prelude.Text.{Text, codes, text_eq_refl}
use synp.Prelude.Dict.{lookup}
use synp.SyncMap.{SyncMap, list_map}
use synp.Session.{device_mobile}
use synp.Message.{Message, downstream}
use synp.Conn.{Conn}
use synp.Retransmit.{Task, Manager, task_key, new_task, new_manager, start_one, start}
use synp.Retransmit.Counts.{IsValid, new_manager-IsValid, start-IsValid}
use synp.Retransmit.Attempts.{pushes, run_all, attempts_exact}

abbrev ops : SyncMap Task
ops = list_map Task

abbrev phone : Conn
phone = record {
  serial = 1;
  id = codes "1:7:mobile";
  user = record { bid = 1; uid = 7; device = device_mobile; auto_close = false };
}

abbrev hello : Message
hello = record { message_id = codes "m1"; cmd = downstream; body = codes "hi" }

abbrev key : Text
key = task_key phone.id hello.message_id

-- A manager with a limit of three, in which the message to the phone waits for its answer.
abbrev waiting : Manager ops
waiting = record {
  tasks = ops.store ops.empty key (new_task ops phone hello);
  total_task_cnt = 1;
  retry_interval = 8000000000;
  max_retry_cnt = 3;
  closed = false;
  retired = [];
}

waiting_eq : start ops (new_manager ops (pos 0) (pos 0)) (phone ∷ []) hello ≡ waiting
unfolding start new_manager start_one lookup
waiting_eq = refl

waiting-IsValid : IsValid ops waiting
waiting-IsValid = subst (IsValid ops) waiting_eq (
    start-IsValid ops (new_manager ops (pos 0) (pos 0)) (phone ∷ []) hello
      (new_manager-IsValid ops (pos 0) (pos 0) (omega arith)))

waiting_load : ops.load waiting.tasks key ≡ some (new_task ops phone hello)
waiting_load = rw (ops.load-store ops.empty key key (new_task ops phone hello), text_eq_refl key)

attempts_exact_example :
    (pushes (run_all ops waiting key (none ∷ none ∷ none ∷ [])).1 + suc 0 ≡ 3)
    × (ops.load (run_all ops waiting key (none ∷ none ∷ none ∷ [])).0.tasks key ≡ none)
attempts_exact_example =
    attempts_exact ops waiting key (new_task ops phone hello) (none ∷ none ∷ none ∷ [])
      waiting-IsValid waiting_load (refl, (refl, (refl, tt))) (omega arith)
