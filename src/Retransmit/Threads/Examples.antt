-- ===== src/Retransmit/Threads/Examples.antt =====
-- Two goroutines of a manager with a limit of two.
use synp.Prelude.{ℕ, false, true, ◌+◌, ◌%◌, ◌≤◌, ◌<◌, ◌≡◌, refl, none, List, [], ◌∷◌, arith, length}
use synp.Prelude.Text.{Text, text_eq, codes}
use synp.Prelude.Dict.{lookup, without}
use synp.Prelude.Word.{word64}
use synp.Prelude.Goroutines.{total}
use synp.SyncMap.{SyncMap, list_map}
use synp.Session.{device_mobile}
use synp.Message.{Message, downstream}
use synp.Conn.{Conn}
use synp.Retransmit.{task_key}
use synp.Retransmit.Threads.{
  Handle, idle, Call, start, stop, close, fires, System, Turn, step, run, new_system,
}
use synp.Retransmit.Threads.Counting.{adding, taking, tasks_held, counted_between}
use synp.Retransmit.Threads.Silence.{IsGone, sent_and_due, silent}
use synp.Retransmit.Threads.Flight.{pushes, flies, sends, armed}
use synp.Retransmit.Threads.Attempts.{sent_below_limit}

abbrev ops : SyncMap Handle
ops = list_map Handle

abbrev phone : Conn
phone = record {
  serial = 1;
  id = codes "1:7:mobile";
  user = record { bid = 1; uid = 7; device = device_mobile; auto_close = false };
}

abbrev hello : Message
hello = record { message_id = codes "m1"; cmd = downstream; body = codes "hi" }

abbrev key : Text
key = task_key phone.id hello.message_id

abbrev turn_of : ℕ → Call → Turn
turn_of i call = record { goroutine = i; call = call; outcome = none }

-- Start in the first goroutine, its timer and the first accesses of run in the second.
abbrev started : List Turn
started =
    turn_of 0 (start (phone ∷ []) hello)
    ∷ turn_of 0 (stop key)
    ∷ turn_of 0 (stop key)
    ∷ turn_of 0 (stop key)
    ∷ turn_of 1 (fires 0)
    ∷ turn_of 1 (stop key)
    ∷ turn_of 0 (stop key)
    ∷ turn_of 0 (stop key)
    ∷ turn_of 1 (stop key)
    ∷ []

-- Stop in the first goroutine, once it is idle.
abbrev stopped : List Turn
stopped =
    turn_of 0 (stop key)
    ∷ turn_of 0 (stop key)
    ∷ turn_of 0 (stop key)
    ∷ turn_of 0 (stop key)
    ∷ turn_of 0 (stop key)
    ∷ turn_of 0 (stop key)
    ∷ []

-- The goroutine of the timer, behind its check of the map, sends after Stop.
abbrev late : List Turn
late = turn_of 1 (stop key) ∷ turn_of 1 (stop key) ∷ []

abbrev after_start : System ops
after_start = run ops started (new_system ops 2 2)

abbrev after_stop : System ops
after_stop = run ops stopped after_start

counted_between_example :
    ((after_start.mem.total_task_cnt + total adding after_start.pcs) % word64
      ≡ (tasks_held ops after_start.mem + total taking after_start.pcs) % word64)
    × (after_start.mem.total_task_cnt < word64)
counted_between_example = counted_between ops 2 2 started

after_stop-IsGone : IsGone ops key after_stop
unfolding run step new_system lookup text_eq task_key without
after_stop-IsGone = (refl, refl)

silent_example :
    IsGone ops key (run ops late after_stop)
    × (sent_and_due ops key (run ops late after_stop) ≤ sent_and_due ops key after_stop)
silent_example = silent ops key late after_stop (refl, (refl, tt)) after_stop-IsGone

-- The message is sent once more after Stop has returned.
late_push : (length after_stop.mem.effects ≡ 0) × (length (run ops late after_stop).mem.effects ≡ 2)
unfolding run step new_system lookup text_eq task_key without
late_push = (refl, refl)

sent_below_limit_example :
    (total (flies 0) after_start.pcs + armed 0 after_start.mem.timers ≤ 1)
    × (pushes 0 after_start.mem.effects + total (sends 0) after_start.pcs < 2)
sent_below_limit_example = sent_below_limit ops 2 (omega arith) (omega arith) 0 2 started

-- Start has seen that the manager is open, Close runs to its end, and Start goes on.
abbrev start_across_close : List Turn
start_across_close =
    turn_of 0 (start (phone ∷ []) hello)
    ∷ turn_of 0 (stop key)
    ∷ turn_of 1 (close [])
    ∷ turn_of 1 (close [])
    ∷ turn_of 1 (close [])
    ∷ turn_of 0 (stop key)
    ∷ turn_of 0 (stop key)
    ∷ turn_of 0 (stop key)
    ∷ turn_of 0 (stop key)
    ∷ []

abbrev after_close : System ops
after_close = run ops start_across_close (new_system ops 2 2)

-- The manager is closed and keeps a task with its timer.
task_behind_close :
    (after_close.mem.closed ≡ true)
    × (after_close.mem.total_task_cnt ≡ 1)
    × (length after_close.mem.timers ≡ 1)
    × (after_close.pcs ≡ idle ∷ idle ∷ [])
unfolding run step new_system lookup text_eq
task_behind_close = (refl, refl, refl, refl)
