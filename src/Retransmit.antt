-- ===== src/Retransmit.antt =====
-- internal/pkg/retransmit/manager.go: the tasks that send a downstream message again until the
-- client acknowledges it. A task's timer is a flag of the task: armed from AfterFunc until it fires
-- or is stopped. What taskFunc returns is an argument of `run`.
pub mod Attempts
pub mod Threads
pub mod Started
pub mod Tasks
pub mod Counts
pub mod History
pub mod Absent
mod Examples
use synp.Prelude.{
  ℕ, ◌+◌, ◌%◌, ◌++◌, Bool, true, false, ◌&&◌, Option, none, some, List, [], ◌∷◌, if◌then◌else◌, leb,
  ltb,
}
use synp.Prelude.Int.{ℤ, pos, pos_part, leb_ℤ}
use synp.Prelude.Text.{Text, colon, text_eq}
use synp.Prelude.Dict.{Dict}
use synp.SyncMap.{SyncMap}
use synp.Fault.{Fault}
use synp.Message.{Message}
use synp.Conn.{Conn}
use synp.Prelude.Word.{add_one32, add_one64, sub64}

-- 8 * time.Second, in nanoseconds, and DefaultMaxRetryCnt.
abbrev pub default_retry_interval : ℕ
default_retry_interval = 8000000000

abbrev pub default_max_retry_cnt : ℕ
default_max_retry_cnt = 3

-- The retransmit count is an atomic.Int32, kept as its 32 bits.
pub record Task : Type 0 where
  pub key : Text
  pub conn : Conn
  pub msg : Message
  pub retransmit_cnt : ℕ
  pub armed : Bool

-- What `run` does outside the manager: it sends a message, or marks a connection as active.
pub data Effect : Type 0 where
  pushed : Conn → Message → Effect
  touched : Conn → Effect

-- fmt.Sprintf("%s:%s", connID, messageID)
unfoldable pub task_key : Text → Text → Text
task_key conn_id message_id = conn_id ++ colon ∷ message_id

-- The signed test `cnt >= max` for a positive `max`.
abbrev pub reaches : ℕ → ℕ → Bool
reaches cnt max = leb max cnt && ltb cnt 2147483648

abbrev pub stop : Task → Task
stop t = record t { armed = false }

module _ (ops : SyncMap Task) where
  open ops use {Map, empty, load, store, delete, range}

  -- `retired` lists the tasks that were stopped, the last one first.
  pub record Manager : Type 0 where
    pub tasks : Map
    pub total_task_cnt : ℕ
    pub retry_interval : ℕ
    pub max_retry_cnt : ℕ
    pub closed : Bool
    pub retired : List Task

  -- The arguments are a Duration and an int32; one that is not positive gives the default.
  unfoldable pub new_manager : ℤ → ℤ → Manager
  new_manager retry_interval max_retry_cnt = record {
    tasks = empty;
    total_task_cnt = 0;
    retry_interval =
        if leb_ℤ retry_interval (pos 0) then default_retry_interval else pos_part retry_interval;
    max_retry_cnt =
        if leb_ℤ max_retry_cnt (pos 0) then default_max_retry_cnt else pos_part max_retry_cnt;
    closed = false;
    retired = [];
  }

  abbrev pub deleted : Manager → Text → Option Task → Manager × Bool
  deleted m key (some task) = (
    record m {
      tasks = delete m.tasks key;
      total_task_cnt = sub64 m.total_task_cnt 1;
      retired = stop task ∷ m.retired;
    },
    true,
  )
  deleted m key none = (m, false)

  -- LoadAndDelete, then task.stop()
  unfoldable pub stop_and_delete : Manager → Text → Manager × Bool
  stop_and_delete m key = deleted m key (load m.tasks key)

  abbrev pub new_task : Conn → Message → Task
  new_task conn msg = record {
    key = task_key conn.id msg.message_id;
    conn = conn;
    msg = msg;
    retransmit_cnt = 0;
    armed = true;
  }

  abbrev pub stored_new : Manager → Task → Option Task → Manager
  stored_new m task (some old) = m
  stored_new m task none = record m {
    tasks = store m.tasks task.key task;
    total_task_cnt = add_one64 m.total_task_cnt;
  }

  -- start: LoadOrStore, then the timer and the counter
  unfoldable pub start_one : Manager → Conn → Message → Manager
  unfolding task_key
  start_one m conn msg =
      let task = new_task conn msg in
      if m.closed then m else stored_new m task (load m.tasks task.key)

  -- Start
  unfoldable pub start : Manager → List Conn → Message → Manager
  unfolding start_one
  start m [] msg = m
  start m (conn ∷ conns) msg = start (start_one m conn msg) conns msg

  -- Stop
  unfoldable pub stop_task : Manager → Text → Text → Manager
  unfolding stop_and_delete task_key
  stop_task m conn_id message_id = (stop_and_delete m (task_key conn_id message_id)).0

  -- The calls of a Range over the pairs that it visits: stopAndDelete where the test holds.
  unfoldable pub sweep : (Task → Bool) → Manager → Dict Task → Manager
  unfolding stop_and_delete
  sweep test m [] = m
  sweep test m ((key, task) ∷ rest) =
      sweep test (if test task then (stop_and_delete m key).0 else m) rest

  unfoldable pub clear_by_conn : Manager → Text → Manager
  unfolding sweep
  clear_by_conn m conn_id = sweep (λ task. text_eq task.conn.id conn_id) m (range m.tasks)

  unfoldable pub close : Manager → Manager
  unfolding sweep
  close m =
      if m.closed then m else sweep (λ task. true) (record m { closed = true }) (range m.tasks)

  -- The task with one more retransmission counted, its timer having fired.
  abbrev pub counted_up : Task → Task
  counted_up task = record task { retransmit_cnt = add_one32 task.retransmit_cnt; armed = false }

  abbrev pub given_up : Manager → Task → Manager
  given_up m task =
      (stop_and_delete (record m { tasks = store m.tasks task.key (counted_up task) }) task.key).0

  abbrev pub rearmed : Manager → Task → Manager
  rearmed m task = record m {
    tasks = store m.tasks task.key (record (counted_up task) { armed = true });
  }

  -- taskFunc has returned an error, or none.
  abbrev pub sent : Manager → Task → Option Fault → Manager × List Effect
  sent m task (some e) = (given_up m task, pushed task.conn task.msg ∷ [])
  sent m task none = (rearmed m task, pushed task.conn task.msg ∷ touched task.conn ∷ [])

  -- What Task.run does with a task that it has found under its key.
  abbrev pub ran : Manager → Task → Option Fault → Manager × List Effect
  ran m task outcome =
      if reaches (add_one32 task.retransmit_cnt) m.max_retry_cnt
      then (given_up m task, [])
      else sent m task outcome

  abbrev pub ran_found : Manager → Option Task → Option Fault → Manager × List Effect
  ran_found m none outcome = (m, [])
  ran_found m (some task) outcome = ran m task outcome

  -- Task.run of the task under `key`, when its timer fires
  unfoldable pub run : Manager → Text → Option Fault → Manager × List Effect
  unfolding stop_and_delete
  run m key outcome = ran_found m (load m.tasks key) outcome
