-- ===== src/Retransmit/Threads.antt =====
-- internal/pkg/retransmit/manager.go with goroutines that are interleaved: each move of one is an access
-- of what they share, the map, a counter, a timer or the flag.
pub mod Counting
pub mod Silence
pub mod Flight
pub mod Attempts
mod Examples
use synp.Prelude.{
  ℕ, zero, suc, Bool, true, false, ◌&&◌, ◌==◌, Option, none, some, List, [], ◌∷◌, map,
  if◌then◌else◌, arith, ◌≡◌, refl, ◌+◌,
}
use synp.Prelude.Text.{Text, text_eq}
use synp.Prelude.Word.{add_one32, add_one64, sub64}
use synp.Prelude.Goroutines.{place, moved, total}
use synp.SyncMap.{SyncMap}
use synp.Fault.{Fault}
use synp.Message.{Message}
use synp.Conn.{Conn}
use synp.Retransmit.{reaches, task_key}

-- A task as an object: its fields that stay, and the number that tells it from other tasks.
pub record Handle : Type 0 where
  pub serial : ℕ
  pub key : Text
  pub conn : Conn
  pub msg : Message

-- taskFunc with the connection and the message of a task, and UpdateActivityTime.
pub data Effect : Type 0 where
  pushed touched : Handle → Effect

-- Where a goroutine stands, with its local variables. `deleting` has the keys that stopAndDelete is still
-- to be called with: one for Stop and for a task that ends, and more for ClearByConn and Close.
pub data Pc : Type 0 where
  idle : Pc
  starting storing : List Conn → Message → Pc  -- before closed.Load, and before LoadOrStore
  arming counting : Handle → List Conn → Pc  -- before the timer is made, and before Add(1)
  looking : Text → Pc  -- Stop, before Load
  closing : List Text → Pc  -- Close, before CompareAndSwap
  deleting : List Text → Pc  -- before LoadAndDelete
  stopping : Handle → List Text → Pc  -- before task.stop()
  uncounting : List Text → Pc  -- before Add(-1)
  running : Handle → Pc  -- Task.run, before Load
  raising : Handle → Pc  -- before the count is raised and compared
  sending : Handle → Pc  -- in taskFunc
  rearming : Handle → Pc  -- before the next timer is made

-- What begins in a goroutine that is idle: Start, Stop, ClearByConn and Close, the last two with the tasks
-- that Range visits, or the timer of that number among those that run.
pub data Call : Type 0 where
  start : List Conn → Message → Call
  stop : Text → Call
  clear : Text → List Handle → Call
  close : List Handle → Call
  fires : ℕ → Call

-- A turn of the scheduler: the number of the goroutine, the call that it begins if it is idle, and what
-- taskFunc returns to it.
pub record Turn : Type 0 where
  pub goroutine : ℕ
  pub call : Call
  pub outcome : Option Fault

abbrev pub all_idle : ℕ → List Pc
all_idle zero = []
all_idle (suc n) = idle ∷ all_idle n

abbrev pub found : Option Handle → Pc → Pc
found none pc = idle
found (some h) pc = pc

pub total-all_idle : (w : Pc → ℕ) (n : ℕ) → w idle ≡ 0 → total w (all_idle n) ≡ 0
total-all_idle w zero h = refl
total-all_idle w (suc n) h = omega (arith, h, total-all_idle w n h)

-- The keys that ClearByConn calls stopAndDelete with.
abbrev pub keys_of : Text → List Handle → List Text
keys_of conn_id [] = []
keys_of conn_id (h ∷ hs) =
    let rest = keys_of conn_id hs in if text_eq h.conn.id conn_id then h.key ∷ rest else rest

-- The timer of a task is taken away, if it runs.
abbrev pub unarmed : ℕ → List Handle → List Handle
unarmed n [] = []
unarmed n (h ∷ hs) = let rest = unarmed n hs in if h.serial == n then rest else h ∷ rest

abbrev pub without_nth : ℕ → List Handle → List Handle
without_nth n [] = []
without_nth zero (h ∷ hs) = hs
without_nth (suc n) (h ∷ hs) = h ∷ without_nth n hs

module _ (ops : SyncMap Handle) where
  open ops use {Map, empty, load, store, delete}

  -- `timers` are the tasks whose timer runs, `counts` the retransmitCnt of each task, and `effects` what
  -- was sent, the last first.
  pub record Shared : Type 0 where
    pub tasks : Map
    pub total_task_cnt : ℕ
    pub closed : Bool
    pub timers : List Handle
    pub counts : ℕ → ℕ
    pub next_serial : ℕ
    pub max_retry_cnt : ℕ
    pub effects : List Effect

  pub record System : Type 0 where
    pub mem : Shared
    pub pcs : List Pc

  abbrev pub new_handle : Shared → Conn → Message → Handle
  new_handle m conn msg = record {
    serial = m.next_serial;
    key = task_key conn.id msg.message_id;
    conn = conn;
    msg = msg;
  }

  -- LoadOrStore of a new task
  abbrev pub stored : Shared → Handle → List Conn → Option Handle → Shared × Pc
  stored m h conns (some old) = (m, starting conns h.msg)
  stored m h conns none =
      (record m { tasks = store m.tasks h.key h; next_serial = suc m.next_serial }, arming h conns)

  -- LoadAndDelete
  abbrev pub deleted : Shared → Text → List Text → Option Handle → Shared × Pc
  deleted m key keys none = (m, deleting keys)
  deleted m key keys (some h) = (record m { tasks = delete m.tasks key }, stopping h keys)

  -- Add(1) and Load of the count, which no other goroutine changes.
  abbrev pub raised : Shared → Handle → Shared × Pc
  raised m h =
      let cnt = add_one32 (m.counts h.serial) in
      (
        record m { counts = λ n. if n == h.serial then cnt else m.counts n },
        if reaches cnt m.max_retry_cnt then deleting (h.key ∷ []) else sending h,
      )

  -- taskFunc has returned an error, or none.
  abbrev pub sent : Shared → Handle → Option Fault → Shared × Pc
  sent m h (some e) = (record m { effects = pushed h ∷ m.effects }, deleting (h.key ∷ []))
  sent m h none = (record m { effects = touched h ∷ pushed h ∷ m.effects }, rearming h)

  abbrev pub fired : Shared → Option Handle → ℕ → Shared × Pc
  fired m none n = (m, idle)
  fired m (some h) n = (record m { timers = without_nth n m.timers }, running h)

  -- The first move of a call.
  abbrev pub begun : Call → Shared → Shared × Pc
  begun (start conns msg) m = (m, starting conns msg)
  begun (stop key) m = (m, looking key)
  begun (clear conn_id visited) m = (m, deleting (keys_of conn_id visited))
  begun (close visited) m = (m, closing (map (λ h. h.key) visited))
  begun (fires n) m = fired m (place m.timers n) n

  -- A move of a goroutine: where it is idle it begins `call`, and taskFunc returns `outcome`.
  abbrev pub move : Call → Option Fault → Pc → Shared → Shared × Pc
  move call outcome idle m = begun call m
  move call outcome (starting [] msg) m = (m, idle)
  move call outcome (starting (c ∷ cs) msg) m =
      (m, if m.closed then starting cs msg else storing (c ∷ cs) msg)
  move call outcome (storing [] msg) m = (m, idle)
  move call outcome (storing (c ∷ cs) msg) m =
      let h = new_handle m c msg in stored m h cs (load m.tasks h.key)
  move call outcome (arming h cs) m = (record m { timers = h ∷ m.timers }, counting h cs)
  move call outcome (counting h cs) m =
      (record m { total_task_cnt = add_one64 m.total_task_cnt }, starting cs h.msg)
  move call outcome (looking key) m = (m, found (load m.tasks key) (deleting (key ∷ [])))
  move call outcome (closing keys) m =
      (record m { closed = true }, if m.closed then idle else deleting keys)
  move call outcome (deleting []) m = (m, idle)
  move call outcome (deleting (key ∷ keys)) m = deleted m key keys (load m.tasks key)
  move call outcome (stopping h keys) m =
      (record m { timers = unarmed h.serial m.timers }, uncounting keys)
  move call outcome (uncounting keys) m =
      (record m { total_task_cnt = sub64 m.total_task_cnt 1 }, deleting keys)
  move call outcome (running h) m = (m, found (load m.tasks h.key) (raising h))
  move call outcome (raising h) m = raised m h
  move call outcome (sending h) m = sent m h outcome
  move call outcome (rearming h) m = (record m { timers = h ∷ m.timers }, idle)

  abbrev pub turn : ℕ → Call → Option Fault → System → Option Pc → System
  turn i call outcome s none = s
  turn i call outcome s (some pc) =
      let (m, pc') = move call outcome pc s.mem in record { mem = m; pcs = moved s.pcs i pc' }

  unfoldable pub step : Turn → System → System
  step t s = turn t.goroutine t.call t.outcome s (place s.pcs t.goroutine)

  unfoldable pub run : List Turn → System → System
  unfolding step
  run [] s = s
  run (t ∷ ts) s = run ts (step t s)

  -- NewManager with a positive limit, and `n` goroutines.
  unfoldable pub new_system : ℕ → ℕ → System
  new_system n max_retry_cnt = record {
    mem = record {
      tasks = empty;
      total_task_cnt = 0;
      closed = false;
      timers = [];
      counts = λ n. 0;
      next_serial = 0;
      max_retry_cnt = max_retry_cnt;
      effects = [];
    };
    pcs = all_idle n;
  }
