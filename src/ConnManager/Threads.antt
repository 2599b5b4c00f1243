-- ===== src/ConnManager/Threads.antt =====
-- internal/ws/conn/conn_manager.go with goroutines that are interleaved: each move of one is an access
-- of what they share, the map, a DeviceConns under its lock, or a counter.
-- A DeviceConns is an object: the map holds its number, counted for each key of the map, under which
-- alone storeConn puts new ones.
pub mod Frame
pub mod Apart
pub mod Alone
pub mod Removal
pub mod Sequential
pub mod Serial
mod Examples
use synp.Prelude.{
  ℕ, zero, suc, Bool, true, false, ◌&&◌, ◌==◌, Option, none, some, List, [], ◌∷◌, if◌then◌else◌,
  length,
}
use synp.Prelude.Text.{Text, text_eq}
use synp.Prelude.Word.{add_one64, sub64}
use synp.Prelude.Goroutines.{place, moved}
use synp.SyncMap.{SyncMap}
use synp.Session.{User, conn_key, conn_id}
use synp.Conn.{Conn}
use synp.ConnManager.Abstract.{Call, connects, removes, clears}
use synp.ConnManager.{DeviceConns, new_device_conns, add, remove, find, clear}

-- What a goroutine does when RemoveConn returns: NewConn goes on with the serial number of the object
-- that it makes.
pub data Then : Type 0 where
  returns : Then
  makes : ℕ → Then

-- Where a goroutine stands in a call, and its local variables.
pub data Place : Type 0 where
  loading : ℕ → Place  -- NewConn, before Load
  finding : ℕ → ℕ → Place  -- before dc.find
  removing : Then → Place  -- RemoveConn, before Load
  taking : Then → ℕ → Place  -- before dc.remove
  lowering : Then → ℕ → Conn → Place  -- before connCnt.Add(-1)
  measuring : Then → ℕ → Conn → Place  -- before len(dc.conns)
  unmapping : Then → Conn → Place  -- before conns.Delete
  leaving : Then → Conn → Place  -- before userCnt.Add(-1)
  shutting : Then → Conn → Place  -- before conn.Close
  making : ℕ → Place  -- storeConn, before LoadOrStore
  welcoming : ℕ → ℕ → Place  -- before userCnt.Add(1)
  putting : ℕ → ℕ → Place  -- before dc.add
  raising : Place  -- before connCnt.Add(1)
  clearing : Place  -- RemoveUserConn, before Load
  forgetting : ℕ → Place  -- before userCnt.Add(-1)
  emptying : ℕ → Place  -- before dc.clear
  dropping : ℕ → Place  -- before connCnt.Add of the negative count

pub data Pc : Type 0 where
  idle : Pc
  within : User → Place → Pc

-- What begins in a goroutine that is idle: NewConn, RemoveConn or RemoveUserConn.
abbrev pub begun : Call → Pc
begun (connects u serial) = within u (loading serial)
begun (removes u) = within u (removing returns)
begun (clears u) = within u clearing

abbrev pub resumed : User → Then → Pc
resumed u returns = idle
resumed u (makes serial) = within u (making serial)

abbrev pub new_conn_of : User → ℕ → Conn
new_conn_of u serial = record { serial = serial; id = conn_id u; user = u }

-- The branches on what a Load or dc.find gives.
abbrev pub loaded : User → (ℕ → Place) → Pc → Option ℕ → Pc
loaded u next absent none = absent
loaded u next absent (some p) = within u (next p)

abbrev pub found : User → ℕ → Option Conn → Pc
found u serial none = within u (making serial)
found u serial (some old) = within u (removing (makes serial))

abbrev pub taken : User → Then → ℕ → Option Conn → Pc
taken u after p none = resumed u after
taken u after p (some c) = within u (lowering after p c)

module _ (ops : SyncMap ℕ) where
  open ops use {Map, empty, load, store, delete}

  -- `cells` are the maps inside the objects, by key and number, `next_cell` the number of the next
  -- object of a key, and `closed` the connections that were closed, the last first, by the key under
  -- which they were found.
  pub record Shared : Type 0 where
    pub conns : Map
    pub cells : Text → ℕ → DeviceConns
    pub next_cell : Text → ℕ
    pub conn_cnt : ℕ
    pub user_cnt : ℕ
    pub closed : Text → List Conn

  pub record System : Type 0 where
    pub mem : Shared
    pub pcs : List Pc

  -- A write through the pointer to the object `p` of the key.
  abbrev pub written : Shared → Text → ℕ → DeviceConns → Shared
  written m key p dc = record m {
    cells = λ k q. if text_eq key k && p == q then dc else m.cells k q;
  }

  -- LoadOrStore(cid, newDeviceConns())
  abbrev pub load_or_store : Shared → User → ℕ → Option ℕ → Shared × Pc
  load_or_store m u serial (some p) = (m, within u (putting serial p))
  load_or_store m u serial none =
      let key = conn_key u in
      let p = m.next_cell key in
      let m' = written m key p new_device_conns in
      (
        record m' {
          conns = store m.conns key p;
          next_cell = λ k. if text_eq key k then suc p else m.next_cell k;
        },
        within u (welcoming serial p),
      )

  -- A move of a goroutine inside a call for the user.
  unfoldable pub move : User → Place → Shared → Shared × Pc
  unfolding add remove find clear
  move u (loading serial) m =
      (m, loaded u (finding serial) (within u (making serial)) (load m.conns (conn_key u)))
  move u (finding serial p) m = (m, found u serial (find (m.cells (conn_key u) p) u.device))
  move u (removing after) m =
      (m, loaded u (taking after) (resumed u after) (load m.conns (conn_key u)))
  move u (taking after p) m =
      let out = remove (m.cells (conn_key u) p) u.device in
      (written m (conn_key u) p out.0, taken u after p out.1)
  move u (lowering after p c) m =
      (record m { conn_cnt = sub64 m.conn_cnt 1 }, within u (measuring after p c))
  move u (measuring after p c) m = (
    m,
    within u (if length (m.cells (conn_key u) p) == 0 then unmapping after c else shutting after c),
  )
  move u (unmapping after c) m =
      (record m { conns = delete m.conns (conn_key u) }, within u (leaving after c))
  move u (leaving after c) m =
      (record m { user_cnt = sub64 m.user_cnt 1 }, within u (shutting after c))
  move u (shutting after c) m = (
    record m { closed = λ k. if text_eq (conn_key u) k then c ∷ m.closed k else m.closed k },
    resumed u after,
  )
  move u (making serial) m = load_or_store m u serial (load m.conns (conn_key u))
  move u (welcoming serial p) m =
      (record m { user_cnt = add_one64 m.user_cnt }, within u (putting serial p))
  move u (putting serial p) m = (
    written m (conn_key u) p (add (m.cells (conn_key u) p) u.device (new_conn_of u serial)),
    within u raising,
  )
  move u raising m = (record m { conn_cnt = add_one64 m.conn_cnt }, idle)
  move u clearing m = (m, loaded u forgetting idle (load m.conns (conn_key u)))
  move u (forgetting p) m = (record m { user_cnt = sub64 m.user_cnt 1 }, within u (emptying p))
  move u (emptying p) m =
      let (dc, cnt) = clear (m.cells (conn_key u) p) in
      (written m (conn_key u) p dc, within u (dropping cnt))
  move u (dropping cnt) m = (record m { conn_cnt = sub64 m.conn_cnt cnt }, idle)

  -- A turn of a goroutine, which begins `call` where it is idle.
  abbrev pub turn : ℕ → Call → System → Option Pc → System
  turn i call s none = s
  turn i call s (some idle) = record s { pcs = moved s.pcs i (begun call) }
  turn i call s (some (within u at)) =
      let (m, pc) = move u at s.mem in record { mem = m; pcs = moved s.pcs i pc }

  unfoldable pub step : ℕ × Call → System → System
  unfolding move
  step (i, call) s = turn i call s (place s.pcs i)

  unfoldable pub run : List (ℕ × Call) → System → System
  unfolding step
  run [] s = s
  run (t ∷ ts) s = run ts (step t s)

  -- NewConnManager
  abbrev pub new_mem : Shared
  new_mem = record {
    conns = empty;
    cells = λ k p. [];
    next_cell = λ k. 0;
    conn_cnt = 0;
    user_cnt = 0;
    closed = λ k. [];
  }
