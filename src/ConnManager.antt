-- ===== src/ConnManager.antt =====
-- internal/ws/conn/conn_manager.go: the connections of each user, one for each device.
-- The manager's map holds pointers to DeviceConns; a change made through the pointer is a store of
-- the changed value under its key. The operations run one after another.
pub mod Lookup
pub mod Counts
pub mod Replaced
pub mod Abstract
pub mod History
pub mod Threads
mod Examples
use synp.Prelude.{
  ℕ, ◌+◌, ◌%◌, ◌-◌, Bool, true, false, Option, none, some, List, [], ◌∷◌, map, if◌then◌else◌,
  length, ◌==◌, ltb,
}
use synp.Prelude.Text.{Text}
use synp.Prelude.Dict.{Dict, lookup, insert, without}
use synp.Prelude.Word.{add_one64, sub64}
use synp.SyncMap.{SyncMap}
use synp.Session.{User, Device, conn_key, conn_id}
use synp.Conn.{Conn}

-- map[session.Device]synp.Conn, read and written under its lock
abbrev pub DeviceConns : Type 0
DeviceConns = Dict Conn

abbrev pub new_device_conns : DeviceConns
new_device_conns = []

unfoldable pub add : DeviceConns → Device → Conn → DeviceConns
add dc device conn = insert device conn dc

abbrev pub taken_out : DeviceConns → Device → Option Conn → DeviceConns × Option Conn
taken_out dc device (some conn) = (without device dc, some conn)
taken_out dc device none = (dc, none)

unfoldable pub remove : DeviceConns → Device → DeviceConns × Option Conn
remove dc device = taken_out dc device (lookup device dc)

unfoldable pub find : DeviceConns → Device → Option Conn
find dc device = lookup device dc

unfoldable pub find_all : DeviceConns → List Conn × Bool
find_all dc = let conns = map (λ p. p.1) dc in (conns, ltb 0 (length conns))

unfoldable pub clear : DeviceConns → DeviceConns × ℕ
clear dc = ([], length dc)

module _ (ops : SyncMap DeviceConns) where
  open ops use {Map, empty, load, store, delete}

  -- `closed` lists the connections that the manager has closed, the last one first.
  pub record ConnManager : Type 0 where
    pub conns : Map
    pub conn_cnt : ℕ
    pub user_cnt : ℕ
    pub closed : List Conn

  abbrev pub new_conn_manager : ConnManager
  new_conn_manager = record { conns = empty; conn_cnt = 0; user_cnt = 0; closed = [] }

  abbrev pub find_in : Option DeviceConns → Device → Option Conn
  find_in none device = none
  find_in (some dc) device = find dc device

  unfoldable pub load_existing_conn : ConnManager → Text → Device → Option Conn
  unfolding find
  load_existing_conn m key device = find_in (load m.conns key) device

  -- What storeConn does in the two cases of `loaded`.
  abbrev pub stored : ConnManager → Text → Device → Conn → Option DeviceConns → ConnManager
  stored m cid device conn (some dc) = record m {
    conns = store m.conns cid (add dc device conn);
    conn_cnt = add_one64 m.conn_cnt;
  }
  stored m cid device conn none = record m {
    conns = store m.conns cid (add new_device_conns device conn);
    user_cnt = add_one64 m.user_cnt;
    conn_cnt = add_one64 m.conn_cnt;
  }

  -- LoadOrStore(cid, newDeviceConns()), then dc.add
  unfoldable pub store_conn : ConnManager → Text → Device → Conn → ConnManager
  unfolding add
  store_conn m cid device conn = stored m cid device conn (load m.conns cid)

  -- The part of RemoveConn after the load; the deferred Close of the connection comes last.
  abbrev pub removed : ConnManager → Text → DeviceConns × Option Conn → ConnManager × Bool
  removed m key (dc, none) = (m, false)
  removed m key (dc, some conn) =
      if length dc == 0
      then (
        record m {
          conns = delete m.conns key;
          conn_cnt = sub64 m.conn_cnt 1;
          user_cnt = sub64 m.user_cnt 1;
          closed = conn ∷ m.closed;
        },
        true,
      )
      else (
        record m {
          conns = store m.conns key dc;
          conn_cnt = sub64 m.conn_cnt 1;
          closed = conn ∷ m.closed;
        },
        true,
      )

  abbrev pub removed_from : ConnManager → User → Option DeviceConns → ConnManager × Bool
  removed_from m user none = (m, false)
  removed_from m user (some dc) = removed m (conn_key user) (remove dc user.device)

  unfoldable pub remove_conn : ConnManager → User → ConnManager × Bool
  unfolding remove
  remove_conn m user = removed_from m user (load m.conns (conn_key user))

  -- An existing connection of the same device is removed first.
  abbrev pub cleared : ConnManager → User → Option Conn → ConnManager
  cleared m user (some old) = (remove_conn m user).0
  cleared m user none = m

  -- NewConn with the serial number of the object that it makes
  unfoldable pub new_conn : ConnManager → User → ℕ → ConnManager × Conn
  unfolding load_existing_conn store_conn remove_conn
  new_conn m user serial =
      let conn : Conn = record { serial = serial; id = conn_id user; user = user } in
      let before = cleared m user (load_existing_conn m (conn_key user) user.device) in
      (store_conn before (conn_key user) user.device conn, conn)

  abbrev pub user_removed : ConnManager → User → Option DeviceConns → ConnManager × Bool
  user_removed m user none = (m, false)
  user_removed m user (some dc) = (
    record m {
      conns = store m.conns (conn_key user) (clear dc).0;
      user_cnt = sub64 m.user_cnt 1;
      conn_cnt = sub64 m.conn_cnt (clear dc).1;
    },
    true,
  )

  unfoldable pub remove_user_conn : ConnManager → User → ConnManager × Bool
  unfolding clear
  remove_user_conn m user = user_removed m user (load m.conns (conn_key user))

  unfoldable pub find_conn : ConnManager → User → Option Conn
  unfolding load_existing_conn find
  find_conn m user = find_in (load m.conns (conn_key user)) user.device

  abbrev pub all_in : Option DeviceConns → List Conn × Bool
  all_in none = ([], false)
  all_in (some dc) = find_all dc

  unfoldable pub find_user_conn : ConnManager → User → List Conn × Bool
  unfolding find_all
  find_user_conn m user = all_in (load m.conns (conn_key user))
