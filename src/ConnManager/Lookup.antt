-- ===== src/ConnManager/Lookup.antt =====
-- The manager against its contract: a map from user and device to the connection.
use synp.Prelude.{
  ℕ, ◌≡◌, refl, Bool, true, false, ◌&&◌, Option, none, some, List, [], ◌∷◌, arith, if◌then◌else◌,
  length, ◌==◌, Bool-cases, ◌⊎◌, inl, inr,
}
use synp.Prelude.Text.{Text, text_eq, text_eq_iff}
use synp.Prelude.Dict.{lookup, insert, without, lookup-insert, lookup-without, lookup-nil}
use synp.SyncMap.{SyncMap}
use synp.Session.{User, conn_key, conn_id}
use synp.Conn.{Conn}
use synp.ConnManager.{
  DeviceConns, ConnManager, removed, store_conn, remove_conn, new_conn, remove_user_conn, find_conn,
  load_existing_conn, add, stored, taken_out, removed_from, user_removed, cleared,
}

-- The same user on the same device.
abbrev pub same_place : User → User → Bool
same_place u v = text_eq (conn_key u) (conn_key v) && text_eq u.device v.device

abbrev pub made : User → ℕ → Conn
made user serial = record { serial = serial; id = conn_id user; user = user }

Nil-cases : {A : Type 0} (xs : List A) → ((length xs == 0) ≡ true) ⊎ ((length xs == 0) ≡ false)
Nil-cases xs = Bool-cases (length xs == 0)

lookup-empty : (k : Text) (dc : DeviceConns) → length dc ≡ 0 → lookup k dc ≡ none
lookup-empty k [] e = lookup-nil Conn k
lookup-empty k (p ∷ dc) e = absurd (omega arith)

module _ (ops : SyncMap DeviceConns) where
  open ops use {Map, load, store, delete, load-store, load-delete}

  find-stored :
      (m : ConnManager ops) (u v : User) (c : Conn) (o : Option DeviceConns)
      → load m.conns (conn_key u) ≡ o
      → find_conn ops (stored ops m (conn_key u) u.device c o) v
        ≡ (if same_place u v then some c else find_conn ops m v)
  unfolding find_conn add
  find-stored m u v c none e = ground (
    arith,
    text_eq_iff (conn_key u) (conn_key v),
    load-store m.conns (conn_key u) (conn_key v) (insert u.device c []),
    lookup-insert u.device v.device c [],
    lookup-nil Conn v.device,
  )
  find-stored m u v c (some dc) e = ground (
    arith,
    text_eq_iff (conn_key u) (conn_key v),
    load-store m.conns (conn_key u) (conn_key v) (insert u.device c dc),
    lookup-insert u.device v.device c dc,
  )

  find-store_conn :
      (m : ConnManager ops) (u v : User) (c : Conn)
      → find_conn ops (store_conn ops m (conn_key u) u.device c) v
        ≡ (if same_place u v then some c else find_conn ops m v)
  unfolding store_conn
  find-store_conn m u v c = find-stored m u v c (load m.conns (conn_key u)) refl

  find-taken_out :
      (m : ConnManager ops) (u v : User) (dc : DeviceConns) (o : Option Conn)
      → load m.conns (conn_key u) ≡ some dc
      → lookup u.device dc ≡ o
      → find_conn ops (removed ops m (conn_key u) (taken_out dc u.device o)).0 v
        ≡ (if same_place u v then none else find_conn ops m v)
  unfolding find_conn
  find-taken_out m u v dc none e f =
      ground (arith, text_eq_iff (conn_key u) (conn_key v), text_eq_iff u.device v.device)
  find-taken_out m u v dc (some c) e f = elim (Nil-cases (without u.device dc)) [
    | inl z ↦ ground (
      arith,
      text_eq_iff (conn_key u) (conn_key v),
      load-delete m.conns (conn_key u) (conn_key v),
      lookup-without u.device v.device dc,
      lookup-empty v.device (without u.device dc),
    )
    | inr z ↦ ground (
      arith,
      text_eq_iff (conn_key u) (conn_key v),
      load-store m.conns (conn_key u) (conn_key v) (without u.device dc),
      lookup-without u.device v.device dc,
    )
  ]

  -- RemoveConn takes away the connection of that user and device, and no other.
  pub find-remove_conn :
      (m : ConnManager ops) (u v : User)
      → find_conn ops (remove_conn ops m u).0 v
        ≡ (if same_place u v then none else find_conn ops m v)
  unfolding remove_conn
  find-remove_conn m u v = go (load m.conns (conn_key u)) refl
    where
      go :
          (o : Option DeviceConns)
          → load m.conns (conn_key u) ≡ o
          → find_conn ops (removed_from ops m u o).0 v
            ≡ (if same_place u v then none else find_conn ops m v)
      go none e = unfold find_conn in ground (arith, text_eq_iff (conn_key u) (conn_key v))
      go (some dc) e = find-taken_out m u v dc (lookup u.device dc) e refl

  find-same_place :
      (m : ConnManager ops) (u v : User)
      → same_place u v ≡ true
      → find_conn ops m u ≡ none
      → find_conn ops m v ≡ none
  unfolding find_conn
  find-same_place m u v y e =
      ground (arith, text_eq_iff (conn_key u) (conn_key v), text_eq_iff u.device v.device)

  pub find-eq-load :
      (m : ConnManager ops) (u : User)
      → find_conn ops m u ≡ load_existing_conn ops m (conn_key u) u.device
  unfolding find_conn load_existing_conn
  find-eq-load m u = refl

  find-cleared :
      (m : ConnManager ops) (u v : User) (o : Option Conn)
      → find_conn ops m u ≡ o
      → find_conn ops (cleared ops m u o) v ≡ (if same_place u v then none else find_conn ops m v)
  find-cleared m u v (some old) e = find-remove_conn m u v
  find-cleared m u v none e = elim (Bool-cases (same_place u v)) [
    | inl y ↦ rw y (find-same_place m u v y e)
    | inr n ↦ rw n
  ]

  -- NewConn puts the new connection in the place of the user and device, and changes no other.
  pub find-new_conn :
      (m : ConnManager ops) (u v : User) (serial : ℕ)
      → find_conn ops (new_conn ops m u serial).0 v
        ≡ (if same_place u v then some (made u serial) else find_conn ops m v)
  unfolding new_conn
  find-new_conn m u v serial =
      let before = cleared ops m u (load_existing_conn ops m (conn_key u) u.device) in
      ground (
        arith,
        find-store_conn before u v (made u serial),
        find-cleared m u v (load_existing_conn ops m (conn_key u) u.device) (find-eq-load m u),
      )

  -- After RemoveUserConn no device of the user is found, and every other user keeps his.
  pub find-remove_user_conn :
      (m : ConnManager ops) (u v : User)
      → find_conn ops (remove_user_conn ops m u).0 v
        ≡ (if text_eq (conn_key u) (conn_key v) then none else find_conn ops m v)
  unfolding remove_user_conn
  find-remove_user_conn m u v = go (load m.conns (conn_key u)) refl
    where
      go :
          (o : Option DeviceConns)
          → load m.conns (conn_key u) ≡ o
          → find_conn ops (user_removed ops m u o).0 v
            ≡ (if text_eq (conn_key u) (conn_key v) then none else find_conn ops m v)
      go none e = unfold find_conn in ground (arith, text_eq_iff (conn_key u) (conn_key v))
      go (some dc) e =
          unfold find_conn in
          ground (
            arith,
            text_eq_iff (conn_key u) (conn_key v),
            load-store m.conns (conn_key u) (conn_key v) [],
            lookup-nil Conn v.device,
          )
