-- ===== src/ConnManager/Replaced.antt =====
-- Which connections the manager closes, and what two of its operations leave behind.
use synp.Prelude.{
  ℕ, ◌≡◌, refl, sym, ◌∙◌, ap, Bool, true, false, Option, none, some, List, [], ◌∷◌, arith,
}
use synp.Prelude.Text.{Text, text_eq_refl}
use synp.Prelude.Dict.{lookup}
use synp.Prelude.Word.{sub64}
use synp.SyncMap.{SyncMap}
use synp.Session.{User, Device, conn_key}
use synp.Conn.{Conn}
use synp.ConnManager.{
  DeviceConns, ConnManager, removed, stored, removed_from, cleared, taken_out, find_in, remove_conn,
  new_conn, remove_user_conn, find_conn, find_user_conn, load_existing_conn,
}
use synp.ConnManager.Lookup.{made, find-remove_conn, find-new_conn, find-eq-load}

-- The list with a connection in front, if there is one.
abbrev pub with_found : Option Conn → List Conn → List Conn
with_found none cs = cs
with_found (some c) cs = c ∷ cs

abbrev pub is_found : Option Conn → Bool
is_found none = false
is_found (some c) = true

module _ (ops : SyncMap DeviceConns) where
  open ops use {Map, load, store, delete, load-store}

  closed-taken_out :
      (m : ConnManager ops) (key : Text) (dc : DeviceConns) (d : Device) (o : Option Conn)
      → ((removed ops m key (taken_out dc d o)).0.closed ≡ with_found o m.closed)
        × ((removed ops m key (taken_out dc d o)).1 ≡ is_found o)
  closed-taken_out m key dc d none = (refl, refl)
  closed-taken_out m key dc d (some c) = ground arith

  -- RemoveConn closes the connection that it takes out of the map, and no other; it returns true
  -- exactly when there was one.
  pub closed-remove_conn :
      (m : ConnManager ops) (u : User)
      → ((remove_conn ops m u).0.closed ≡ with_found (find_conn ops m u) m.closed)
        × ((remove_conn ops m u).1 ≡ is_found (find_conn ops m u))
  unfolding remove_conn find_conn
  closed-remove_conn m u = go (load m.conns (conn_key u))
    where
      go :
          (o : Option DeviceConns)
          → ((removed_from ops m u o).0.closed ≡ with_found (find_in ops o u.device) m.closed)
            × ((removed_from ops m u o).1 ≡ is_found (find_in ops o u.device))
      go none = (refl, refl)
      go (some dc) = closed-taken_out m (conn_key u) dc u.device (lookup u.device dc)

  closed-store_conn :
      (m : ConnManager ops) (key : Text) (d : Device) (c : Conn) (o : Option DeviceConns)
      → (stored ops m key d c o).closed ≡ m.closed
  closed-store_conn m key d c none = refl
  closed-store_conn m key d c (some dc) = refl

  closed-cleared :
      (m : ConnManager ops) (u : User) (o : Option Conn)
      → find_conn ops m u ≡ o
      → (cleared ops m u o).closed ≡ with_found o m.closed
  closed-cleared m u none e = refl
  closed-cleared m u (some c) e = ground (arith, closed-remove_conn m u)

  -- NewConn closes the connection that it replaces, if there is one, and no other.
  pub closed-new_conn :
      (m : ConnManager ops) (u : User) (serial : ℕ)
      → (new_conn ops m u serial).0.closed ≡ with_found (find_conn ops m u) m.closed
  unfolding new_conn
  closed-new_conn m u serial =
      let old = load_existing_conn ops m (conn_key u) u.device in
      let before = cleared ops m u old in
      closed-store_conn before (conn_key u) u.device (made u serial)
        (load before.conns (conn_key u))
      ∙ closed-cleared m u old (find-eq-load ops m u)
      ∙ ap (λ o. with_found o m.closed) (sym (find-eq-load ops m u))

  -- A user connects again from the same device, and then RemoveConn is called for the connection
  -- that was replaced, as the deferred call of its handler does: it is the new connection that is
  -- closed and forgotten.
  pub replaced_handler_removes_new :
      (m : ConnManager ops) (u : User) (serial : ℕ)
      → ((remove_conn ops (new_conn ops m u serial).0 u).1 ≡ true)
        × ((remove_conn ops (new_conn ops m u serial).0 u).0.closed
            ≡ made u serial ∷ with_found (find_conn ops m u) m.closed)
        × (find_conn ops (remove_conn ops (new_conn ops m u serial).0 u).0 u ≡ none)
  replaced_handler_removes_new m u serial =
      let after = (new_conn ops m u serial).0 in
      let found : find_conn ops after u ≡ some (made u serial) =
        ground (
          arith,
          find-new_conn ops m u u serial,
          text_eq_refl (conn_key u),
          text_eq_refl u.device,
        ) in
      (
        ground (arith, closed-remove_conn after u),
        ground (arith, closed-remove_conn after u, closed-new_conn m u serial),
        ground (
          arith,
          find-remove_conn ops after u u,
          text_eq_refl (conn_key u),
          text_eq_refl u.device,
        ),
      )

  -- RemoveUserConn closes nothing, and keeps the user's entry: the next call takes the user off the
  -- counter once more.
  pub remove_user_conn_twice :
      (m : ConnManager ops) (u : User) (dc : DeviceConns)
      → load m.conns (conn_key u) ≡ some dc
      → let once = (remove_user_conn ops m u).0 in
        let twice = remove_user_conn ops once u in
        (once.closed ≡ m.closed)
        × (find_user_conn ops once u ≡ ([], false))
        × (twice.1 ≡ true)
        × (twice.0.user_cnt ≡ sub64 (sub64 m.user_cnt 1) 1)
  unfolding remove_user_conn find_user_conn
  remove_user_conn_twice m u dc e =
      ground (arith, load-store m.conns (conn_key u) (conn_key u) [], text_eq_refl (conn_key u))
