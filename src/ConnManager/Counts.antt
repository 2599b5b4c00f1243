-- ===== src/ConnManager/Counts.antt =====
-- The counters of the manager against what its map holds.
use synp.Prelude.{
  ℕ, suc, ◌%◌, ◌<◌, ◌≡◌, refl, ap, Option, none, some, [], ◌∷◌, arith, length, ◌==◌, Bool-cases,
  inl, inr, ==_iff,
}
use synp.Prelude.Text.{Text, text_eq_refl}
use synp.Prelude.Dict.{
  lookup, insert, without, IsDistinct, total, total-without, without-missing, insert-IsDistinct,
  without-IsDistinct, nil-IsDistinct, lookup-nil,
}
use synp.Prelude.Word.{word64}
use synp.SyncMap.{SyncMap, sum, sum-empty, sum-store_new, sum-store_old, sum-delete}
use synp.Session.{User, Device, conn_key}
use synp.Conn.{Conn}
use synp.ConnManager.{
  DeviceConns, ConnManager, new_conn_manager, removed, stored, removed_from, cleared, taken_out,
  find_in, remove_conn, new_conn, find_conn, load_existing_conn, find, add,
}
use synp.ConnManager.Lookup.{made, find-remove_conn, find-eq-load}

length-total : (dc : DeviceConns) → total (λ _. 1) dc ≡ length dc
length-total [] = refl
length-total (p ∷ dc) = omega (arith, length-total dc)

length-without :
    (d : Device) (c : Conn) (dc : DeviceConns)
    → IsDistinct dc
    → lookup d dc ≡ some c
    → length dc ≡ suc (length (without d dc))
length-without d c dc h e =
    omega (arith, total-without (λ _. 1) d c dc h e, length-total dc, length-total (without d dc))

-- One connection for a device, and at least one.
abbrev pub IsTidy : DeviceConns → Type 0
IsTidy dc = IsDistinct dc × (0 < length dc)

module _ (ops : SyncMap DeviceConns) where
  open ops use {Map, load, store, delete, load-store, load-delete, load-empty}

  abbrev pub conns_held : ConnManager ops → ℕ
  conns_held m = sum ops length m.conns

  abbrev pub users_held : ConnManager ops → ℕ
  users_held m = sum ops (λ _. 1) m.conns

  -- No user is kept without a connection, and the counters hold the numbers, modulo 2^64.
  pub record IsValid (m : ConnManager ops) : Type 0 where
    pub tidy : (k : Text) (dc : DeviceConns) → load m.conns k ≡ some dc → IsTidy dc
    pub conn_counted : m.conn_cnt ≡ conns_held m % word64
    pub user_counted : m.user_cnt ≡ users_held m % word64

  pub new_conn_manager-IsValid : IsValid (new_conn_manager ops)
  new_conn_manager-IsValid = record {
    tidy = λ k dc e. ground (arith, load-empty k);
    conn_counted = omega (arith, sum-empty ops length);
    user_counted = omega (arith, sum-empty ops (λ _. 1));
  }

  stored-IsValid :
      (m : ConnManager ops) (u : User) (c : Conn) (o : Option DeviceConns)
      → load m.conns (conn_key u) ≡ o
      → find_in ops o u.device ≡ none
      → IsValid m
      → IsValid (stored ops m (conn_key u) u.device c o)
  unfolding find add
  stored-IsValid m u c none e n v = record {
    tidy = λ k dc h. ground (
      arith,
      load-store m.conns (conn_key u) k (insert u.device c []),
      insert-IsDistinct u.device c [] (nil-IsDistinct Conn),
      v.tidy k dc,
    );
    conn_counted = omega (
      arith,
      v.conn_counted,
      sum-store_new ops length m.conns (conn_key u) (insert u.device c []) e,
      ap length (without-missing u.device [] (lookup-nil Conn u.device)),
    );
    user_counted = omega (
      arith,
      v.user_counted,
      sum-store_new ops (λ _. 1) m.conns (conn_key u) (insert u.device c []) e,
    );
  }
  stored-IsValid m u c (some dc) e n v = record {
    tidy = λ k dc' h. ground (
      arith,
      load-store m.conns (conn_key u) k (insert u.device c dc),
      insert-IsDistinct u.device c dc (v.tidy (conn_key u) dc e).0,
      v.tidy k dc',
    );
    conn_counted = omega (
      arith,
      v.conn_counted,
      sum-store_old ops length m.conns (conn_key u) (insert u.device c dc) dc e,
      ap length (without-missing u.device dc n),
    );
    user_counted = omega (
      arith,
      v.user_counted,
      sum-store_old ops (λ _. 1) m.conns (conn_key u) (insert u.device c dc) dc e,
    );
  }

  taken_out-IsValid :
      (m : ConnManager ops) (u : User) (dc : DeviceConns) (o : Option Conn)
      → load m.conns (conn_key u) ≡ some dc
      → lookup u.device dc ≡ o
      → IsValid m
      → IsValid (removed ops m (conn_key u) (taken_out dc u.device o)).0
  taken_out-IsValid m u dc none e f v = v
  taken_out-IsValid m u dc (some c) e f v = elim (Bool-cases (length (without u.device dc) == 0)) [
    | inl z ↦ rw z (record {
      tidy = λ k dc' h. ground (arith, load-delete m.conns (conn_key u) k, v.tidy k dc');
      conn_counted = omega (
        arith,
        v.conn_counted,
        sum-delete ops length m.conns (conn_key u) dc e,
        less,
        (==_iff _ _).0 z,
      );
      user_counted =
          omega (arith, v.user_counted, sum-delete ops (λ _. 1) m.conns (conn_key u) dc e);
    })
    | inr z ↦ rw z (record {
      tidy = λ k dc' h. ground (
        arith,
        load-store m.conns (conn_key u) k (without u.device dc),
        without-IsDistinct u.device dc (v.tidy (conn_key u) dc e).0,
        v.tidy k dc',
      );
      conn_counted = omega (
        arith,
        v.conn_counted,
        sum-store_old ops length m.conns (conn_key u) (without u.device dc) dc e,
        less,
      );
      user_counted = omega (
        arith,
        v.user_counted,
        sum-store_old ops (λ _. 1) m.conns (conn_key u) (without u.device dc) dc e,
      );
    })
  ]
    where
      less : length dc ≡ suc (length (without u.device dc))
      less = length-without u.device c dc (v.tidy (conn_key u) dc e).0 f

  -- RemoveConn keeps the counters exact, whether the connection is there or not.
  pub remove_conn-IsValid :
      (m : ConnManager ops) (u : User) → IsValid m → IsValid (remove_conn ops m u).0
  unfolding remove_conn
  remove_conn-IsValid m u v = go (load m.conns (conn_key u)) refl
    where
      go :
          (o : Option DeviceConns)
          → load m.conns (conn_key u) ≡ o
          → IsValid (removed_from ops m u o).0
      go none e = v
      go (some dc) e = taken_out-IsValid m u dc (lookup u.device dc) e refl v

  cleared-IsValid :
      (m : ConnManager ops) (u : User) (o : Option Conn) → IsValid m → IsValid (cleared ops m u o)
  cleared-IsValid m u none v = v
  cleared-IsValid m u (some old) v = remove_conn-IsValid m u v

  find-cleared_self :
      (m : ConnManager ops) (u : User) (o : Option Conn)
      → find_conn ops m u ≡ o
      → find_conn ops (cleared ops m u o) u ≡ none
  find-cleared_self m u none e = e
  find-cleared_self m u (some old) e =
      ground (arith, find-remove_conn ops m u u, text_eq_refl (conn_key u), text_eq_refl u.device)

  -- NewConn keeps the counters exact, also where it takes the place of a connection.
  pub new_conn-IsValid :
      (m : ConnManager ops) (u : User) (serial : ℕ)
      → IsValid m
      → IsValid (new_conn ops m u serial).0
  unfolding new_conn
  new_conn-IsValid m u serial v =
      let before = cleared ops m u (load_existing_conn ops m (conn_key u) u.device) in
      stored-IsValid before u (made u serial) (load before.conns (conn_key u)) refl
        (unfold find_conn in
          find-cleared_self m u (load_existing_conn ops m (conn_key u) u.device)
            (find-eq-load ops m u))
        (cleared-IsValid m u (load_existing_conn ops m (conn_key u) u.device) v)
