-- ===== src/ConnManager/History.antt =====
-- Any calls of NewConn and RemoveConn, and what FindUserConn finds after them.
use synp.Prelude.{
  ◌≡◌, refl, ◌↔◌, ◌⊎◌, Option, none, some, List, [], ◌∷◌, map, arith, All, Bool-cases, inl, inr,
}
use synp.Prelude.Text.{text_eq, text_eq_iff, text_eq_refl}
use synp.Prelude.Dict.{lookup, IsDistinct}
use synp.SyncMap.{SyncMap}
use synp.Session.{User, Device, conn_key}
use synp.Conn.{Conn}
use synp.ConnManager.{
  DeviceConns, ConnManager, find_in, all_in, new_conn_manager, new_conn, remove_conn, find_conn,
  find_user_conn,
}
use synp.ConnManager.Counts.{
  IsValid, new_conn_manager-IsValid, new_conn-IsValid, remove_conn-IsValid,
}
use synp.ConnManager.Abstract.{Call, connects, removes, clears, perform, perform_all}

-- The program makes these two calls, and not RemoveUserConn.
abbrev pub IsUsed : Call → Type 0
IsUsed (connects u serial) = Unit
IsUsed (removes u) = Unit
IsUsed (clears u) = ⊥

-- The connection stands in the list.
abbrev pub In : Conn → List Conn → Type 0
In c [] = ⊥
In c (x ∷ xs) = (x ≡ c) ⊎ In c xs

In-lookup :
    (c : Conn) (dc : DeviceConns)
    → IsDistinct dc
    → In c (map (λ p. p.1) dc)
    → (d : Device) × (lookup d dc ≡ some c)
unfolding lookup IsDistinct
In-lookup c [] h m = absurd m
In-lookup c ((j, v) ∷ dc) h (inl e) = (j, ground (arith, text_eq_refl j))
In-lookup c ((j, v) ∷ dc) h (inr m) =
    let (d, e) = In-lookup c dc h.1 m in (d, ground (arith, text_eq_iff j d, e, h.0))

lookup-In :
    (c : Conn) (d : Device) (dc : DeviceConns) → lookup d dc ≡ some c → In c (map (λ p. p.1) dc)
unfolding lookup
lookup-In c d [] e = cc
lookup-In c d ((j, v) ∷ dc) e = elim (Bool-cases (text_eq j d)) [
  | inl y ↦ inl (ground (arith, e, y))
  | inr n ↦ inr (lookup-In c d dc (simp n at e))
]

module _ (ops : SyncMap DeviceConns) where
  open ops use {load}

  run-IsValid :
      (m : ConnManager ops) (cs : List Call)
      → All IsUsed cs
      → IsValid ops m
      → IsValid ops (perform_all ops m cs)
  unfolding perform_all perform
  run-IsValid m [] u v = v
  run-IsValid m (connects u serial ∷ cs) h v =
      run-IsValid (new_conn ops m u serial).0 cs h.1 (new_conn-IsValid ops m u serial v)
  run-IsValid m (removes u ∷ cs) h v =
      run-IsValid (remove_conn ops m u).0 cs h.1 (remove_conn-IsValid ops m u v)
  run-IsValid m (clears u ∷ cs) h v = absurd h.0

  -- After any calls of NewConn and RemoveConn from a new manager, the counters of connections and users
  -- are those of its map, modulo 2^64; each device has one connection, and each user at least one.
  pub perform_all-IsValid :
      (cs : List Call) → All IsUsed cs → IsValid ops (perform_all ops (new_conn_manager ops) cs)
  perform_all-IsValid cs u = run-IsValid (new_conn_manager ops) cs u (new_conn_manager-IsValid ops)

  -- In a manager that satisfies the invariant, FindUserConn gives exactly the connections that FindConn
  -- finds for the user on any device.
  pub find_user_conn_iff :
      (m : ConnManager ops) (u : User) (c : Conn)
      → IsValid ops m
      → In c (find_user_conn ops m u).0
        ↔ ((d : Device) × (find_conn ops m (record u { device = d }) ≡ some c))
  unfolding find_user_conn find_conn conn_key
  find_user_conn_iff m u c v = go (load m.conns (conn_key u)) refl
    where
      go :
          (o : Option DeviceConns)
          → load m.conns (conn_key u) ≡ o
          → In c (all_in ops o).0 ↔ ((d : Device) × (find_in ops o d ≡ some c))
      go none e = ((λ h. absurd h), (λ p. cc (p.1)))
      go (some dc) e =
          ((λ h. In-lookup c dc (v.tidy (conn_key u) dc e).0 h), (λ p. lookup-In c p.0 dc p.1))
