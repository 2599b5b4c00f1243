-- ===== src/ConnManager/Threads/Removal.antt =====
-- RemoveConn and storeConn, where no goroutine of the same user interleaves, against one step.
use synp.Prelude.{
  ℕ, suc, ◌≡◌, refl, ap, sym, ◌∙◌, true, false, ◌==◌, Option, none, some, List, [], ◌∷◌, ◌++◌,
  if◌then◌else◌, length, arith, Bool-cases, Option-cases, inl, inr, ==_iff,
}
use mathlib.Core.Path.{fun_ext}
use synp.Prelude.Text.{text_eq_refl}
use synp.Prelude.Dict.{lookup, without}
use synp.SyncMap.{SyncMap}
use synp.Session.{User, conn_key}
use synp.Conn.{Conn}
use synp.ConnManager.{
  DeviceConns, new_device_conns, ConnManager, add, remove, stored, removed, remove_conn,
}
use synp.ConnManager.Threads.{
  Then, returns, loaded, resumed, removing, taking, making, Pc, idle, within, new_conn_of,
}
use synp.ConnManager.Threads.Frame.{Slice, put_in, local}
use synp.ConnManager.Threads.Alone.{
  finish, value, value_at, next, put_in-at, taking_lem, without_last, without_one, remove_last,
  remove_one, store_new, store_more, finish-idle, value-with_new, value-with_more,
}

-- What a key holds once a connection is added, and once one is taken out.
abbrev pub added : Option DeviceConns → User → ℕ → Option DeviceConns
added none u n = some (add new_device_conns u.device (new_conn_of u n))
added (some dc) u n = some (add dc u.device (new_conn_of u n))

abbrev pub rest_of : DeviceConns → Option DeviceConns
rest_of dc = if length dc == 0 then none else some dc

module _ (ops : SyncMap DeviceConns) where
  open ops use {load, store, delete, load-store, load-delete}

  -- After a call the key holds the same, and the same connections were closed.
  abbrev pub Same : User → Slice → ConnManager ops → Slice × Pc → ConnManager ops → Type 0
  Same u s m (s', pc) m' =
      (pc ≡ idle)
      × (value s' ≡ load m'.conns (conn_key u))
      × ((cs : List Conn) × (s'.closed ≡ cs ++ s.closed) × (m'.closed ≡ cs ++ m.closed))

  pub load-store_conn :
      (m : ConnManager ops) (u : User) (n : ℕ) (o : Option DeviceConns)
      → load (stored ops m (conn_key u) u.device (new_conn_of u n) o).conns (conn_key u)
        ≡ added o u n
  load-store_conn m u n none = rw (load-store, text_eq_refl) refl
  load-store_conn m u n (some dc) = rw (load-store, text_eq_refl) refl

  pub closed-stored :
      (m : ConnManager ops) (u : User) (n : ℕ) (o : Option DeviceConns)
      → (stored ops m (conn_key u) u.device (new_conn_of u n) o).closed ≡ m.closed
  closed-stored m u n none = refl
  closed-stored m u n (some dc) = refl

  load-removed :
      (m : ConnManager ops) (u : User) (dc : DeviceConns) (c : Conn)
      → load (removed ops m (conn_key u) (dc, some c)).0.conns (conn_key u) ≡ rest_of dc
  load-removed m u dc c = elim (Bool-cases (length dc == 0)) [
    | inl y ↦ rw (y, load-delete, text_eq_refl) refl
    | inr n ↦ rw (n, load-store, text_eq_refl) refl
  ]

  closed-removed :
      (m : ConnManager ops) (u : User) (dc : DeviceConns) (c : Conn)
      → (removed ops m (conn_key u) (dc, some c)).0.closed ≡ c ∷ m.closed
  closed-removed m u dc c = elim (Bool-cases (length dc == 0)) [
    | inl y ↦ rw y refl
    | inr n ↦ rw n refl
  ]

  -- storeConn
  abbrev pub Stored : User → ℕ → Slice → Slice × Pc → Type 0
  Stored u n s (s', pc) = (pc ≡ idle) × (value s' ≡ added (value s) u n) × (s'.closed ≡ s.closed)

  pub store_alone :
      (u : User) (n k : ℕ) (s : Slice)
      → Stored u n s (finish (suc (suc (suc (suc k)))) (within u (making n)) s)
  store_alone u n k s = elim (Option-cases s.at) [
    | inl a ↦ rw (store_new u n k s a, finish-idle, a) (refl, value-with_new s u n, refl)
    | inr (p, a) ↦
        rw (store_more u n (suc k) p s a, finish-idle)
          (refl, value-with_more s p u n a ∙ rw a refl, refl)
  ]

  -- A slice and a manager after RemoveConn has taken out `c` and left `dc`.
  abbrev pub Left : User → DeviceConns → Conn → Slice → Slice → Type 0
  Left u dc c s s' = (value s' ≡ rest_of dc) × (s'.closed ≡ c ∷ s.closed)

  without_last-Left :
      (u : User) (p : ℕ) (s : Slice) (dc : DeviceConns) (c : Conn)
      → (length dc == 0) ≡ true
      → Left u dc c s (without_last s p dc c)
  without_last-Left u p s dc c l = (rw l refl, refl)

  without_one-Left :
      (u : User) (p : ℕ) (s : Slice) (dc : DeviceConns) (c : Conn)
      → s.at ≡ some p
      → (length dc == 0) ≡ false
      → Left u dc c s (without_one s p dc c)
  without_one-Left u p s dc c a l = (rw (a, l) (ap some (put_in-at s p dc)), refl)

  -- RemoveConn of a connection that is there comes back, with at least four moves left of eleven.
  abbrev pub Resumes : User → Then → Conn → DeviceConns → ℕ → Slice → Type 0
  Resumes u after c dc i s =
      (s' : Slice) × (r : ℕ) × (finish
          (suc (suc (suc (suc (suc (suc (suc (suc (suc (suc (suc i)))))))))))
          (within u (removing after)) s
        ≡ finish (suc (suc (suc (suc r)))) (resumed u after) s')
      × Left u dc c s s'

  pub removed_alone :
      (u : User) (after : Then) (p i : ℕ) (s : Slice) (c : Conn)
      → s.at ≡ some p
      → lookup u.device (s.cells p) ≡ some c
      → Resumes u after c (without u.device (s.cells p)) i s
  removed_alone u after p i s c a e =
      let dc = without u.device (s.cells p) in
      elim (Bool-cases (length dc == 0)) [
        | inl y ↦ (
          without_last s p dc c,
          i,
          remove_last u after p (suc (suc (suc (suc i)))) s c a e y,
          without_last-Left u p s dc c y,
        )
        | inr n ↦ (
          without_one s p dc c,
          suc (suc i),
          remove_one u after p (suc (suc (suc (suc (suc (suc i)))))) s c a e n,
          without_one-Left u p s dc c a n,
        )
      ]

  -- RemoveConn in one step, of a connection that is there and of one that is not.
  pub remove_conn-found :
      (u : User) (m : ConnManager ops) (dc : DeviceConns) (c : Conn)
      → load m.conns (conn_key u) ≡ some dc
      → lookup u.device dc ≡ some c
      → (load (remove_conn ops m u).0.conns (conn_key u) ≡ rest_of (without u.device dc))
        × ((remove_conn ops m u).0.closed ≡ c ∷ m.closed)
  unfolding remove_conn remove
  remove_conn-found u m dc c at e =
      let rest = without u.device dc in
      rw (at, e) (load-removed m u rest c, closed-removed m u rest c)

  remove_conn-missing :
      (u : User) (m : ConnManager ops) (dc : DeviceConns)
      → load m.conns (conn_key u) ≡ some dc
      → lookup u.device dc ≡ none
      → (remove_conn ops m u).0 ≡ m
  unfolding remove_conn remove
  remove_conn-missing u m dc at e = rw (at, e) refl

  remove_conn-unknown :
      (u : User) (m : ConnManager ops)
      → load m.conns (conn_key u) ≡ none
      → (remove_conn ops m u).0 ≡ m
  unfolding remove_conn remove
  remove_conn-unknown u m at = rw at refl

  -- A goroutine that has finished without a change.
  pub unchanged :
      (u : User) (s : Slice) (m m' : ConnManager ops) (r : Slice × Pc)
      → value s ≡ load m.conns (conn_key u)
      → r ≡ (s, idle)
      → m' ≡ m
      → Same u s m r m'
  unchanged u s m m' r h e f = rw (e, f) (refl, h, ([], refl, refl))

  load_none :
      (u : User) (after : Then) (k : ℕ) (s : Slice)
      → s.at ≡ none
      → finish (suc k) (within u (removing after)) s ≡ finish k (resumed u after) s
  unfolding local
  load_none u after k s a =
      next u (removing after) k s (s, resumed u after)
        (ap (λ o. (s, loaded u (taking after) (resumed u after) o)) a)

  load_some :
      (u : User) (after : Then) (k p : ℕ) (s : Slice)
      → s.at ≡ some p
      → finish (suc k) (within u (removing after)) s ≡ finish k (within u (taking after p)) s
  unfolding local
  load_some u after k p s a =
      next u (removing after) k s (s, within u (taking after p))
        (ap (λ o. (s, loaded u (taking after) (resumed u after) o)) a)

  -- dc.remove of a device that is not there writes nothing.
  put_in_same : (s : Slice) (p : ℕ) → put_in s p (s.cells p) ≡ s
  put_in_same s p =
      ap (λ (f : ℕ → DeviceConns). record s { cells = f }) (fun_ext λ q. ground (arith, ==_iff p q))

  taken_none :
      (u : User) (p k : ℕ) (s : Slice)
      → lookup u.device (s.cells p) ≡ none
      → finish (suc k) (within u (taking returns p)) s ≡ finish k idle s
  taken_none u p k s e =
      next u (taking returns p) k s (put_in s p (s.cells p), idle) (taking_lem u returns p s none e)
      ∙ ap (finish k idle) (put_in_same s p)

  pub removes_alone :
      (u : User) (s : Slice) (m : ConnManager ops)
      → value s ≡ load m.conns (conn_key u)
      → Same u s m (finish 13 (within u (removing returns)) s) (remove_conn ops m u).0
  removes_alone u s m h = elim (Option-cases s.at) [
    | inl a ↦
        unchanged u s m (remove_conn ops m u).0 (finish 13 (within u (removing returns)) s) h
          (load_none u returns 12 s a ∙ finish-idle 12 s)
          (remove_conn-unknown u m (sym h ∙ ap (λ o. value_at o s.cells) a))
    | inr (p, a) ↦
        let at : load m.conns (conn_key u) ≡ some (s.cells p) =
          sym h ∙ ap (λ o. value_at o s.cells) a in
        elim (Option-cases (lookup u.device (s.cells p))) [
          | inl e ↦
              unchanged u s m (remove_conn ops m u).0 (finish 13 (within u (removing returns)) s) h
                (load_some u returns 12 p s a ∙ taken_none u p 11 s e ∙ finish-idle 11 s)
                (remove_conn-missing u m (s.cells p) at e)
          | inr (c, e) ↦
              let (s', r, q, left) = removed_alone u returns p 2 s c a e in
              let found = remove_conn-found u m (s.cells p) c at e in
              rw (q, finish-idle) (refl, left.0 ∙ sym found.0, (c ∷ [], left.1, found.1))
        ]
  ]
