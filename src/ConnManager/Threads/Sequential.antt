-- ===== src/ConnManager/Threads/Sequential.antt =====
-- Each call, where no goroutine of the same user interleaves, against the same call in one step.
use synp.Prelude.{
  ℕ, suc, ◌≡◌, refl, ap, sym, ◌∙◌, Option, none, some, List, [], ◌∷◌, ◌++◌, Option-cases, inl, inr,
}
use synp.Prelude.Text.{text_eq_refl}
use synp.Prelude.Dict.{lookup}
use synp.SyncMap.{SyncMap}
use synp.Session.{User, conn_key}
use synp.Conn.{Conn}
use synp.ConnManager.{
  DeviceConns, ConnManager, find, clear, stored, cleared, user_removed, new_conn, remove_conn,
  remove_user_conn, load_existing_conn, store_conn, find_in,
}
use synp.ConnManager.Abstract.{Call, connects, removes, clears, perform}
use synp.ConnManager.Threads.{
  makes, loaded, loading, finding, removing, making, idle, within, clearing, forgetting, begun,
  new_conn_of,
}
use synp.ConnManager.Threads.Frame.{Slice, put_in, local}
use synp.ConnManager.Threads.Alone.{
  finish, value, value_at, next, put_in-at, finding_some, finding_none, finish-idle,
}
use synp.ConnManager.Threads.Removal.{
  added, Same, load-store_conn, closed-stored, store_alone, removed_alone, remove_conn-found,
  unchanged, removes_alone,
}

abbrev pub call_user : Call → User
call_user (connects u n) = u
call_user (removes u) = u
call_user (clears u) = u

module _ (ops : SyncMap DeviceConns) where
  open ops use {load, store, delete, load-store, load-delete}

  -- NewConn once an older connection is out of the way
  connected :
      (u : User) (n k : ℕ) (s s' : Slice) (m m' : ConnManager ops) (cs : List Conn)
      → value s' ≡ load m'.conns (conn_key u)
      → s'.closed ≡ cs ++ s.closed
      → m'.closed ≡ cs ++ m.closed
      → Same ops u s m
          (finish (suc (suc (suc (suc k)))) (within u (making n)) s')
          (stored ops m' (conn_key u) u.device (new_conn_of u n) (load m'.conns (conn_key u)))
  connected u n k s s' m m' cs h a b =
      let (back, v, w) = store_alone ops u n k s' in
      let o = load m'.conns (conn_key u) in
      (
        back,
        v ∙ ap (λ x. added x u n) h ∙ sym (load-store_conn ops m' u n o),
        (cs, w ∙ a, closed-stored ops m' u n o ∙ b),
      )

  new_conn-cleared :
      (u : User) (n : ℕ) (m m' : ConnManager ops)
      → cleared ops m u (find_in ops (load m.conns (conn_key u)) u.device) ≡ m'
      → (new_conn ops m u n).0
        ≡ stored ops m' (conn_key u) u.device (new_conn_of u n) (load m'.conns (conn_key u))
  unfolding new_conn load_existing_conn store_conn
  new_conn-cleared u n m m' e =
      ap (λ x. stored ops x (conn_key u) u.device (new_conn_of u n) (load x.conns (conn_key u))) e

  loads :
      (u : User) (n k : ℕ) (s : Slice) (o : Option ℕ)
      → s.at ≡ o
      → finish (suc k) (within u (loading n)) s
        ≡ finish k (loaded u (finding n) (within u (making n)) o) s
  unfolding local
  loads u n k s o a =
      next u (loading n) k s (s, loaded u (finding n) (within u (making n)) o)
        (ap (λ o. (s, loaded u (finding n) (within u (making n)) o)) a)

  connects_alone :
      (u : User) (n : ℕ) (s : Slice) (m : ConnManager ops)
      → value s ≡ load m.conns (conn_key u)
      → Same ops u s m (finish 13 (within u (loading n)) s) (new_conn ops m u n).0
  connects_alone u n s m h = elim (Option-cases s.at) [
    | inl a ↦
        let at : load m.conns (conn_key u) ≡ none = sym h ∙ ap (λ o. value_at o s.cells) a in
        rw (loads u n 12 s none a, new_conn-cleared u n m m (unfold find in rw at refl))
          (connected u n 8 s s m m [] h refl refl)
    | inr (p, a) ↦
        let at : load m.conns (conn_key u) ≡ some (s.cells p) =
          sym h ∙ ap (λ o. value_at o s.cells) a in
        elim (Option-cases (lookup u.device (s.cells p))) [
          | inl e ↦
              rw
                (
                  loads u n 12 s (some p) a
                      ∙ next u (finding n p) 11 s (s, within u (making n)) (finding_none u n p s e),
                  new_conn-cleared u n m m (unfold find in rw (at, e) refl),
                )
                (connected u n 7 s s m m [] h refl refl)
          | inr (c, e) ↦
              let (s', r, q, left) = removed_alone ops u (makes n) p 0 s c a e in
              let m' = (remove_conn ops m u).0 in
              let gone = remove_conn-found ops u m (s.cells p) c at e in
              rw
                (
                  loads u n 12 s (some p) a
                      ∙ next u (finding n p) 11 s (s, within u (removing (makes n)))
                          (finding_some u n p s c e)
                      ∙ q,
                  new_conn-cleared u n m m' (unfold find in rw (at, e) refl),
                )
                (connected u n r s s' m m' (c ∷ []) (left.0 ∙ sym gone.0) left.1 gone.1)
        ]
  ]

  emptied :
      (u : User) (p : ℕ) (s : Slice)
      → finish 12 (within u (forgetting p)) s ≡ (put_in s p (clear (s.cells p)).0, idle)
  unfolding finish local
  emptied u p s = refl

  cleared_load :
      (u : User) (m : ConnManager ops) (dc : DeviceConns)
      → load m.conns (conn_key u) ≡ some dc
      → (remove_user_conn ops m u).0 ≡ (user_removed ops m u (some dc)).0
  unfolding remove_user_conn
  cleared_load u m dc at = ap (λ o. (user_removed ops m u o).0) at

  clears_alone :
      (u : User) (s : Slice) (m : ConnManager ops)
      → value s ≡ load m.conns (conn_key u)
      → Same ops u s m (finish 13 (within u clearing) s) (remove_user_conn ops m u).0
  clears_alone u s m h = elim (Option-cases s.at) [
    | inl a ↦
        unchanged ops u s m (remove_user_conn ops m u).0 (finish 13 (within u clearing) s) h
          (next u clearing 12 s (s, idle)
              (unfold local in ap (λ o. (s, loaded u forgetting idle o)) a)
            ∙ finish-idle 12 s)
          (let at : load m.conns (conn_key u) ≡ none = sym h ∙ ap (λ o. value_at o s.cells) a in
            unfold remove_user_conn in rw at refl)
    | inr (p, a) ↦
        let at : load m.conns (conn_key u) ≡ some (s.cells p) =
          sym h ∙ ap (λ o. value_at o s.cells) a in
        rw
          (
            next u clearing 12 s (s, within u (forgetting p))
                  (unfold local in ap (λ o. (s, loaded u forgetting idle o)) a)
                ∙ emptied u p s,
            cleared_load u m (s.cells p) at,
          )
          (
            refl,
            rw (a, load-store, text_eq_refl) (ap some (put_in-at s p (clear (s.cells p)).0)),
            ([], refl, refl),
          )
  ]

  -- One goroutine makes a call of NewConn, RemoveConn or RemoveUserConn, and no other has a turn
  -- for the same user until it comes back. Then it comes back within thirteen moves, and what the
  -- user holds afterwards and which connections were closed, the last first, is what the call in one step
  -- makes of the same connections.
  pub alone_in_one_step :
      (c : Call) (s : Slice) (m : ConnManager ops)
      → value s ≡ load m.conns (conn_key (call_user c))
      → Same ops (call_user c) s m (finish 13 (begun c) s) (perform ops m c)
  unfolding perform
  alone_in_one_step (connects u n) s m h = connects_alone u n s m h
  alone_in_one_step (removes u) s m h = removes_alone ops u s m h
  alone_in_one_step (clears u) s m h = clears_alone u s m h
