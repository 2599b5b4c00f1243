-- ===== src/Retransmit/Tasks.antt =====
-- Which tasks the operations leave in the manager.
use synp.Prelude.{
  ◌≡◌, refl, ◌∙◌, ap, Bool, true, false, ◌&&◌, ◌||◌, Option, none, some, List, [], ◌∷◌, arith,
  if◌then◌else◌, Bool-cases, inl, inr,
}
use synp.Prelude.Text.{Text, text_eq, text_eq_iff}
use synp.Prelude.Dict.{Dict, lookup, IsDistinct}
use synp.SyncMap.{SyncMap}
use synp.Message.{Message}
use synp.Conn.{Conn}
use synp.Retransmit.{
  Task, Manager, task_key, deleted, stop_and_delete, start_one, start, stop_task, sweep,
  clear_by_conn, close,
}

-- Some pair of the list has this key and passes the test.
hit : (Task → Bool) → Text → Dict Task → Bool
hit test k [] = false
hit test k ((j, t) ∷ l) = (text_eq j k && test t) || hit test k l

passes : (Task → Bool) → Option Task → Bool
passes test none = false
passes test (some t) = test t

hit-lookup :
    (test : Task → Bool) (k : Text) (l : Dict Task)
    → IsDistinct l
    → hit test k l ≡ passes test (lookup k l)
unfolding hit passes lookup IsDistinct
hit-lookup test k [] d = refl
hit-lookup test k ((j, t) ∷ l) d = elim (Bool-cases (text_eq j k)) [
  | inl e ↦
      let gone : lookup k l ≡ none = rw (← (text_eq_iff j k).0 e) d.0 in
      rw e (ground (arith, hit-lookup test k l d.1, gone))
  | inr e ↦ rw e (hit-lookup test k l d.1)
]

module _ (ops : SyncMap Task) where
  open ops use {
    Map, load, store, delete, range, load-store, load-delete, lookup-range, range-IsDistinct,
  }

  load-deleted :
      (m : Manager ops) (k j : Text) (o : Option Task)
      → load m.tasks k ≡ o
      → load (deleted ops m k o).0.tasks j ≡ (if text_eq k j then none else load m.tasks j)
  load-deleted m k j none e = ground (arith, text_eq_iff k j)
  load-deleted m k j (some t) e = load-delete m.tasks k j

  pub load-stop_and_delete :
      (m : Manager ops) (k j : Text)
      → load (stop_and_delete ops m k).0.tasks j ≡ (if text_eq k j then none else load m.tasks j)
  unfolding stop_and_delete
  load-stop_and_delete m k j = load-deleted m k j (load m.tasks k) refl

  -- Stop takes away the task of that connection and message, and no other.
  pub load-stop_task :
      (m : Manager ops) (c d k : Text)
      → load (stop_task ops m c d).tasks k
        ≡ (if text_eq (task_key c d) k then none else load m.tasks k)
  unfolding stop_task
  load-stop_task m c d k = load-stop_and_delete m (task_key c d) k

  load-sweep :
      (test : Task → Bool) (m : Manager ops) (l : Dict Task) (k : Text)
      → load (sweep ops test m l).tasks k ≡ (if hit test k l then none else load m.tasks k)
  unfolding sweep hit
  load-sweep test m [] k = refl
  load-sweep test m ((j, t) ∷ l) k = elim (Bool-cases (test t)) [
    | inl y ↦ rw y (
        ground (arith, load-sweep test (stop_and_delete ops m j).0 l k, load-stop_and_delete m j k))
    | inr n ↦ rw n (ground (arith, load-sweep test m l k))
  ]

  -- Stopping tasks makes none.
  pub load-sweep-none :
      (test : Task → Bool) (m : Manager ops) (l : Dict Task) (k : Text)
      → load m.tasks k ≡ none
      → load (sweep ops test m l).tasks k ≡ none
  load-sweep-none test m l k n = ground (arith, load-sweep test m l k, n)

  swept :
      (test : Task → Bool) (m : Manager ops) (k : Text)
      → load (sweep ops test m (range m.tasks)).tasks k
        ≡ (if passes test (load m.tasks k) then none else load m.tasks k)
  swept test m k =
      load-sweep test m (range m.tasks) k
      ∙ ap (λ b. if b then none else load m.tasks k)
          (hit-lookup test k (range m.tasks) (range-IsDistinct m.tasks)
            ∙ ap (passes test) (lookup-range m.tasks k))

  -- ClearByConn takes away exactly the tasks of the connections with that id.
  pub load-clear_by_conn :
      (m : Manager ops) (conn_id k : Text)
      → load (clear_by_conn ops m conn_id).tasks k ≡ (elim (load m.tasks k) [
        | none ↦ none
        | some t ↦ if text_eq t.conn.id conn_id then none else some t
      ])
  unfolding clear_by_conn
  load-clear_by_conn m conn_id k =
      unfold passes in ground (arith, swept (λ task. text_eq task.conn.id conn_id) m k)

  sweep-closed :
      (test : Task → Bool) (m : Manager ops) (l : Dict Task)
      → (sweep ops test m l).closed ≡ m.closed
  unfolding sweep stop_and_delete
  sweep-closed test m [] = refl
  sweep-closed test m ((j, t) ∷ l) =
      ground (arith, sweep-closed test (stop_and_delete ops m j).0 l, sweep-closed test m l)

  closed-close : (m : Manager ops) → (close ops m).closed ≡ true
  unfolding close
  closed-close m =
      ground (arith, sweep-closed (λ t. true) (record m { closed = true }) (range m.tasks))

  start_one-closed :
      (m : Manager ops) (c : Conn) (msg : Message) → m.closed ≡ true → start_one ops m c msg ≡ m
  unfolding start_one
  start_one-closed m c msg h = ground arith

  start-closed :
      (m : Manager ops) (conns : List Conn) (msg : Message)
      → m.closed ≡ true
      → start ops m conns msg ≡ m
  unfolding start
  start-closed m [] msg h = refl
  start-closed m (c ∷ conns) msg h =
      ap (λ m'. start ops m' conns msg) (start_one-closed m c msg h) ∙ start-closed m conns msg h

  -- Close leaves no task behind, and after it no task can be started: Start changes nothing.
  pub close_lem :
      (m : Manager ops) (conns : List Conn) (msg : Message) (k : Text)
      → m.closed ≡ false
      → (load (close ops m).tasks k ≡ none) × (start ops (close ops m) conns msg ≡ close ops m)
  close_lem m conns msg k o = (gone, start-closed (close ops m) conns msg (closed-close m))
    where
      gone : load (close ops m).tasks k ≡ none
      gone =
          unfold close passes in
          rw o (ground (arith, swept (λ t. true) (record m { closed = true }) k))
