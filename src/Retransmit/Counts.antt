-- ===== src/Retransmit/Counts.antt =====
-- The counter of tasks against the tasks, and the counts of retransmissions.
use synp.Prelude.{
  ℕ, ◌+◌, ◌%◌, ◌<◌, ◌≡◌, refl, Bool, true, Option, none, some, List, [], ◌∷◌, arith, Bool-cases,
  inl, inr, leb,
}
use synp.Prelude.Int.{ℤ, pos_part}
use synp.Prelude.Word.{word64, add_one32}
use synp.Prelude.Text.{Text, text_eq, text_eq_iff, text_eq_refl}
use synp.Prelude.Dict.{Dict}
use synp.SyncMap.{SyncMap, sum, sum-empty, sum-store_new, sum-store_old, sum-delete}
use synp.Fault.{Fault}
use synp.Message.{Message}
use synp.Conn.{Conn}
use synp.Retransmit.{
  Task, Manager, reaches, task_key, new_task, new_manager, stored_new, deleted, stop_and_delete,
  start_one, start, stop_task, sweep, clear_by_conn, close, counted_up, sent, ran, ran_found, run,
}

-- The count of an int32 below a limit that fits does not wrap.
pub count_up :
    (n max : ℕ) → n < max → max < 2147483648 → reaches (add_one32 n) max ≡ leb max (n + 1)
count_up n max h k = ground arith

module _ (ops : SyncMap Task) where
  open ops use {Map, load, store, delete, range, load-store, load-delete, load-empty}

  abbrev pub tasks_held : Manager ops → ℕ
  tasks_held m = sum ops (λ _. 1) m.tasks

  -- A task stands under its own key, and has been sent again less often than the limit.
  abbrev pub IsTaskFor : ℕ → Text → Task → Type 0
  IsTaskFor max k t =
      (t.key ≡ k) × (k ≡ task_key t.conn.id t.msg.message_id) × (t.retransmit_cnt < max)

  pub record IsValid (m : Manager ops) : Type 0 where
    pub limit_positive : 0 < m.max_retry_cnt
    pub limit_fits : m.max_retry_cnt < 2147483648
    pub placed : (k : Text) (t : Task) → load m.tasks k ≡ some t → IsTaskFor m.max_retry_cnt k t
    pub counted : m.total_task_cnt ≡ tasks_held m % word64

  -- A new manager, whatever interval and int32 limit it is given.
  pub new_manager-IsValid :
      (interval limit : ℤ) → pos_part limit < 2147483648 → IsValid (new_manager ops interval limit)
  unfolding new_manager
  new_manager-IsValid interval limit h = record {
    limit_positive = ground arith;
    limit_fits = ground arith;
    placed = λ k t e. ground (arith, load-empty k);
    counted = omega (arith, sum-empty ops (λ (t : Task). 1));
  }

  deleted-IsValid :
      (m : Manager ops) (k : Text) (o : Option Task)
      → load m.tasks k ≡ o
      → IsValid m
      → IsValid (deleted ops m k o).0
  deleted-IsValid m k none e v = v
  deleted-IsValid m k (some t) e v = record {
    limit_positive = v.limit_positive;
    limit_fits = v.limit_fits;
    placed = λ j u h. ground (arith, load-delete m.tasks k j, v.placed j u);
    counted = omega (arith, v.counted, sum-delete ops (λ _. 1) m.tasks k t e);
  }

  pub stop_and_delete-IsValid :
      (m : Manager ops) (k : Text) → IsValid m → IsValid (stop_and_delete ops m k).0
  unfolding stop_and_delete
  stop_and_delete-IsValid m k v = deleted-IsValid m k (load m.tasks k) refl v

  stored_new-IsValid :
      (m : Manager ops) (c : Conn) (msg : Message) (o : Option Task)
      → load m.tasks (task_key c.id msg.message_id) ≡ o
      → IsValid m
      → IsValid (stored_new ops m (new_task ops c msg) o)
  stored_new-IsValid m c msg (some t) e v = v
  stored_new-IsValid m c msg none e v = record {
    limit_positive = v.limit_positive;
    limit_fits = v.limit_fits;
    placed = λ j u h. ground (
      arith,
      load-store m.tasks (task_key c.id msg.message_id) j (new_task ops c msg),
      text_eq_iff (task_key c.id msg.message_id) j,
      v.placed j u,
      v.limit_positive,
    );
    counted = omega (
      arith,
      v.counted,
      sum-store_new ops (λ _. 1) m.tasks (task_key c.id msg.message_id) (new_task ops c msg) e,
    );
  }

  start_one-IsValid :
      (m : Manager ops) (c : Conn) (msg : Message) → IsValid m → IsValid (start_one ops m c msg)
  unfolding start_one
  start_one-IsValid m c msg v = elim (Bool-cases m.closed) [
    | inl y ↦ simp y v
    | inr n ↦
        simp n (stored_new-IsValid m c msg (load m.tasks (task_key c.id msg.message_id)) refl v)
  ]

  pub start-IsValid :
      (m : Manager ops) (cs : List Conn) (msg : Message) → IsValid m → IsValid (start ops m cs msg)
  unfolding start
  start-IsValid m [] msg v = v
  start-IsValid m (c ∷ cs) msg v =
      start-IsValid (start_one ops m c msg) cs msg (start_one-IsValid m c msg v)

  sweep-IsValid :
      (test : Task → Bool) (m : Manager ops) (l : Dict Task)
      → IsValid m
      → IsValid (sweep ops test m l)
  unfolding sweep
  sweep-IsValid test m [] v = v
  sweep-IsValid test m ((k, t) ∷ l) v = elim (Bool-cases (test t)) [
    | inl y ↦
        rw y (sweep-IsValid test (stop_and_delete ops m k).0 l (stop_and_delete-IsValid m k v))
    | inr n ↦ rw n (sweep-IsValid test m l v)
  ]

  update-IsValid :
      (m : Manager ops) (k : Text) (t u : Task)
      → load m.tasks k ≡ some t
      → IsTaskFor m.max_retry_cnt k u
      → IsValid m
      → IsValid (record m { tasks = store m.tasks k u })
  update-IsValid m k t u e p v = record {
    limit_positive = v.limit_positive;
    limit_fits = v.limit_fits;
    placed = λ j w h. ground (arith, load-store m.tasks k j u, text_eq_iff k j, v.placed j w);
    counted = omega (arith, v.counted, sum-store_old ops (λ _. 1) m.tasks k u t e);
  }

  drop-IsValid :
      (m : Manager ops) (k : Text) (t u : Task)
      → load m.tasks k ≡ some t
      → IsValid m
      → IsValid (stop_and_delete ops (record m { tasks = store m.tasks k u }) k).0
  unfolding stop_and_delete
  drop-IsValid m k t u e v =
      rw (load-store, text_eq_refl)
        (record {
          limit_positive = v.limit_positive;
          limit_fits = v.limit_fits;
          placed = λ j w h.
              ground (
                arith,
                load-store m.tasks k j u,
                load-delete (store m.tasks k u) k j,
                v.placed j w,
              );
          counted = omega (
            arith,
            v.counted,
            sum-store_old ops (λ _. 1) m.tasks k u t e,
            sum-delete ops (λ _. 1) (store m.tasks k u) k u (rw (load-store, text_eq_refl) refl),
          );
        })

  sent-IsValid :
      (m : Manager ops) (t : Task) (outcome : Option Fault)
      → load m.tasks t.key ≡ some t
      → (add_one32 t.retransmit_cnt) < m.max_retry_cnt
      → IsValid m
      → IsValid (sent ops m t outcome).0
  sent-IsValid m t (some x) e below v = drop-IsValid m t.key t (counted_up ops t) e v
  sent-IsValid m t none e below v =
      update-IsValid m t.key t (record (counted_up ops t) { armed = true }) e
        (refl, (v.placed t.key t e).1, below) v

  ran-IsValid :
      (m : Manager ops) (t : Task) (outcome : Option Fault)
      → load m.tasks t.key ≡ some t
      → IsValid m
      → IsValid (ran ops m t outcome).0
  ran-IsValid m t outcome e v =
      let below = (v.placed t.key t e).2 in
      let up = count_up t.retransmit_cnt m.max_retry_cnt below v.limit_fits in
      elim (Bool-cases (reaches (add_one32 t.retransmit_cnt) m.max_retry_cnt)) [
        | inl y ↦ rw y (drop-IsValid m t.key t (counted_up ops t) e v)
        | inr n ↦ rw n (sent-IsValid m t outcome e (ground (arith, up)) v)
      ]

  -- A fired timer keeps the invariant, whatever taskFunc returns.
  pub run-IsValid :
      (m : Manager ops) (k : Text) (outcome : Option Fault)
      → IsValid m
      → IsValid (run ops m k outcome).0
  unfolding run
  run-IsValid m k outcome v = go (load m.tasks k) refl
    where
      go : (o : Option Task) → load m.tasks k ≡ o → IsValid (ran_found ops m o outcome).0
      go none e = v
      go (some t) e =
          let own : t.key ≡ k = (v.placed k t e).0 in
          let at : load m.tasks t.key ≡ some t = cc in ran-IsValid m t outcome at v

  pub stop_task-IsValid : (m : Manager ops) (c d : Text) → IsValid m → IsValid (stop_task ops m c d)
  unfolding stop_task
  stop_task-IsValid m c d v = stop_and_delete-IsValid m (task_key c d) v

  pub clear_by_conn-IsValid :
      (m : Manager ops) (c : Text) → IsValid m → IsValid (clear_by_conn ops m c)
  unfolding clear_by_conn
  clear_by_conn-IsValid m c v = sweep-IsValid (λ t. text_eq t.conn.id c) m (range m.tasks) v

  pub close-IsValid : (m : Manager ops) → IsValid m → IsValid (close ops m)
  unfolding close
  close-IsValid m v = elim (Bool-cases m.closed) [
    | inl y ↦ simp y v
    | inr n ↦ simp n (
        sweep-IsValid (λ t. true) (record m { closed = true }) (range m.tasks)
          (record {
            limit_positive = v.limit_positive;
            limit_fits = v.limit_fits;
            placed = v.placed;
            counted = v.counted;
          }))
  ]
