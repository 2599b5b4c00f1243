-- ===== src/Retransmit/Threads/Counting.antt =====
-- TotalTaskCnt against the map, while goroutines of the manager stand between their accesses.
use synp.Prelude.{
  ℕ, ◌+◌, ◌%◌, ◌<◌, ◌≡◌, refl, Option, none, some, List, [], ◌∷◌, arith, Bool-cases, inl, inr,
}
use synp.Prelude.Text.{Text}
use synp.Prelude.Word.{word64, add_one32}
use synp.Prelude.Goroutines.{place, moved, total, total-moved}
use synp.SyncMap.{SyncMap, sum, sum-empty, sum-store_new, sum-delete}
use synp.Fault.{Fault}
use synp.Message.{Message}
use synp.Conn.{Conn}
use synp.Retransmit.{reaches}
use synp.Retransmit.Threads.{
  Handle, Pc, idle, starting, storing, arming, counting, looking, closing, deleting, stopping,
  uncounting, running, raising, sending, rearming, Call, start, stop, clear, close, fires, Shared,
  System, Turn, new_handle, stored, deleted, found, fired, move, turn, step, run, total-all_idle,
  new_system,
}

-- A goroutine that has stored a task and not yet counted it, and one that has deleted a task and
-- not yet uncounted it.
abbrev pub adding : Pc → ℕ
adding (arming h cs) = 1
adding (counting h cs) = 1
adding _ = 0

abbrev pub taking : Pc → ℕ
taking (stopping h ks) = 1
taking (uncounting ks) = 1
taking _ = 0

module _ (ops : SyncMap Handle) where
  open ops use {Map, load, store, delete}

  abbrev pub tasks_held : Shared ops → ℕ
  tasks_held m = sum ops (λ _. 1) m.tasks

  -- The counter, once `adds` and `takes` are carried out, is the number of tasks.
  abbrev pub Agrees : Shared ops → ℕ → ℕ → Type 0
  Agrees m adds takes =
      ((m.total_task_cnt + adds) % word64 ≡ (tasks_held m + takes) % word64)
      × (m.total_task_cnt < word64)

  -- What one move does to the two sides, where the other goroutines stay.
  abbrev pub Kept : Shared ops → Pc → Shared ops × Pc → Type 0
  Kept m pc (m', pc') =
      (adds takes adds' takes' : ℕ)
      → adds' + adding pc ≡ adds + adding pc'
      → takes' + taking pc ≡ takes + taking pc'
      → Agrees m adds takes
      → Agrees m' adds' takes'

  stored-Kept :
      (m : Shared ops) (c : Conn) (cs : List Conn) (msg : Message) (o : Option Handle)
      → load m.tasks (new_handle ops m c msg).key ≡ o
      → Kept m (storing (c ∷ cs) msg) (stored ops m (new_handle ops m c msg) cs o)
  stored-Kept m c cs msg (some h) e = λ a t a' t' x z v. omega (arith, x, z, v)
  stored-Kept m c cs msg none e = λ a t a' t' x z v.
      let h = new_handle ops m c msg in
      omega (arith, x, z, v, sum-store_new ops (λ _. 1) m.tasks h.key h e)

  deleted-Kept :
      (m : Shared ops) (k : Text) (ks : List Text) (o : Option Handle)
      → load m.tasks k ≡ o
      → Kept m (deleting (k ∷ ks)) (deleted ops m k ks o)
  deleted-Kept m k ks none e = λ a t a' t' x z v. omega (arith, x, z, v)
  deleted-Kept m k ks (some h) e =
      λ a t a' t' x z v. omega (arith, x, z, v, sum-delete ops (λ _. 1) m.tasks k h e)

  move-Kept :
      (call : Call) (outcome : Option Fault) (pc : Pc) (m : Shared ops)
      → Kept m pc (move ops call outcome pc m)
  move-Kept (start cs msg) o idle m = λ a t a' t' x z v. omega (arith, x, z, v)
  move-Kept (stop k) o idle m = λ a t a' t' x z v. omega (arith, x, z, v)
  move-Kept (clear d ks) o idle m = λ a t a' t' x z v. omega (arith, x, z, v)
  move-Kept (close ks) o idle m = λ a t a' t' x z v. omega (arith, x, z, v)
  move-Kept (fires n) o idle m = go (place m.timers n)
    where
      go : (f : Option Handle) → Kept m idle (fired ops m f n)
      go none = λ a t a' t' x z v. omega (arith, x, z, v)
      go (some h) = λ a t a' t' x z v. omega (arith, x, z, v)
  move-Kept c o (starting [] msg) m = λ a t a' t' x z v. omega (arith, x, z, v)
  move-Kept c o (starting (d ∷ cs) msg) m = elim (Bool-cases m.closed) [
    | inl y ↦ rw y (λ a t a' t' x z v. omega (arith, x, z, v))
    | inr n ↦ rw n (λ a t a' t' x z v. omega (arith, x, z, v))
  ]
  move-Kept c o (storing [] msg) m = λ a t a' t' x z v. omega (arith, x, z, v)
  move-Kept c o (storing (d ∷ cs) msg) m =
      stored-Kept m d cs msg (load m.tasks (new_handle ops m d msg).key) refl
  move-Kept c o (arming h cs) m = λ a t a' t' x z v. omega (arith, x, z, v)
  move-Kept c o (counting h cs) m = λ a t a' t' x z v. omega (arith, x, z, v)
  move-Kept c o (looking k) m = go (load m.tasks k)
    where
      go : (f : Option Handle) → Kept m (looking k) (m, found f (deleting (k ∷ [])))
      go none = λ a t a' t' x z v. omega (arith, x, z, v)
      go (some h) = λ a t a' t' x z v. omega (arith, x, z, v)
  move-Kept c o (closing ks) m = elim (Bool-cases m.closed) [
    | inl y ↦ rw y (λ a t a' t' x z v. omega (arith, x, z, v))
    | inr n ↦ rw n (λ a t a' t' x z v. omega (arith, x, z, v))
  ]
  move-Kept c o (deleting []) m = λ a t a' t' x z v. omega (arith, x, z, v)
  move-Kept c o (deleting (k ∷ ks)) m = deleted-Kept m k ks (load m.tasks k) refl
  move-Kept c o (stopping h ks) m = λ a t a' t' x z v. omega (arith, x, z, v)
  move-Kept c o (uncounting ks) m = λ a t a' t' x z v. omega (arith, x, z, v)
  move-Kept c o (running h) m = go (load m.tasks h.key)
    where
      go : (f : Option Handle) → Kept m (running h) (m, found f (raising h))
      go none = λ a t a' t' x z v. omega (arith, x, z, v)
      go (some g) = λ a t a' t' x z v. omega (arith, x, z, v)
  move-Kept c o (raising h) m =
      elim (Bool-cases (reaches (add_one32 (m.counts h.serial)) m.max_retry_cnt)) [
        | inl y ↦ rw y (λ a t a' t' x z v. omega (arith, x, z, v))
        | inr n ↦ rw n (λ a t a' t' x z v. omega (arith, x, z, v))
      ]
  move-Kept c (some e) (sending h) m = λ a t a' t' x z v. omega (arith, x, z, v)
  move-Kept c none (sending h) m = λ a t a' t' x z v. omega (arith, x, z, v)
  move-Kept c o (rearming h) m = λ a t a' t' x z v. omega (arith, x, z, v)

  abbrev pub IsCounted : System ops → Type 0
  IsCounted s = Agrees s.mem (total adding s.pcs) (total taking s.pcs)

  turn-IsCounted :
      (i : ℕ) (call : Call) (outcome : Option Fault) (s : System ops) (o : Option Pc)
      → place s.pcs i ≡ o
      → IsCounted s
      → IsCounted (turn ops i call outcome s o)
  turn-IsCounted i call outcome s none e v = v
  turn-IsCounted i call outcome s (some pc) e v =
      let pc' = (move ops call outcome pc s.mem).1 in
      move-Kept call outcome pc s.mem (total adding s.pcs) (total taking s.pcs)
        (total adding (moved s.pcs i pc')) (total taking (moved s.pcs i pc'))
        (total-moved adding s.pcs i pc pc' e) (total-moved taking s.pcs i pc pc' e) v

  pub run-IsCounted : (ts : List Turn) (s : System ops) → IsCounted s → IsCounted (run ops ts s)
  unfolding run step
  run-IsCounted [] s v = v
  run-IsCounted (t ∷ ts) s v =
      run-IsCounted ts (step ops t s)
        (turn-IsCounted t.goroutine t.call t.outcome s (place s.pcs t.goroutine) refl v)

  new_system-IsCounted : (n max : ℕ) → IsCounted (new_system ops n max)
  unfolding new_system
  new_system-IsCounted n max = (
    omega (
      arith,
      total-all_idle adding n refl,
      total-all_idle taking n refl,
      sum-empty ops (λ (h : Handle). 1),
    ),
    omega arith,
  )

  -- However the accesses of any number of goroutines are interleaved, from a new manager on: the
  -- counter and the tasks that are stored and not yet counted are together as many as the tasks of
  -- the map and those that are deleted and not yet uncounted, modulo 2^64, and the counter stays an
  -- unsigned word.
  pub counted_between :
      (n max : ℕ) (ts : List Turn)
      → let s = run ops ts (new_system ops n max) in
        ((s.mem.total_task_cnt + total adding s.pcs) % word64
          ≡ (tasks_held s.mem + total taking s.pcs) % word64)
        × (s.mem.total_task_cnt < word64)
  counted_between n max ts = run-IsCounted ts (new_system ops n max) (new_system-IsCounted n max)

  -- Whenever no goroutine stands between a task and its counter, TotalTaskCnt is the number of tasks.
  pub counted_at_rest :
      (s : System ops)
      → total adding s.pcs ≡ 0
      → total taking s.pcs ≡ 0
      → IsCounted s
      → s.mem.total_task_cnt ≡ tasks_held s.mem % word64
  counted_at_rest s a t v = omega (arith, v, a, t)
