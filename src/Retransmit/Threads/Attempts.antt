-- ===== src/Retransmit/Threads/Attempts.antt =====
-- One task at a time in one goroutine or one timer, and how often it is sent: any run.
use synp.Prelude.{
  map, ℕ, ◌+◌, ◌≤◌, ◌<◌, ◌≡◌, refl, true, Option, none, some, List, [], ◌∷◌, arith, if◌then◌else◌,
}
use synp.Prelude.Text.{Text}
use synp.Prelude.Goroutines.{place, moved, total, total-moved, place-le}
use synp.SyncMap.{SyncMap}
use synp.Fault.{Fault}
use synp.Retransmit.Threads.{
  Handle, Pc, idle, starting, storing, arming, counting, looking, closing, deleting, stopping,
  uncounting, running, raising, sending, rearming, Call, start, stop, clear, close, fires, Shared,
  System, Turn, new_handle, deleted, found, sent, begun, keys_of, move, turn, step, run, unarmed,
  total-all_idle, new_system,
}
use synp.Retransmit.Threads.Flight.{
  pushes, armed, flies, sends, armed-unarmed, Single, Kept, stays, shifts, stored-Kept, arming-Kept,
  raised-Kept, fired-Kept,
}

module _ (ops : SyncMap Handle) (max : ℕ) (positive : 0 < max) (fits : max < 2147483648)
    (n : ℕ) where
  open ops use {Map, load, store, delete}

  begun-Kept :
      (call : Call) (m : Shared ops) → Kept ops max positive fits n m idle (begun ops call m)
  begun-Kept (start cs msg) m =
      stays ops max positive fits n m idle (starting cs msg) (omega arith) (omega arith)
  begun-Kept (stop j) m =
      stays ops max positive fits n m idle (looking j) (omega arith) (omega arith)
  begun-Kept (clear d js) m =
      stays ops max positive fits n m idle (deleting (keys_of d js)) (omega arith) (omega arith)
  begun-Kept (close js) m =
      stays ops max positive fits n m idle (closing (map (λ h. h.key) js)) (omega arith)
        (omega arith)
  begun-Kept (fires i) m = fired-Kept ops max positive fits n m i (place m.timers i) refl

  found-Kept :
      (m : Shared ops) (o : Option Handle) (pc pc' : Pc)
      → flies n pc' ≤ flies n pc
      → sends n pc' ≤ sends n pc
      → Kept ops max positive fits n m pc (m, found o pc')
  found-Kept m none pc pc' p q = stays ops max positive fits n m pc idle (omega arith) (omega arith)
  found-Kept m (some h) pc pc' p q = stays ops max positive fits n m pc pc' p q

  deleted-Kept :
      (m : Shared ops) (j : Text) (js : List Text) (o : Option Handle)
      → Kept ops max positive fits n m (deleting (j ∷ js)) (deleted ops m j js o)
  deleted-Kept m j js none =
      stays ops max positive fits n m (deleting (j ∷ js)) (deleting js) (omega arith) (omega arith)
  deleted-Kept m j js (some h) =
      shifts ops max positive fits n m (record m { tasks = delete m.tasks j }) (deleting (j ∷ js))
        (stopping h js) (refl, refl, refl, refl, refl) (omega arith) (omega arith)

  stopping-Kept :
      (m : Shared ops) (h : Handle) (js : List Text)
      → Kept ops max positive fits n m
          (stopping h js)
          (record m { timers = unarmed h.serial m.timers }, uncounting js)
  stopping-Kept m h js = λ f d f' d' x z o v.
      let less = armed-unarmed n h.serial m.timers in
      record {
        limit = v.limit;
        alone = omega (arith, v.alone, x, less);
        later = λ l. omega (arith, v.later l, x, less);
        counted = omega (arith, v.counted, z);
        below = omega (arith, v.below, z);
        again = λ l. v.again (omega (arith, l, x, less));
      }

  sent-Kept :
      (m : Shared ops) (h : Handle) (outcome : Option Fault)
      → Kept ops max positive fits n m (sending h) (sent ops m h outcome)
  sent-Kept m h (some e) = λ f d f' d' x z o v. record {
    limit = v.limit;
    alone = omega (arith, v.alone, x);
    later = λ l. omega (arith, v.later l, x);
    counted = omega (arith, v.counted, z);
    below = omega (arith, v.below, z);
    again = λ l. v.again (omega (arith, l, x));
  }
  sent-Kept m h none = λ f d f' d' x z o v. record {
    limit = v.limit;
    alone = omega (arith, v.alone, x);
    later = λ l. omega (arith, v.later l, x);
    counted = omega (arith, v.counted, z);
    below = omega (arith, v.below, z);
    again = λ l. v.again (omega (arith, l, x));
  }

  move-Kept :
      (call : Call) (outcome : Option Fault) (pc : Pc) (m : Shared ops)
      → Kept ops max positive fits n m pc (move ops call outcome pc m)
  move-Kept c o idle m = begun-Kept c m
  move-Kept c o (starting [] msg) m =
      stays ops max positive fits n m (starting [] msg) idle (omega arith) (omega arith)
  move-Kept c o (starting (d ∷ cs) msg) m =
      stays ops max positive fits n m (starting (d ∷ cs) msg)
        (if m.closed then starting cs msg else storing (d ∷ cs) msg) (ground arith) (ground arith)
  move-Kept c o (storing [] msg) m =
      stays ops max positive fits n m (storing [] msg) idle (omega arith) (omega arith)
  move-Kept c o (storing (d ∷ cs) msg) m =
      stored-Kept ops max positive fits n m d cs msg (load m.tasks (new_handle ops m d msg).key)
  move-Kept c o (arming h cs) m =
      arming-Kept ops max positive fits n m h (arming h cs) (counting h cs) refl refl refl refl
  move-Kept c o (counting h cs) m =
      shifts ops max positive fits n m (move ops c o (counting h cs) m).0 (counting h cs)
        (starting cs h.msg) (refl, refl, refl, refl, refl) (omega arith) (omega arith)
  move-Kept c o (looking j) m =
      found-Kept m (load m.tasks j) (looking j) (deleting (j ∷ [])) (omega arith) (omega arith)
  move-Kept c o (closing js) m =
      shifts ops max positive fits n m (record m { closed = true }) (closing js)
        (if m.closed then idle else deleting js) (refl, refl, refl, refl, refl) (ground arith)
        (ground arith)
  move-Kept c o (deleting []) m =
      stays ops max positive fits n m (deleting []) idle (omega arith) (omega arith)
  move-Kept c o (deleting (j ∷ js)) m = deleted-Kept m j js (load m.tasks j)
  move-Kept c o (stopping h js) m = stopping-Kept m h js
  move-Kept c o (uncounting js) m =
      shifts ops max positive fits n m (move ops c o (uncounting js) m).0 (uncounting js)
        (deleting js) (refl, refl, refl, refl, refl) (omega arith) (omega arith)
  move-Kept c o (running h) m =
      found-Kept m (load m.tasks h.key) (running h) (raising h) (omega arith) (omega arith)
  move-Kept c o (raising h) m = raised-Kept ops max positive fits n m h
  move-Kept c o (sending h) m = sent-Kept m h o
  move-Kept c o (rearming h) m =
      arming-Kept ops max positive fits n m h (rearming h) idle refl refl refl refl

  abbrev pub IsSingle : System ops → Type 0
  IsSingle s = Single ops max positive fits n s.mem (total (flies n) s.pcs) (total (sends n) s.pcs)

  turn-IsSingle :
      (i : ℕ) (call : Call) (outcome : Option Fault) (s : System ops) (o : Option Pc)
      → place s.pcs i ≡ o
      → IsSingle s
      → IsSingle (turn ops i call outcome s o)
  turn-IsSingle i call outcome s none e v = v
  turn-IsSingle i call outcome s (some pc) e v =
      let pc' = (move ops call outcome pc s.mem).1 in
      move-Kept call outcome pc s.mem (total (flies n) s.pcs) (total (sends n) s.pcs)
        (total (flies n) (moved s.pcs i pc')) (total (sends n) (moved s.pcs i pc'))
        (total-moved (flies n) s.pcs i pc pc' e) (total-moved (sends n) s.pcs i pc pc' e)
        (place-le (flies n) s.pcs i pc e) v

  run-IsSingle : (ts : List Turn) (s : System ops) → IsSingle s → IsSingle (run ops ts s)
  unfolding run step
  run-IsSingle [] s v = v
  run-IsSingle (t ∷ ts) s v =
      run-IsSingle ts (step ops t s)
        (turn-IsSingle t.goroutine t.call t.outcome s (place s.pcs t.goroutine) refl v)

  new_system-IsSingle : (g : ℕ) → IsSingle (new_system ops g max)
  unfolding new_system
  new_system-IsSingle g =
      let f = total-all_idle (flies n) g refl in
      let d = total-all_idle (sends n) g refl in
      record {
        limit = refl;
        alone = omega (arith, f);
        later = λ l. omega (arith, f);
        counted = omega (arith, d);
        below = omega (arith, d, positive);
        again = λ l. positive;
      }

  -- However the accesses of any number of goroutines are interleaved, from a new manager on, a task
  -- is never in two goroutines at once, nor in one while a timer of it runs, and it is sent again less
  -- often than the limit, a positive int32: the sends that are done and the one that is about to be
  -- done are fewer than the limit.
  pub sent_below_limit :
      (g : ℕ) (ts : List Turn)
      → let s = run ops ts (new_system ops g max) in
        (total (flies n) s.pcs + armed n s.mem.timers ≤ 1)
        × (pushes n s.mem.effects + total (sends n) s.pcs < max)
  sent_below_limit g ts =
      let v = run-IsSingle ts (new_system ops g max) (new_system-IsSingle g) in (v.alone, v.below)
