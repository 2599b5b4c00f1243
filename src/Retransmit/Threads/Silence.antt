-- ===== src/Retransmit/Threads/Silence.antt =====
-- What goroutines that are under way still send for a key that has been deleted.
use synp.Prelude.{
  ℕ, ◌+◌, ◌≤◌, ◌≡◌, refl, Bool, true, false, Option, none, some, List, [], ◌∷◌, arith, Bool-cases,
  inl, inr, All,
}
use synp.Prelude.Text.{Text, text_eq, text_eq_iff}
use synp.Prelude.Word.{add_one32}
use synp.Prelude.Goroutines.{place, total, total-moved, place-le}
use synp.SyncMap.{SyncMap}
use synp.Fault.{Fault}
use synp.Message.{Message}
use synp.Conn.{Conn}
use synp.Retransmit.{reaches, task_key}
use synp.Retransmit.Threads.{
  Handle, Effect, pushed, touched, Pc, idle, starting, storing, arming, counting, looking, closing,
  deleting, stopping, uncounting, running, raising, sending, rearming, Call, start, stop, clear,
  close, fires, Shared, System, Turn, new_handle, stored, deleted, found, raised, fired, begun,
  move, turn, step, run,
}

abbrev pub as_one : Bool → ℕ
as_one true = 1
as_one false = 0

module _ (k : Text) where
  -- How often tasks with the key `k` were sent.
  abbrev pub pushes : List Effect → ℕ
  pushes [] = 0
  pushes (pushed h ∷ es) = as_one (text_eq h.key k) + pushes es
  pushes (touched h ∷ es) = pushes es

  -- A goroutine that has found a task with the key `k` in the map and will send it.
  abbrev pub sends : Pc → ℕ
  sends (raising h) = as_one (text_eq h.key k)
  sends (sending h) = as_one (text_eq h.key k)
  sends _ = 0

  -- One of the connections and the message make the key `k`.
  abbrev pub keyed : List Conn → Message → ℕ
  keyed [] msg = 0
  keyed (c ∷ cs) msg = as_one (text_eq (task_key c.id msg.message_id) k) + keyed cs msg

  -- What a goroutine inside Start has still to start under the key `k`.
  abbrev pub starts : Pc → ℕ
  starts (starting cs msg) = keyed cs msg
  starts (storing cs msg) = keyed cs msg
  starts (arming h cs) = keyed cs h.msg
  starts (counting h cs) = keyed cs h.msg
  starts _ = 0

  abbrev pub begins : Call → ℕ
  begins (start cs msg) = keyed cs msg
  begins _ = 0

module _ (ops : SyncMap Handle) (k : Text) where
  open ops use {Map, load, store, delete, load-store, load-delete}

  abbrev pub Kept : Shared ops → Pc → Shared ops × Pc → Type 0
  Kept m pc (m', pc') =
      (load m'.tasks k ≡ none)
      × (starts k pc' ≡ 0)
      × (pushes k m'.effects + sends k pc' ≤ pushes k m.effects + sends k pc)

  stored-Kept :
      (m : Shared ops) (c : Conn) (cs : List Conn) (msg : Message) (o : Option Handle)
      → load m.tasks k ≡ none
      → starts k (storing (c ∷ cs) msg) ≡ 0
      → Kept m (storing (c ∷ cs) msg) (stored ops m (new_handle ops m c msg) cs o)
  stored-Kept m c cs msg (some h) e q = ground (arith, e, q)
  stored-Kept m c cs msg none e q =
      let h = new_handle ops m c msg in ground (arith, e, q, load-store m.tasks h.key k h)

  deleted-Kept :
      (m : Shared ops) (j : Text) (js : List Text) (o : Option Handle)
      → load m.tasks k ≡ none
      → Kept m (deleting (j ∷ js)) (deleted ops m j js o)
  deleted-Kept m j js none e = ground (arith, e)
  deleted-Kept m j js (some h) e = ground (arith, e, load-delete m.tasks j k)

  begun-Kept :
      (call : Call) (m : Shared ops)
      → load m.tasks k ≡ none
      → begins k call ≡ 0
      → Kept m idle (begun ops call m)
  begun-Kept (start cs msg) m e b = ground (arith, e, b)
  begun-Kept (stop j) m e b = ground (arith, e)
  begun-Kept (clear d js) m e b = ground (arith, e)
  begun-Kept (close js) m e b = ground (arith, e)
  begun-Kept (fires n) m e b = go (place m.timers n)
    where
      go : (f : Option Handle) → Kept m idle (fired ops m f n)
      go none = ground (arith, e)
      go (some h) = ground (arith, e)

  -- A task that is not found under its key is not sent; another one is found under another key.
  running-Kept :
      (m : Shared ops) (h : Handle) (o : Option Handle)
      → load m.tasks h.key ≡ o
      → load m.tasks k ≡ none
      → Kept m (running h) (m, found o (raising h))
  running-Kept m h none e x = ground (arith, x)
  running-Kept m h (some g) e x = elim (Bool-cases (text_eq h.key k)) [
    | inl y ↦
        let same : h.key ≡ k = (text_eq_iff h.key k).0 y in
        let at : none ≡ some g = cc in ground (arith, at)
    | inr n ↦ rw n (ground (arith, x))
  ]

  raising-Kept :
      (m : Shared ops) (h : Handle) → load m.tasks k ≡ none → Kept m (raising h) (raised ops m h)
  raising-Kept m h e = elim (Bool-cases (reaches (add_one32 (m.counts h.serial)) m.max_retry_cnt)) [
    | inl y ↦ rw y (ground (arith, e))
    | inr n ↦ rw n (ground (arith, e))
  ]

  move-Kept :
      (call : Call) (outcome : Option Fault) (pc : Pc) (m : Shared ops)
      → load m.tasks k ≡ none
      → begins k call ≡ 0
      → starts k pc ≡ 0
      → Kept m pc (move ops call outcome pc m)
  move-Kept c o idle m e b q = begun-Kept c m e b
  move-Kept c o (starting [] msg) m e b q = ground (arith, e)
  move-Kept c o (starting (d ∷ cs) msg) m e b q = elim (Bool-cases m.closed) [
    | inl y ↦ rw y (ground (arith, e, q))
    | inr n ↦ rw n (ground (arith, e, q))
  ]
  move-Kept c o (storing [] msg) m e b q = ground (arith, e)
  move-Kept c o (storing (d ∷ cs) msg) m e b q =
      stored-Kept m d cs msg (load m.tasks (new_handle ops m d msg).key) e q
  move-Kept c o (arming h cs) m e b q = ground (arith, e, q)
  move-Kept c o (counting h cs) m e b q = ground (arith, e, q)
  move-Kept c o (looking j) m e b q = go (load m.tasks j)
    where
      go : (f : Option Handle) → Kept m (looking j) (m, found f (deleting (j ∷ [])))
      go none = ground (arith, e)
      go (some h) = ground (arith, e)
  move-Kept c o (closing js) m e b q = elim (Bool-cases m.closed) [
    | inl y ↦ rw y (ground (arith, e))
    | inr n ↦ rw n (ground (arith, e))
  ]
  move-Kept c o (deleting []) m e b q = ground (arith, e)
  move-Kept c o (deleting (j ∷ js)) m e b q = deleted-Kept m j js (load m.tasks j) e
  move-Kept c o (stopping h js) m e b q = ground (arith, e)
  move-Kept c o (uncounting js) m e b q = ground (arith, e)
  move-Kept c o (running h) m e b q = running-Kept m h (load m.tasks h.key) refl e
  move-Kept c o (raising h) m e b q = raising-Kept m h e
  move-Kept c (some x) (sending h) m e b q = ground (arith, e)
  move-Kept c none (sending h) m e b q = ground (arith, e)
  move-Kept c o (rearming h) m e b q = ground (arith, e)

  -- No task stands under the key `k`, and no goroutine is about to start one.
  abbrev pub IsGone : System ops → Type 0
  IsGone s = (load s.mem.tasks k ≡ none) × (total (starts k) s.pcs ≡ 0)

  abbrev pub sent_and_due : System ops → ℕ
  sent_and_due s = pushes k s.mem.effects + total (sends k) s.pcs

  turn-IsGone :
      (i : ℕ) (call : Call) (outcome : Option Fault) (s : System ops) (o : Option Pc)
      → place s.pcs i ≡ o
      → begins k call ≡ 0
      → IsGone s
      → let s' = turn ops i call outcome s o in IsGone s' × (sent_and_due s' ≤ sent_and_due s)
  turn-IsGone i call outcome s none e b v = (v, omega arith)
  turn-IsGone i call outcome s (some pc) e b v =
      let pc' = (move ops call outcome pc s.mem).1 in
      let at = total-moved (starts k) s.pcs i pc pc' e in
      let due = total-moved (sends k) s.pcs i pc pc' e in
      let own : starts k pc ≡ 0 = omega (arith, v.1, place-le (starts k) s.pcs i pc e) in
      let kept = move-Kept call outcome pc s.mem v.0 b own in
      ((kept.0, omega (arith, at, v.1, kept.1, own)), omega (arith, due, kept.2))

  -- While no task stands under the key `k` and no goroutine starts one: whatever the other
  -- goroutines do, in any interleaving, none appears, and together with what is still to be sent
  -- the number of sends under the key never grows. After Stop, ClearByConn or Close has deleted a
  -- task, only a goroutine that was already behind its check of the map sends it, once.
  pub silent :
      (ts : List Turn) (s : System ops)
      → All (λ t. begins k t.call ≡ 0) ts
      → IsGone s
      → let s' = run ops ts s in IsGone s' × (sent_and_due s' ≤ sent_and_due s)
  unfolding run step
  silent [] s b v = (v, omega arith)
  silent (t ∷ ts) s (b, bs) v =
      let first = turn-IsGone t.goroutine t.call t.outcome s (place s.pcs t.goroutine) refl b v in
      let rest = silent ts (step ops t s) bs first.0 in (rest.0, omega (arith, first.1, rest.1))
