-- ===== src/Retransmit/Threads/Flight.antt =====
-- One task at a time in one goroutine or one timer, and how often it is sent.
use synp.Prelude.{
  ℕ, zero, suc, ◌+◌, ◌≤◌, ◌<◌, ◌≡◌, false, Option, none, some, List, [], ◌∷◌, arith, Bool-cases,
  inl, inr, if◌then◌else◌, ◌==◌,
}
use synp.Prelude.Goroutines.{place, total}
use synp.SyncMap.{SyncMap}
use synp.Message.{Message}
use synp.Conn.{Conn}
use synp.Retransmit.Counts.{count_up}
use synp.Retransmit.Threads.{
  Handle, Effect, pushed, touched, Pc, idle, starting, storing, arming, running, raising, sending,
  rearming, Shared, new_handle, stored, raised, fired, unarmed, without_nth,
}

abbrev pub is_task : ℕ → Handle → ℕ
is_task n h = if h.serial == n then 1 else 0

-- How often the task `n` was sent, and how many of its timers run.
abbrev pub pushes : ℕ → List Effect → ℕ
pushes n [] = 0
pushes n (pushed h ∷ es) = is_task n h + pushes n es
pushes n (touched h ∷ es) = pushes n es

abbrev pub armed : ℕ → List Handle → ℕ
armed n hs = total (is_task n) hs

-- A goroutine that has the task `n` for itself, and one that is about to send it.
abbrev pub flies : ℕ → Pc → ℕ
flies n (arming h cs) = is_task n h
flies n (running h) = is_task n h
flies n (raising h) = is_task n h
flies n (sending h) = is_task n h
flies n (rearming h) = is_task n h
flies n _ = 0

abbrev pub sends : ℕ → Pc → ℕ
sends n (sending h) = is_task n h
sends n _ = 0

pub armed-unarmed : (n j : ℕ) (hs : List Handle) → armed n (unarmed j hs) ≤ armed n hs
armed-unarmed n j [] = omega arith
armed-unarmed n j (h ∷ hs) = ground (arith, armed-unarmed n j hs)

armed-without_nth :
    (n i : ℕ) (hs : List Handle) (h : Handle)
    → place hs i ≡ some h
    → armed n (without_nth i hs) + is_task n h ≡ armed n hs
armed-without_nth n zero [] h e = cc
armed-without_nth n (suc i) [] h e = cc
armed-without_nth n zero (g ∷ hs) h e = ground (arith, e)
armed-without_nth n (suc i) (g ∷ hs) h e = omega (arith, armed-without_nth n i hs h e)

module _ (ops : SyncMap Handle) (max : ℕ) (positive : 0 < max) (fits : max < 2147483648)
    (n : ℕ) where
  open ops use {Map, load, store, delete}

  -- The task `n`, which `f` goroutines have and `d` of them are about to send.
  pub record Single (m : Shared ops) (f d : ℕ) : Type 0 where
    pub limit : m.max_retry_cnt ≡ max
    pub alone : f + armed n m.timers ≤ 1
    pub later : m.next_serial ≤ n → f + armed n m.timers + m.counts n ≡ 0
    pub counted : pushes n m.effects + d ≤ m.counts n
    pub below : pushes n m.effects + d < max
    pub again : 1 ≤ f + armed n m.timers → m.counts n < max

  abbrev pub Kept : Shared ops → Pc → Shared ops × Pc → Type 0
  Kept m pc (m', pc') =
      (f d f' d' : ℕ)
      → f' + flies n pc ≡ f + flies n pc'
      → d' + sends n pc ≡ d + sends n pc'
      → flies n pc ≤ f
      → Single m f d
      → Single m' f' d'

  -- A move that leaves what the task is judged by.
  pub stays :
      (m : Shared ops) (pc pc' : Pc)
      → flies n pc' ≤ flies n pc
      → sends n pc' ≤ sends n pc
      → Kept m pc (m, pc')
  stays m pc pc' p q = λ f d f' d' x z o v. record {
    limit = v.limit;
    alone = omega (arith, v.alone, x, z, p, q);
    later = λ l. omega (arith, v.later l, x, z, p, q);
    counted = omega (arith, v.counted, x, z, p, q);
    below = omega (arith, v.below, x, z, p, q);
    again = λ l. v.again (omega (arith, l, x, z, p, q));
  }

  pub stored-Kept :
      (m : Shared ops) (c : Conn) (cs : List Conn) (msg : Message) (o : Option Handle)
      → Kept m (storing (c ∷ cs) msg) (stored ops m (new_handle ops m c msg) cs o)
  stored-Kept m c cs msg (some h) =
      stays m (storing (c ∷ cs) msg) (starting cs msg) (omega arith) (omega arith)
  stored-Kept m c cs msg none = λ f d f' d' x z o v. record {
    limit = v.limit;
    alone = ground (arith, v.alone, x, z, v.later);
    later = λ l. ground (arith, x, z, v.later, l);
    counted = omega (arith, v.counted, x, z);
    below = omega (arith, v.below, x, z);
    again = λ l. ground (arith, v.again, v.later, l, x, z, positive);
  }

  pub arming-Kept :
      (m : Shared ops) (h : Handle) (pc pc' : Pc)
      → flies n pc ≡ is_task n h
      → flies n pc' ≡ 0
      → sends n pc ≡ 0
      → sends n pc' ≡ 0
      → Kept m pc (record m { timers = h ∷ m.timers }, pc')
  arming-Kept m h pc pc' a b a' b' = λ f d f' d' x z o v. record {
    limit = v.limit;
    alone = omega (arith, v.alone, x, a, b);
    later = λ l. omega (arith, v.later l, x, a, b);
    counted = omega (arith, v.counted, z, a', b');
    below = omega (arith, v.below, z, a', b');
    again = λ l. v.again (omega (arith, l, x, a, b));
  }

  -- The task's own goroutine raises its count, below the limit; the limit reached, it lets go.
  own_raised-Kept :
      (m : Shared ops) (h : Handle) → h.serial ≡ n → Kept m (raising h) (raised ops m h)
  own_raised-Kept m h own = λ f d f' d' x z o v.
      let free : m.counts h.serial < max = ground (arith, own, v.again, o) in
      let up = count_up (m.counts h.serial) max free fits in
      record {
        limit = v.limit;
        alone = ground (arith, v.alone, x, o, own);
        later = λ l. ground (arith, v.later, l, x, o, own);
        counted = ground (arith, v.counted, z, own, up, free, fits, v.limit);
        below = ground (arith, v.below, v.counted, z, own, up, free, fits, v.limit);
        again = λ l. ground (arith, l, v.alone, x, z, own, up, free, fits, v.limit);
      }

  other_raised-Kept :
      (m : Shared ops) (h : Handle) → h.serial == n ≡ false → Kept m (raising h) (raised ops m h)
  other_raised-Kept m h other = λ f d f' d' x z o v. record {
    limit = v.limit;
    alone = ground (arith, v.alone, x, other);
    later = λ l. ground (arith, v.later, l, x, other);
    counted = ground (arith, v.counted, z, other);
    below = ground (arith, v.below, z, other);
    again = λ l. ground (arith, v.again, l, x, other);
  }

  pub raised-Kept : (m : Shared ops) (h : Handle) → Kept m (raising h) (raised ops m h)
  raised-Kept m h = elim (Bool-cases (h.serial == n)) [
    | inl y ↦ own_raised-Kept m h (ground (arith, y))
    | inr k ↦ other_raised-Kept m h k
  ]

  pub fired-Kept :
      (m : Shared ops) (i : ℕ) (o : Option Handle)
      → place m.timers i ≡ o
      → Kept m idle (fired ops m o i)
  fired-Kept m i none e = stays m idle idle (omega arith) (omega arith)
  fired-Kept m i (some h) e = λ f d f' d' x z o v.
      let out = armed-without_nth n i m.timers h e in
      record {
        limit = v.limit;
        alone = omega (arith, v.alone, x, out);
        later = λ l. omega (arith, v.later l, x, out);
        counted = omega (arith, v.counted, z);
        below = omega (arith, v.below, z);
        again = λ l. v.again (omega (arith, l, x, out));
      }

  -- A move that changes neither the timers, the counts, the numbers nor what was sent.
  pub shifts :
      (m m' : Shared ops) (pc pc' : Pc)
      → (m'.timers ≡ m.timers)
        × (m'.counts ≡ m.counts)
        × (m'.next_serial ≡ m.next_serial)
        × (m'.effects ≡ m.effects)
        × (m'.max_retry_cnt ≡ m.max_retry_cnt)
      → flies n pc' ≤ flies n pc
      → sends n pc' ≤ sends n pc
      → Kept m pc (m', pc')
  shifts m m' pc pc' (a, b, c, e, g) p q = λ f d f' d' x z o v.
      let s = stays m pc pc' p q f d f' d' x z o v in
      record {
        limit = rw g s.limit;
        alone = rw a s.alone;
        later = rw (a, b, c) s.later;
        counted = rw (b, e) s.counted;
        below = rw e s.below;
        again = rw (a, b) s.again;
      }
