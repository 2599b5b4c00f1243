-- ===== src/Lifecycle/Threads/Exclusive.antt =====
-- One delivery at a time for a message, and none after one that was handled for good.
use synp.Prelude.{◌+◌, ◌≤◌, ◌≡◌, refl, Bool, Option, none, some, List, [], ◌∷◌, arith}
use synp.Prelude.Text.{Text}
use synp.Prelude.Goroutines.{place, moved, total, total-moved, place-le}
use synp.Redis.{Redis}
use synp.SyncMap.{SyncMap}
use synp.Fault.{Result}
use synp.Message.{Message, CommandType}
use synp.Retransmit.{Task}
use synp.Lifecycle.{decode_payload}
use synp.Lifecycle.Threads.{
  Pc, idle, caching, handling, uncaching, Turn, Shared, System, move, turn, step, run,
}
use synp.Lifecycle.Threads.Moves.{
  Lasting, holds, settled, Exclusive, Kept, received-stays, caching-Kept, handling-Kept,
  uncaching-Kept,
}

module _ (redis : Redis) (lasting : Lasting redis) (ops : SyncMap Task)
    (unmarshal : Text → Result Message) (known : CommandType → Bool) (k : Text) where
  open redis use {State, exists, set_nx, set_nx-ok, del}

  move-Kept :
      (t : Turn) (pc : Pc) (m : Shared redis ops unmarshal known)
      → Kept redis lasting ops unmarshal known k m pc (move redis ops unmarshal known t pc m)
  unfolding move
  move-Kept t idle m =
      received-stays redis lasting ops unmarshal known k m t.conn
        (decode_payload unmarshal t.payload)
  move-Kept t (caching conn msg) m = caching-Kept redis lasting ops unmarshal known k m conn msg
  move-Kept t (handling conn msg) m =
      handling-Kept redis lasting ops unmarshal known k m conn msg t.outcome (known msg.cmd)
  move-Kept t (uncaching conn msg) m = uncaching-Kept redis lasting ops unmarshal known k m conn msg

  abbrev pub IsExclusive : System redis ops unmarshal known → Type 0
  IsExclusive s = Exclusive redis lasting ops unmarshal known k s.mem (total (holds k) s.pcs)

  turn-IsExclusive :
      (t : Turn) (s : System redis ops unmarshal known) (o : Option Pc)
      → place s.pcs t.goroutine ≡ o
      → IsExclusive s
      → IsExclusive (turn redis ops unmarshal known t s o)
  turn-IsExclusive t s none e v = v
  turn-IsExclusive t s (some pc) e v =
      let pc' = (move redis ops unmarshal known t pc s.mem).1 in
      move-Kept t pc s.mem (total (holds k) s.pcs) (total (holds k) (moved s.pcs t.goroutine pc'))
        (total-moved (holds k) s.pcs t.goroutine pc pc' e)
        (place-le (holds k) s.pcs t.goroutine pc e) v

  run-IsExclusive :
      (ts : List Turn) (s : System redis ops unmarshal known)
      → IsExclusive s
      → IsExclusive (run redis ops unmarshal known ts s)
  unfolding run step
  run-IsExclusive [] s v = v
  run-IsExclusive (t ∷ ts) s v =
      run-IsExclusive ts (step redis ops unmarshal known t s)
        (turn-IsExclusive t s (place s.pcs t.goroutine) refl v)

  -- Messages arrive in any number of goroutines, on whatever connections, and their accesses of Redis
  -- and of the handlers are interleaved in any way; keys do not expire meanwhile, and a command of Redis
  -- that fails removes no other key. If no goroutine has a message at first and nothing was handled yet,
  -- then of the messages with the same business and message id that are no heartbeats, at most one is in a
  -- handler or was handled for good: none is handled beside another one, and none after one whose handler
  -- returned no error of the kinds that take it off the cache.
  pub handled_once :
      (ts : List Turn) (s : System redis ops unmarshal known)
      → s.mem.handled ≡ []
      → total (holds k) s.pcs ≡ 0
      → let r = run redis ops unmarshal known ts s in
        settled k r.mem.handled + total (holds k) r.pcs ≤ 1
  handled_once ts s none_yet all_free =
      let start : IsExclusive s =
        rw (none_yet, all_free) (omega arith, λ l. absurd (omega (arith, l))) in
      (run-IsExclusive ts s start).0
