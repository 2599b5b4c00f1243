-- ===== src/Conn/Loops/Examples.antt =====
-- A connection that writes one of two payloads, receives one, and is closed.
use synp.Prelude.{◌≡◌, refl, none, List, [], ◌∷◌}
use synp.Prelude.Text.{codes}
use synp.Conn.Sending.{written, timed_out}
use synp.Conn.Closing.{takes_send, send, close}
use synp.Conn.Loops.{
  payload, failed, Loops, Closing, Event, sends, closes, sender, receives, takes, happens, step,
  run, new_loops, pause, stopped, writing,
}
use synp.Conn.Loops.Ordered.{IsOrdered}
use synp.Conn.Loops.Fifo.{run-IsOrdered}
use synp.Conn.Loops.Ended.{IsEnding, run-IsEnding}
use synp.Conn.Loops.Quiet.{IsQuiet, run-IsQuiet}

abbrev quietly : Closing
quietly = record { net_err = none; destroy_err = none }

-- Two payloads are sent; the first one is written after a timeout, and one is received.
abbrev begun : List Event
begun =
    sends (codes "a") takes_send
    ∷ sends (codes "b") takes_send
    ∷ sender takes_send written pause quietly
    ∷ sender takes_send written pause quietly
    ∷ sender takes_send timed_out pause quietly
    ∷ sender takes_send written pause quietly
    ∷ receives failed takes_send quietly
    ∷ sender takes_send written pause quietly
    ∷ receives (payload (codes "c")) takes_send quietly
    ∷ sender takes_send written pause quietly
    ∷ receives failed takes_send quietly
    ∷ takes
    ∷ []

-- The second one is in its Write while Close is called.
abbrev closing : List Event
closing =
    sender takes_send written pause quietly
    ∷ sender takes_send written pause quietly
    ∷ closes quietly
    ∷ []

abbrev open_conn : Loops
unfolding run step happens new_loops send close
open_conn = run begun (new_loops 256 256 0)

abbrev closed_conn : Loops
unfolding open_conn run step happens new_loops send close
closed_conn = run closing open_conn

-- One payload was written, and one was taken; the other one is in its Write.
progress :
    (closed_conn.written ≡ codes "a" ∷ [])
    × (closed_conn.taken ≡ codes "c" ∷ [])
    × (closed_conn.sending ≡ writing (codes "b"))
unfolding closed_conn
progress = (refl, refl, refl)

run-IsOrdered_example : IsOrdered (run begun (new_loops 256 256 0))
run-IsOrdered_example = run-IsOrdered 256 256 0 begun

run-IsEnding_example : IsEnding (run begun (new_loops 256 256 0))
run-IsEnding_example = run-IsEnding 256 256 0 begun

run-IsQuiet_example : IsQuiet closed_conn (
    run
      (sends (codes "d") takes_send
        ∷ sender takes_send written pause quietly
        ∷ sender takes_send written pause quietly
        ∷ sender takes_send written pause quietly
        ∷ [])
      closed_conn)
unfolding closed_conn
run-IsQuiet_example =
    run-IsQuiet
      (sends (codes "d") takes_send
        ∷ sender takes_send written pause quietly
        ∷ sender takes_send written pause quietly
        ∷ sender takes_send written pause quietly
        ∷ [])
      closed_conn refl

-- The Write that was called gets through, and the next payload is not written.
last_write :
    let s =
      run
        (sends (codes "d") takes_send
          ∷ sender takes_send written pause quietly
          ∷ sender takes_send written pause quietly
          ∷ sender takes_send written pause quietly
          ∷ [])
        closed_conn in
    (s.written ≡ codes "a" ∷ codes "b" ∷ []) × (s.sending ≡ stopped)
unfolding closed_conn run step happens send close
last_write = (refl, refl)
