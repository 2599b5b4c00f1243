-- ===== src/Retransmit/History.antt =====
-- Any calls of the manager and any fired timers, one after another.
use synp.Prelude.{◌<◌, Option, List, [], ◌∷◌}
use synp.Prelude.Int.{ℤ, pos_part}
use synp.Prelude.Text.{Text}
use synp.SyncMap.{SyncMap}
use synp.Fault.{Fault}
use synp.Message.{Message}
use synp.Conn.{Conn}
use synp.Retransmit.{Task, Manager, new_manager, start, stop_task, clear_by_conn, close, run}
use synp.Retransmit.Counts.{
  IsValid, new_manager-IsValid, start-IsValid, stop_task-IsValid, clear_by_conn-IsValid,
  close-IsValid, run-IsValid,
}

-- The calls that the rest of the program makes, and a timer that fires with what taskFunc returns.
pub data Call : Type 0 where
  starts : List Conn → Message → Call
  stops : Text → Text → Call
  clears : Text → Call
  closes : Call
  fires : Text → Option Fault → Call

module _ (ops : SyncMap Task) where
  unfoldable pub perform : Manager ops → Call → Manager ops
  unfolding start stop_task clear_by_conn close run
  perform m (starts conns msg) = start ops m conns msg
  perform m (stops conn_id message_id) = stop_task ops m conn_id message_id
  perform m (clears conn_id) = clear_by_conn ops m conn_id
  perform m closes = close ops m
  perform m (fires key outcome) = (run ops m key outcome).0

  unfoldable pub perform_all : Manager ops → List Call → Manager ops
  unfolding perform
  perform_all m [] = m
  perform_all m (c ∷ cs) = perform_all (perform m c) cs

  pub perform-IsValid : (m : Manager ops) (c : Call) → IsValid ops m → IsValid ops (perform m c)
  unfolding perform
  perform-IsValid m (starts conns msg) v = start-IsValid ops m conns msg v
  perform-IsValid m (stops c d) v = stop_task-IsValid ops m c d v
  perform-IsValid m (clears c) v = clear_by_conn-IsValid ops m c v
  perform-IsValid m closes v = close-IsValid ops m v
  perform-IsValid m (fires k outcome) v = run-IsValid ops m k outcome v

  perform_all-IsValid :
      (m : Manager ops) (cs : List Call) → IsValid ops m → IsValid ops (perform_all m cs)
  unfolding perform_all
  perform_all-IsValid m [] v = v
  perform_all-IsValid m (c ∷ cs) v = perform_all-IsValid (perform m c) cs (perform-IsValid m c v)

  -- From a new manager with any interval and any int32 limit, after any calls and fired timers, in
  -- any order: TotalTaskCnt is the number of tasks (modulo 2^64), each task stands under the key of
  -- its connection and message, and has been counted less often than the limit.
  pub history-IsValid :
      (interval limit : ℤ) (cs : List Call)
      → pos_part limit < 2147483648
      → IsValid ops (perform_all (new_manager ops interval limit) cs)
  history-IsValid interval limit cs h =
      perform_all-IsValid (new_manager ops interval limit) cs
        (new_manager-IsValid ops interval limit h)
