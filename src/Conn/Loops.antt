-- ===== src/Conn/Loops.antt =====
-- The two goroutines of a connection, sendLoop and receiveLoop of conn.go, between the calls of Send
-- and Close by others.
pub mod Ordered
pub mod Fifo
pub mod Ended
pub mod Quiet
mod Examples
use synp.Prelude.{
  ℕ, suc, Bool, true, false, Option, none, some, List, [], ◌∷◌, ◌++◌, ◌==◌, if◌then◌else◌, ltb,
  length,
}
use synp.Prelude.Text.{Text}
use synp.Fault.{Fault}
use synp.Conn.Sending.{Outcome, written, timed_out, broken}
use synp.Conn.Closing.{Runtime, Choice, takes_done, takes_send, send, close}

-- What reader.Read returns: a payload, a timeout, the client's close, or another error.
pub data Read : Type 0 where
  payload : Text → Read
  read_timeout client_closed failed : Read

-- Where receiveLoop stands: before the check of the context, in the read, in the select that hands a
-- payload over, or returned.
pub data Receiver : Type 0 where
  checking reading : Receiver
  holding : Text → Receiver
  returned : Receiver

-- Where sendLoop stands: in the select that waits for a payload; in trySend with a payload, before the
-- check of the context, in the call of Write behind it, or in the pause after a timeout; or returned;
-- or ended by a panic.
pub data Sender : Type 0 where
  waiting stopped panicked : Sender
  trying writing pausing : Text → Sender

-- What retryStrategy.Next() does: it grants a pause, or none as the retries are used up, or panics since
-- NewExponentialBackoffStrategy returned no strategy, with an error that trySend ignores.
pub data Grant : Type 0 where
  pause used_up no_strategy : Grant

-- The connection with its goroutines; `sending` is the place of sendLoop. The last four fields record
-- what happened: the payloads that Send put into the channel, those that were written, those that were
-- read from the client, and those that the reader of Receive took; `channel_closes` counts close(receiveChan).
pub record Loops : Type 0 where
  pub conn : Runtime
  pub sending : Sender
  pub receiver : Receiver
  pub receive_chan : List Text
  pub receive_cap : ℕ
  pub channel_closes : ℕ
  pub queued : List Text
  pub written : List Text
  pub read : List Text
  pub taken : List Text

-- Close, with what netConn.Close and Destroy return.
pub record Closing : Type 0 where
  pub net_err : Option Fault
  pub destroy_err : Option Fault

abbrev pub closed_by : Closing → Runtime → Runtime
closed_by k c = (close k.net_err k.destroy_err c).1

-- What a call of Send put into the channel.
abbrev pub added : Runtime → Runtime → Text → List Text
added c c' p = if length c'.send_chan == length c.send_chan then [] else p ∷ []

abbrev pub after_send : Loops → Text → Option (Option Fault × Runtime) → Loops
after_send s p none = s
after_send s p (some (e, c)) = record s { conn = c; queued = s.queued ++ added s.conn c p }

-- The deferred Close of sendLoop
abbrev pub sender_ends : Closing → Loops → Loops
sender_ends k s = record s { conn = closed_by k s.conn; sending = stopped }

-- A panic in sendLoop: the deferred Close is called, and the program ends.
abbrev pub sender_panics : Closing → Loops → Loops
sender_panics k s = record s { conn = closed_by k s.conn; sending = panicked }

-- The first payload of the channel is received, and trySend called with it; an empty channel makes
-- sendLoop wait.
abbrev pub sender_takes : List Text → Loops → Loops
sender_takes [] s = s
sender_takes (p ∷ ps) s = record s { conn = record s.conn { send_chan = ps }; sending = trying p }

-- After a timeout of Write
abbrev pub asks_next : Closing → Text → Grant → Loops → Loops
asks_next k p pause s = record s { sending = pausing p }
asks_next k p used_up s = sender_ends k s
asks_next k p no_strategy s = sender_panics k s

-- Write has returned. Where trySend returns true the loop waits again.
abbrev pub wrote : Closing → Text → Grant → Outcome → Loops → Loops
wrote k p g written s = record s { sending = waiting; written = s.written ++ p ∷ [] }
wrote k p g timed_out s = asks_next k p g s
wrote k p g broken s = sender_ends k s

-- A move of sendLoop. Where a select takes a branch, `takes_done` is that of the context; in the pause
-- the other one is the end of the pause.
abbrev pub sender_moves : Closing → Choice → Outcome → Grant → Sender → Loops → Loops
sender_moves k takes_done o g waiting s = if s.conn.cancelled then sender_ends k s else s
sender_moves k takes_send o g waiting s = sender_takes s.conn.send_chan s
sender_moves k choice o g (trying p) s =
    if s.conn.cancelled then sender_ends k s else record s { sending = writing p }
sender_moves k choice o g (writing p) s = wrote k p g o s
sender_moves k takes_done o g (pausing p) s = if s.conn.cancelled then sender_ends k s else s
sender_moves k takes_send o g (pausing p) s = record s { sending = trying p }
sender_moves k choice o g stopped s = s
sender_moves k choice o g panicked s = s

-- The deferred calls of receiveLoop
abbrev pub receiver_ends : Closing → Loops → Loops
receiver_ends k s = record s {
  conn = closed_by k s.conn;
  receiver = returned;
  channel_closes = suc s.channel_closes;
}

abbrev pub after_read : Closing → Loops → Read → Loops
after_read k s (payload p) = record s { receiver = holding p; read = s.read ++ p ∷ [] }
after_read k s read_timeout = record s { receiver = checking }
after_read k s client_closed = receiver_ends k s
after_read k s failed = receiver_ends k s

-- The select that hands `p` over; where neither branch is ready it waits.
abbrev pub handing : Closing → Choice → Text → Loops → Loops
handing k takes_done p s = if s.conn.cancelled then receiver_ends k s else s
handing k takes_send p s =
    if ltb (length s.receive_chan) s.receive_cap
    then record s { receiver = checking; receive_chan = s.receive_chan ++ p ∷ [] }
    else s

-- A move of receiveLoop.
abbrev pub receiver_moves : Closing → Read → Choice → Receiver → Loops → Loops
receiver_moves k r choice checking s =
    if s.conn.cancelled then receiver_ends k s else record s { receiver = reading }
receiver_moves k r choice reading s = after_read k s r
receiver_moves k r choice (holding p) s = handing k choice p s
receiver_moves k r choice returned s = s

-- The reader of Receive takes the first payload.
abbrev pub reader_takes : List Text → Loops → Loops
reader_takes [] s = s
reader_takes (p ∷ ps) s = record s { receive_chan = ps; taken = s.taken ++ p ∷ [] }

-- What happens: calls of Send and Close, the end of the context of the connection manager, a move of one
-- of the goroutines, and a reader of Receive.
pub data Event : Type 0 where
  sends : Text → Choice → Event
  closes : Closing → Event
  cancels : Event
  sender : Choice → Outcome → Grant → Closing → Event
  receives : Read → Choice → Closing → Event
  takes : Event

abbrev pub is_panicked : Sender → Bool
is_panicked waiting = false
is_panicked stopped = false
is_panicked panicked = true
is_panicked (trying p) = false
is_panicked (writing p) = false
is_panicked (pausing p) = false

-- An event that cannot happen changes nothing.
unfoldable pub happens : Event → Loops → Loops
unfolding send close
happens (sends p choice) s = after_send s p (send s.conn p choice)
happens (closes k) s = record s { conn = closed_by k s.conn }
happens cancels s = record s { conn = record s.conn { cancelled = true } }
happens (sender choice o g k) s = sender_moves k choice o g s.sending s
happens (receives r choice k) s = receiver_moves k r choice s.receiver s
happens takes s = reader_takes s.receive_chan s

-- After a panic the program has ended, and nothing happens any more.
unfoldable pub step : Event → Loops → Loops
unfolding happens
step e s = if is_panicked s.sending then s else happens e s

unfoldable pub run : List Event → Loops → Loops
unfolding step
run [] s = s
run (e ∷ es) s = run es (step e s)

-- NewConn, with the capacities of its two channels
unfoldable pub new_loops : ℕ → ℕ → ℕ → Loops
new_loops send_cap receive_cap now = record {
  conn = record {
    cancelled = false;
    closing = false;
    close_err = none;
    send_chan = [];
    send_cap = send_cap;
    activity_time = now;
    effects = [];
  };
  sending = waiting;
  receiver = checking;
  receive_chan = [];
  receive_cap = receive_cap;
  channel_closes = 0;
  queued = [];
  written = [];
  read = [];
  taken = [];
}
