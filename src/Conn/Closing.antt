-- ===== src/Conn/Closing.antt =====
-- Send, Close and UpdateActivityTime of conn.go.
use synp.Prelude.{
  ℕ, ◌≡◌, Bool, true, false, Option, none, some, List, [], ◌∷◌, ◌++◌, arith, if◌then◌else◌, ltb,
  length,
}
use synp.Prelude.Text.{Text}
use synp.Fault.{Fault, sentinel, append, conn_closed}

-- What Close does to the network connection and the session, the last one first.
pub data Effect : Type 0 where
  close_frame net_close session_destroy : Effect

-- The parts of Conn that its methods change. `cancelled` is the context's state; `closing` is
-- closeOnce.
pub record Runtime : Type 0 where
  pub cancelled : Bool
  pub closing : Bool
  pub close_err : Option Fault
  pub send_chan : List Text
  pub send_cap : ℕ
  pub activity_time : ℕ
  pub effects : List Effect

-- The branch that the select of Send takes where both are ready.
pub data Choice : Type 0 where
  takes_done takes_send : Choice

abbrev enqueue : Runtime → Text → Runtime
enqueue c payload = record c { send_chan = c.send_chan ++ payload ∷ [] }

abbrev accepted : Runtime → Text → Option (Option Fault × Runtime)
accepted c payload =
    some (if c.cancelled then some (sentinel conn_closed) else none, enqueue c payload)

-- Send; `none` means that it waits for the channel or the context.
unfoldable pub send : Runtime → Text → Choice → Option (Option Fault × Runtime)
send c payload takes_done =
    if c.cancelled
    then some (some (sentinel conn_closed), c)
    else if ltb (length c.send_chan) c.send_cap
    then accepted c payload
    else none
send c payload takes_send =
    if ltb (length c.send_chan) c.send_cap
    then accepted c payload
    else if c.cancelled
    then some (some (sentinel conn_closed), c)
    else none

-- Close, with what netConn.Close and the session's Destroy return
unfoldable pub close : Option Fault → Option Fault → Runtime → Option Fault × Runtime
close net_err destroy_err c = if c.closing then (c.close_err, c) else (
  append net_err destroy_err,
  record c {
    closing = true;
    cancelled = true;
    close_err = append net_err destroy_err;
    effects = session_destroy ∷ net_close ∷ close_frame ∷ c.effects;
  },
)

unfoldable pub update_activity_time : ℕ → Runtime → Runtime
update_activity_time now c = if c.cancelled then c else record c { activity_time = now }

-- Close acts once: whatever it returned first it returns again, and the connection stays as the
-- first call left it.
pub close_once :
    (n d n' d' : Option Fault) (c : Runtime)
    → c.closing ≡ false
    → let (e, c') = close n d c in
      (e ≡ append n d)
      × (c'.cancelled ≡ true)
      × (c'.effects ≡ session_destroy ∷ net_close ∷ close_frame ∷ c.effects)
      × (close n' d' c' ≡ (e, c'))
unfolding close
close_once n d n' d' c h = ground arith

-- On a connection that was closed Send returns at once with ErrConnClosed, whichever branch its
-- select takes and however full the channel is, and the activity time stays.
pub send_closed :
    (c : Runtime) (p : Text) (choice : Choice) (now : ℕ)
    → c.cancelled ≡ true
    → ((c' : Runtime) × (send c p choice ≡ some (some (sentinel conn_closed), c')))
      × (update_activity_time now c ≡ c)
unfolding send update_activity_time
send_closed c p takes_done now h = ((c, ground arith), ground arith)
send_closed c p takes_send now h =
    ((if ltb (length c.send_chan) c.send_cap then enqueue c p else c, ground arith), ground arith)

-- On an open connection Send puts the payload at the end of the channel without an error, or waits
-- where the channel is full.
pub send_open :
    (c : Runtime) (p : Text) (choice : Choice)
    → c.cancelled ≡ false
    → send c p choice
      ≡ (if ltb (length c.send_chan) c.send_cap then some (none, enqueue c p) else none)
unfolding send
send_open c p takes_done h = ground arith
send_open c p takes_send h = ground arith
