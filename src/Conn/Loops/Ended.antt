-- ===== src/Conn/Loops/Ended.antt =====
-- How a connection ends: what its goroutines do to it, once, and what is written afterwards.
use synp.Prelude.{
  ℕ, ◌≡◌, refl, sym, ap, ◌⊎◌, inl, inr, Bool, true, false, Option, none, some, List, [], ◌∷◌, ◌++◌,
  if◌then◌else◌, ltb, length, arith,
}
use synp.Prelude.Text.{Text}
use synp.Fault.{Fault}
use synp.Conn.Sending.{Outcome, written, timed_out, broken}
use synp.Conn.Closing.{
  Effect, close_frame, net_close, session_destroy, Runtime, Choice, takes_done, takes_send, send,
  close,
}
use synp.Conn.Loops.{
  Read, payload, read_timeout, client_closed, failed, Receiver, checking, reading, holding,
  returned, Loops, Closing, closed_by, after_send, sender_ends, sender_panics, receiver_ends,
  after_read, handing, receiver_moves, reader_takes, Event, sends, closes, cancels, sender,
  receives, takes, sender_takes, sender_moves, happens, step, run, new_loops, asks_next, wrote,
  Sender, waiting, stopped, panicked, trying, writing, pausing, Grant, pause, used_up, no_strategy,
  is_panicked,
}

abbrev pub is_returned : Receiver → Bool
is_returned checking = false
is_returned reading = false
is_returned (holding p) = false
is_returned returned = true

-- sendLoop has returned, or a panic has ended it.
abbrev pub is_stopped : Sender → Bool
is_stopped waiting = false
is_stopped stopped = true
is_stopped panicked = true
is_stopped (trying p) = false
is_stopped (writing p) = false
is_stopped (pausing p) = false

abbrev pub ending : List Effect
ending = session_destroy ∷ net_close ∷ close_frame ∷ []

-- Either nobody called Close, or the context is cancelled and the three effects took place once.
abbrev pub IsOnce : Runtime → Type 0
IsOnce c =
    ((c.closing ≡ false) × (c.effects ≡ []))
    ⊎ ((c.closing ≡ true) × (c.cancelled ≡ true) × (c.effects ≡ ending))

-- A goroutine that has returned has called Close, and receiveLoop has closed its channel once.
pub record IsEnding (s : Loops) : Type 0 where
  pub once : IsOnce s.conn
  pub sender : (is_stopped s.sending ≡ false) ⊎ (s.conn.closing ≡ true)
  pub receiver :
      ((is_returned s.receiver ≡ false) × (s.channel_closes ≡ 0))
      ⊎ ((is_returned s.receiver ≡ true) × (s.conn.closing ≡ true) × (s.channel_closes ≡ 1))

closed-IsOnce : (k : Closing) (c : Runtime) → IsOnce c → IsOnce (closed_by k c)
unfolding close
closed-IsOnce k c (inl (n, e)) =
    inr (ground (arith, n, e), ground (arith, n, e), ground (arith, n, e))
closed-IsOnce k c (inr (y, d, e)) =
    inr (ground (arith, y, d, e), ground (arith, y, d, e), ground (arith, y, d, e))

pub closed-closing : (k : Closing) (c : Runtime) → (closed_by k c).closing ≡ true
unfolding close
closed-closing k c = ground arith

closed-IsEnding :
    (k : Closing) (s : Loops) → IsEnding s → IsEnding (record s { conn = closed_by k s.conn })
closed-IsEnding k s v = record {
  once = closed-IsOnce k s.conn v.once;
  sender = inr (closed-closing k s.conn);
  receiver = ground (arith, v.receiver, closed-closing k s.conn);
}

-- A connection whose fields of closing stay.
kept-IsEnding :
    (s t : Loops)
    → t.conn.closing ≡ s.conn.closing
    → (t.conn.cancelled ≡ s.conn.cancelled) ⊎ (t.conn.cancelled ≡ true)
    → t.conn.effects ≡ s.conn.effects
    → (is_stopped t.sending ≡ is_stopped s.sending) ⊎ (is_stopped t.sending ≡ false)
    → is_returned t.receiver ≡ is_returned s.receiver
    → t.channel_closes ≡ s.channel_closes
    → IsEnding s
    → IsEnding t
kept-IsEnding s t a b c d e f v = record {
  once = ground (arith, a, b, c, v.once);
  sender = ground (arith, a, d, v.sender);
  receiver = ground (arith, a, e, f, v.receiver);
}

sender_ends-IsEnding : (k : Closing) (s : Loops) → IsEnding s → IsEnding (sender_ends k s)
sender_ends-IsEnding k s v =
    let w = closed-IsEnding k s v in
    record { once = w.once; sender = inr (closed-closing k s.conn); receiver = w.receiver }

receiver_ends-IsEnding :
    (k : Closing) (s : Loops)
    → is_returned s.receiver ≡ false
    → IsEnding s
    → IsEnding (receiver_ends k s)
receiver_ends-IsEnding k s n v =
    let w = closed-IsEnding k s v in
    record {
      once = w.once;
      sender = w.sender;
      receiver = inr (refl, closed-closing k s.conn, ground (arith, n, v.receiver));
    }

if-IsEnding : (b : Bool) (s t : Loops) → IsEnding s → IsEnding t → IsEnding (if b then s else t)
if-IsEnding true s t v w = v
if-IsEnding false s t v w = w

pub send-fields :
    (c c' : Runtime) (p : Text) (choice : Choice) (e : Option Fault)
    → send c p choice ≡ some (e, c')
    → (c'.closing ≡ c.closing) × (c'.cancelled ≡ c.cancelled) × (c'.effects ≡ c.effects)
unfolding send
send-fields c c' p takes_done e h = ground (arith, h)
send-fields c c' p takes_send e h = ground (arith, h)

sent-IsEnding :
    (s : Loops) (p : Text) (choice : Choice) (o : Option (Option Fault × Runtime))
    → send s.conn p choice ≡ o
    → IsEnding s
    → IsEnding (after_send s p o)
sent-IsEnding s p choice none h v = v
sent-IsEnding s p choice (some (e, c)) h v =
    let (a, b, d) = send-fields s.conn c p choice e h in
    kept-IsEnding s (after_send s p (some (e, c))) a (inl b) d (inl refl) refl refl v

read-IsEnding :
    (k : Closing) (s : Loops) (r : Read)
    → s.receiver ≡ reading
    → IsEnding s
    → IsEnding (after_read k s r)
read-IsEnding k s (payload p) h v =
    kept-IsEnding s (after_read k s (payload p)) refl (inl refl) refl (inl refl)
      (sym (ap is_returned h)) refl v
read-IsEnding k s read_timeout h v =
    kept-IsEnding s (after_read k s read_timeout) refl (inl refl) refl (inl refl)
      (sym (ap is_returned h)) refl v
read-IsEnding k s client_closed h v = receiver_ends-IsEnding k s (ap is_returned h) v
read-IsEnding k s failed h v = receiver_ends-IsEnding k s (ap is_returned h) v

handing-IsEnding :
    (k : Closing) (choice : Choice) (p : Text) (s : Loops)
    → s.receiver ≡ holding p
    → IsEnding s
    → IsEnding (handing k choice p s)
handing-IsEnding k takes_done p s h v =
    if-IsEnding s.conn.cancelled (receiver_ends k s) s
      (receiver_ends-IsEnding k s (ap is_returned h) v) v
handing-IsEnding k takes_send p s h v =
    if-IsEnding (ltb (length s.receive_chan) s.receive_cap) handed s
      (kept-IsEnding s handed refl (inl refl) refl (inl refl) (sym (ap is_returned h)) refl v) v
  where
    handed : Loops
    handed = record s { receiver = checking; receive_chan = s.receive_chan ++ p ∷ [] }

receiver-IsEnding :
    (k : Closing) (r : Read) (choice : Choice) (at : Receiver) (s : Loops)
    → s.receiver ≡ at
    → IsEnding s
    → IsEnding (receiver_moves k r choice at s)
receiver-IsEnding k r choice checking s h v =
    if-IsEnding s.conn.cancelled (receiver_ends k s) (record s { receiver = reading })
      (receiver_ends-IsEnding k s (ap is_returned h) v)
      (kept-IsEnding s (record s { receiver = reading }) refl (inl refl) refl (inl refl)
        (sym (ap is_returned h)) refl v)
receiver-IsEnding k r choice reading s h v = read-IsEnding k s r h v
receiver-IsEnding k r choice (holding p) s h v = handing-IsEnding k choice p s h v
receiver-IsEnding k r choice returned s h v = v

taken-IsEnding : (ps : List Text) (s : Loops) → IsEnding s → IsEnding (reader_takes ps s)
taken-IsEnding [] s v = v
taken-IsEnding (p ∷ ps) s v =
    kept-IsEnding s (reader_takes (p ∷ ps) s) refl (inl refl) refl (inl refl) refl refl v

sender_panics-IsEnding : (k : Closing) (s : Loops) → IsEnding s → IsEnding (sender_panics k s)
sender_panics-IsEnding k s v =
    let w = closed-IsEnding k s v in
    record { once = w.once; sender = inr (closed-closing k s.conn); receiver = w.receiver }

-- sendLoop goes to another place, and has not returned there.
placed-IsEnding :
    (s : Loops) (at : Sender)
    → is_stopped at ≡ false
    → IsEnding s
    → IsEnding (record s { sending = at })
placed-IsEnding s at n v =
    kept-IsEnding s (record s { sending = at }) refl (inl refl) refl (inr n) refl refl v

sender_takes-IsEnding : (ps : List Text) (s : Loops) → IsEnding s → IsEnding (sender_takes ps s)
sender_takes-IsEnding [] s v = v
sender_takes-IsEnding (p ∷ ps) s v =
    kept-IsEnding s (sender_takes (p ∷ ps) s) refl (inl refl) refl (inr refl) refl refl v

asks_next-IsEnding :
    (k : Closing) (p : Text) (g : Grant) (s : Loops) → IsEnding s → IsEnding (asks_next k p g s)
asks_next-IsEnding k p pause s v = placed-IsEnding s (pausing p) refl v
asks_next-IsEnding k p used_up s v = sender_ends-IsEnding k s v
asks_next-IsEnding k p no_strategy s v = sender_panics-IsEnding k s v

wrote-IsEnding :
    (k : Closing) (p : Text) (g : Grant) (o : Outcome) (s : Loops)
    → IsEnding s
    → IsEnding (wrote k p g o s)
wrote-IsEnding k p g written s v =
    kept-IsEnding s (wrote k p g written s) refl (inl refl) refl (inr refl) refl refl v
wrote-IsEnding k p g timed_out s v = asks_next-IsEnding k p g s v
wrote-IsEnding k p g broken s v = sender_ends-IsEnding k s v

sender-IsEnding :
    (k : Closing) (choice : Choice) (o : Outcome) (g : Grant) (at : Sender) (s : Loops)
    → IsEnding s
    → IsEnding (sender_moves k choice o g at s)
sender-IsEnding k takes_done o g waiting s v =
    if-IsEnding s.conn.cancelled (sender_ends k s) s (sender_ends-IsEnding k s v) v
sender-IsEnding k takes_send o g waiting s v = sender_takes-IsEnding s.conn.send_chan s v
sender-IsEnding k choice o g (trying p) s v =
    if-IsEnding s.conn.cancelled (sender_ends k s) (record s { sending = writing p })
      (sender_ends-IsEnding k s v) (placed-IsEnding s (writing p) refl v)
sender-IsEnding k choice o g (writing p) s v = wrote-IsEnding k p g o s v
sender-IsEnding k takes_done o g (pausing p) s v =
    if-IsEnding s.conn.cancelled (sender_ends k s) s (sender_ends-IsEnding k s v) v
sender-IsEnding k takes_send o g (pausing p) s v = placed-IsEnding s (trying p) refl v
sender-IsEnding k choice o g stopped s v = v
sender-IsEnding k choice o g panicked s v = v

happens-IsEnding : (e : Event) (s : Loops) → IsEnding s → IsEnding (happens e s)
unfolding happens
happens-IsEnding (sends p choice) s v = sent-IsEnding s p choice (send s.conn p choice) refl v
happens-IsEnding (closes k) s v = closed-IsEnding k s v
happens-IsEnding cancels s v =
    kept-IsEnding s (record s { conn = record s.conn { cancelled = true } }) refl (inr refl) refl
      (inl refl) refl refl v
happens-IsEnding (sender choice o g k) s v = sender-IsEnding k choice o g s.sending s v
happens-IsEnding (receives r choice k) s v = receiver-IsEnding k r choice s.receiver s refl v
happens-IsEnding takes s v = taken-IsEnding s.receive_chan s v

pub step-IsEnding : (e : Event) (s : Loops) → IsEnding s → IsEnding (step e s)
unfolding step
step-IsEnding e s v = if-IsEnding (is_panicked s.sending) s (happens e s) v (happens-IsEnding e s v)

pub run_from-IsEnding : (es : List Event) (s : Loops) → IsEnding s → IsEnding (run es s)
unfolding run
run_from-IsEnding [] s v = v
run_from-IsEnding (e ∷ es) s v = run_from-IsEnding es (step e s) (step-IsEnding e s v)

-- From a new connection on, whatever happens: Close acts at most once, with one close frame, one
-- close of the network connection and one end of the session; each goroutine that has returned has
-- called it; and the channel of Receive is closed once when receiveLoop has returned, and not before.
pub run-IsEnding :
    (send_cap receive_cap now : ℕ) (es : List Event)
    → IsEnding (run es (new_loops send_cap receive_cap now))
unfolding new_loops
run-IsEnding send_cap receive_cap now es =
    run_from-IsEnding es (new_loops send_cap receive_cap now)
      (record { once = inl (refl, refl); sender = inl refl; receiver = inl (refl, refl) })
