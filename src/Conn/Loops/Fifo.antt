-- ===== src/Conn/Loops/Fifo.antt =====
-- First in, first out: sendLoop, and all events together.
use synp.Prelude.{ℕ, ◌≤◌, ◌≡◌, refl, sym, ap, ◌∙◌, List, [], ◌∷◌, ◌++◌, length, arith, subst}
use mathlib.Core.List.{append_assoc}
use synp.Prelude.Text.{Text}
use synp.Conn.Sending.{Outcome, written, timed_out, broken}
use synp.Conn.Closing.{Choice, takes_done, takes_send, send}
use synp.Conn.Loops.{
  Loops, Closing, sender_ends, sender_panics, Event, sends, closes, cancels, sender, receives,
  takes, sender_takes, sender_moves, happens, step, run, new_loops, asks_next, wrote, Sender,
  waiting, stopped, panicked, trying, writing, pausing, Grant, pause, used_up, no_strategy,
  is_panicked,
}
use synp.Conn.Loops.Ordered.{
  IsCurrent, IsOrdered, closed-IsOrdered, sent-IsOrdered, if-IsOrdered, receiver-IsOrdered,
  taken-IsOrdered,
}

-- sendLoop goes to another place, where it may hold what it held.
placed-IsOrdered :
    (s : Loops) (at : Sender) (v : IsOrdered s)
    → IsCurrent at v.current
    → IsOrdered (record s { sending = at })
placed-IsOrdered s at v h = record {
  current = v.current;
  sent = v.sent;
  kept = h;
  rest = v.rest;
  received = v.received;
  held = v.held;
  bounded = v.bounded;
}

current-short : (at : Sender) (ps : List Text) → IsCurrent at ps → length ps ≤ 1
current-short waiting ps h = rw h (omega arith)
current-short (trying p) ps h = rw h (omega arith)
current-short (writing p) ps h = rw h (omega arith)
current-short (pausing p) ps h = rw h (omega arith)
current-short stopped ps h = h
current-short panicked ps h = h

sender_ends-IsOrdered : (k : Closing) (s : Loops) → IsOrdered s → IsOrdered (sender_ends k s)
sender_ends-IsOrdered k s v =
    let w = closed-IsOrdered k s v in
    record {
      current = w.current;
      sent = w.sent;
      kept = current-short s.sending w.current w.kept;
      rest = w.rest;
      received = w.received;
      held = w.held;
      bounded = w.bounded;
    }

sender_panics-IsOrdered : (k : Closing) (s : Loops) → IsOrdered s → IsOrdered (sender_panics k s)
sender_panics-IsOrdered k s v =
    let w = sender_ends-IsOrdered k s v in
    record {
      current = w.current;
      sent = w.sent;
      kept = w.kept;
      rest = w.rest;
      received = w.received;
      held = w.held;
      bounded = w.bounded;
    }

sender_takes-IsOrdered :
    (ps : List Text) (s : Loops)
    → s.sending ≡ waiting
    → s.conn.send_chan ≡ ps
    → IsOrdered s
    → IsOrdered (sender_takes ps s)
sender_takes-IsOrdered [] s at h v = v
sender_takes-IsOrdered (p ∷ ps) s at h v =
    let none_held : v.current ≡ [] = subst (λ a. IsCurrent a v.current) at v.kept in
    record {
      current = p ∷ [];
      sent =
          v.sent
          ∙ ap (λ l. s.written ++ (l ++ s.conn.send_chan)) none_held
          ∙ ap (λ l. s.written ++ l) h;
      kept = refl;
      rest = v.rest;
      received = v.received;
      held = v.held;
      bounded = v.bounded;
    }

asks_next-IsOrdered :
    (k : Closing) (p : Text) (g : Grant) (s : Loops)
    → s.sending ≡ writing p
    → IsOrdered s
    → IsOrdered (asks_next k p g s)
asks_next-IsOrdered k p pause s at v =
    placed-IsOrdered s (pausing p) v (subst (λ a. IsCurrent a v.current) at v.kept)
asks_next-IsOrdered k p used_up s at v = sender_ends-IsOrdered k s v
asks_next-IsOrdered k p no_strategy s at v = sender_panics-IsOrdered k s v

wrote-IsOrdered :
    (k : Closing) (p : Text) (g : Grant) (o : Outcome) (s : Loops)
    → s.sending ≡ writing p
    → IsOrdered s
    → IsOrdered (wrote k p g o s)
wrote-IsOrdered k p g written s at v =
    let held : v.current ≡ p ∷ [] = subst (λ a. IsCurrent a v.current) at v.kept in
    record {
      current = [];
      sent =
          v.sent
          ∙ ap (λ l. s.written ++ (l ++ s.conn.send_chan)) held
          ∙ sym (append_assoc s.written (p ∷ []) s.conn.send_chan);
      kept = refl;
      rest = v.rest;
      received = v.received;
      held = v.held;
      bounded = v.bounded;
    }
wrote-IsOrdered k p g timed_out s at v = asks_next-IsOrdered k p g s at v
wrote-IsOrdered k p g broken s at v = sender_ends-IsOrdered k s v

sender-IsOrdered :
    (k : Closing) (choice : Choice) (o : Outcome) (g : Grant) (at : Sender) (s : Loops)
    → s.sending ≡ at
    → IsOrdered s
    → IsOrdered (sender_moves k choice o g at s)
sender-IsOrdered k takes_done o g waiting s h v =
    if-IsOrdered s.conn.cancelled (sender_ends k s) s (sender_ends-IsOrdered k s v) v
sender-IsOrdered k takes_send o g waiting s h v = sender_takes-IsOrdered s.conn.send_chan s h refl v
sender-IsOrdered k choice o g (trying p) s h v =
    if-IsOrdered s.conn.cancelled (sender_ends k s) (record s { sending = writing p })
      (sender_ends-IsOrdered k s v)
      (placed-IsOrdered s (writing p) v (subst (λ a. IsCurrent a v.current) h v.kept))
sender-IsOrdered k choice o g (writing p) s h v = wrote-IsOrdered k p g o s h v
sender-IsOrdered k takes_done o g (pausing p) s h v =
    if-IsOrdered s.conn.cancelled (sender_ends k s) s (sender_ends-IsOrdered k s v) v
sender-IsOrdered k takes_send o g (pausing p) s h v =
    placed-IsOrdered s (trying p) v (subst (λ a. IsCurrent a v.current) h v.kept)
sender-IsOrdered k choice o g stopped s h v = v
sender-IsOrdered k choice o g panicked s h v = v

happens-IsOrdered : (e : Event) (s : Loops) → IsOrdered s → IsOrdered (happens e s)
unfolding happens
happens-IsOrdered (sends p choice) s v = sent-IsOrdered s p choice (send s.conn p choice) refl v
happens-IsOrdered (closes k) s v = closed-IsOrdered k s v
happens-IsOrdered cancels s v = record {
  current = v.current;
  sent = v.sent;
  kept = v.kept;
  rest = v.rest;
  received = v.received;
  held = v.held;
  bounded = v.bounded;
}
happens-IsOrdered (sender choice o g k) s v = sender-IsOrdered k choice o g s.sending s refl v
happens-IsOrdered (receives r choice k) s v = receiver-IsOrdered k r choice s.receiver s refl v
happens-IsOrdered takes s v = taken-IsOrdered s.receive_chan s refl v

run_from-IsOrdered : (es : List Event) (s : Loops) → IsOrdered s → IsOrdered (run es s)
unfolding run step
run_from-IsOrdered [] s v = v
run_from-IsOrdered (e ∷ es) s v =
    run_from-IsOrdered es (step e s)
      (if-IsOrdered (is_panicked s.sending) s (happens e s) v (happens-IsOrdered e s v))

-- From a new connection on, whatever is sent, closed and received, however the two goroutines
-- move, and whatever becomes of each write: the payloads that Send put into the channel are, in order,
-- those whose write got through, at most one that sendLoop holds, or dropped at its end, and those
-- still in the channel; the payloads that were read are, in order, those that the reader of Receive
-- took, those in its channel, which is never over its capacity, and at most one that receiveLoop
-- holds, or dropped at its end.
pub run-IsOrdered :
    (send_cap receive_cap now : ℕ) (es : List Event)
    → IsOrdered (run es (new_loops send_cap receive_cap now))
unfolding new_loops
run-IsOrdered send_cap receive_cap now es =
    run_from-IsOrdered es (new_loops send_cap receive_cap now) (record {
      current = [];
      sent = refl;
      kept = refl;
      rest = [];
      received = refl;
      held = refl;
      bounded = omega arith;
    })
