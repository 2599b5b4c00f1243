-- ===== src/Conn/Loops/Quiet.antt =====
-- What the client may still get once the context is cancelled.
use synp.Prelude.{
  ◌≡◌, refl, sym, ap, ◌∙◌, ◌⊎◌, inl, inr, Bool, true, false, Option, none, some, List, [], ◌∷◌,
  ◌++◌, if◌then◌else◌, ltb, length, arith, Bool-cases, subst,
}
use mathlib.Core.List.{append-nil}
use synp.Prelude.Text.{Text}
use synp.Fault.{Fault}
use synp.Conn.Sending.{Outcome, written, timed_out, broken}
use synp.Conn.Closing.{Runtime, Choice, takes_done, takes_send, send, close}
use synp.Conn.Loops.{
  Read, payload, read_timeout, client_closed, failed, Receiver, checking, reading, holding,
  returned, Loops, Closing, closed_by, after_send, sender_ends, receiver_ends, receiver_moves,
  reader_takes, Event, sends, closes, cancels, sender, receives, takes, sender_takes, sender_moves,
  happens, step, run, wrote, Sender, waiting, stopped, panicked, trying, writing, pausing, Grant,
  pause, used_up, no_strategy, is_panicked,
}
use synp.Conn.Loops.Ended.{ending, send-fields}

-- The payload whose Write is called, behind the check of the context.
abbrev pub in_write : Sender → List Text
in_write waiting = []
in_write stopped = []
in_write panicked = []
in_write (trying p) = []
in_write (writing p) = p ∷ []
in_write (pausing p) = []

-- What has become of the connection itself: the context stays cancelled, and either nothing was done to
-- the network and the session, or Close, which nobody had called, was called.
pub record IsKept (c c' : Runtime) : Type 0 where
  pub cancelled : c'.cancelled ≡ true
  pub effects :
      ((c'.closing ≡ c.closing) × (c'.effects ≡ c.effects))
      ⊎ ((c.closing ≡ false) × (c'.closing ≡ true) × (c'.effects ≡ ending ++ c.effects))

-- What has become of the payloads: none was written, or that which was in the call of Write at first,
-- and then none is in it.
abbrev pub IsSpent : Loops → Loops → Type 0
IsSpent s t =
    ((t.written ≡ s.written)
      × ((in_write t.sending ≡ in_write s.sending) ⊎ (in_write t.sending ≡ [])))
    ⊎ ((t.written ≡ s.written ++ in_write s.sending) × (in_write t.sending ≡ []))

pub record IsQuiet (s t : Loops) : Type 0 where
  pub conn : IsKept s.conn t.conn
  pub spent : IsSpent s t

IsKept-refl : (c : Runtime) → c.cancelled ≡ true → IsKept c c
IsKept-refl c h = record { cancelled = h; effects = inl (refl, refl) }

IsKept-trans : (c d e : Runtime) → IsKept c d → IsKept d e → IsKept c e
IsKept-trans c d e v w = record { cancelled = w.cancelled; effects = both v.effects w.effects }
  where
    both :
        ((d.closing ≡ c.closing) × (d.effects ≡ c.effects))
          ⊎ ((c.closing ≡ false) × (d.closing ≡ true) × (d.effects ≡ ending ++ c.effects))
        → ((e.closing ≡ d.closing) × (e.effects ≡ d.effects))
          ⊎ ((d.closing ≡ false) × (e.closing ≡ true) × (e.effects ≡ ending ++ d.effects))
        → ((e.closing ≡ c.closing) × (e.effects ≡ c.effects))
          ⊎ ((c.closing ≡ false) × (e.closing ≡ true) × (e.effects ≡ ending ++ c.effects))
    both (inl (a, b)) (inl (a', b')) = inl (a' ∙ a, b' ∙ b)
    both (inl (a, b)) (inr (n, y, b')) = inr (sym a ∙ n, y, b' ∙ ap (λ l. ending ++ l) b)
    both (inr (n, y, b)) (inl (a', b')) = inr (n, a' ∙ y, b' ∙ b)
    both (inr (n, y, b)) (inr (n', y', b')) = absurd (cc (y, n'))

closed-IsKept : (k : Closing) (c : Runtime) → c.cancelled ≡ true → IsKept c (closed_by k c)
unfolding close
closed-IsKept k c h = elim (Bool-cases c.closing) [
  | inl y ↦ record {
    cancelled = ground (arith, y, h);
    effects = inl (ground (arith, y), ground (arith, y));
  }
  | inr n ↦ record {
    cancelled = ground (arith, n);
    effects = inr (n, ground (arith, n), ground (arith, n));
  }
]

IsQuiet-refl : (s : Loops) → s.conn.cancelled ≡ true → IsQuiet s s
IsQuiet-refl s h = record { conn = IsKept-refl s.conn h; spent = inl (refl, inl refl) }

IsQuiet-trans : (s t u : Loops) → IsQuiet s t → IsQuiet t u → IsQuiet s u
IsQuiet-trans s t u v w = record {
  conn = IsKept-trans s.conn t.conn u.conn v.conn w.conn;
  spent = both v.spent w.spent;
}
  where
    both : IsSpent s t → IsSpent t u → IsSpent s u
    both (inl (a, inl i)) (inl (b, inl j)) = inl (b ∙ a, inl (j ∙ i))
    both (inl (a, inr i)) (inl (b, inl j)) = inl (b ∙ a, inr (j ∙ i))
    both (inl (a, i)) (inl (b, inr j)) = inl (b ∙ a, inr j)
    both (inl (a, inl i)) (inr (b, j)) =
        inr (b ∙ ap (λ l. l ++ in_write t.sending) a ∙ ap (λ l. s.written ++ l) i, j)
    both (inl (a, inr i)) (inr (b, j)) = inl (
      b ∙ ap (λ l. l ++ in_write t.sending) a ∙ ap (λ l. s.written ++ l) i ∙ append-nil s.written,
      inr j,
    )
    both (inr (a, i)) (inl (b, inl j)) = inr (b ∙ a, j ∙ i)
    both (inr (a, i)) (inl (b, inr j)) = inr (b ∙ a, j)
    both (inr (a, i)) (inr (b, j)) =
        inr (b ∙ ap (λ l. t.written ++ l) i ∙ append-nil t.written ∙ a, j)

if-IsQuiet : (b : Bool) (s t u : Loops) → IsQuiet s t → IsQuiet s u → IsQuiet s (if b then t else u)
if-IsQuiet true s t u v w = v
if-IsQuiet false s t u v w = w

sent-IsQuiet :
    (s : Loops) (p : Text) (choice : Choice) (o : Option (Option Fault × Runtime))
    → send s.conn p choice ≡ o
    → s.conn.cancelled ≡ true
    → IsQuiet s (after_send s p o)
sent-IsQuiet s p choice none h d = IsQuiet-refl s d
sent-IsQuiet s p choice (some (e, c)) h d =
    let (a, b, f) = send-fields s.conn c p choice e h in
    record {
      conn = record { cancelled = b ∙ d; effects = inl (a, f) };
      spent = inl (refl, inl refl);
    }

-- A goroutine ends with its Close.
receiver_ends-IsQuiet :
    (k : Closing) (s : Loops) → s.conn.cancelled ≡ true → IsQuiet s (receiver_ends k s)
receiver_ends-IsQuiet k s d = record {
  conn = closed-IsKept k s.conn d;
  spent = inl (refl, inl refl);
}

sender_ends-IsQuiet :
    (k : Closing) (s : Loops) → s.conn.cancelled ≡ true → IsQuiet s (sender_ends k s)
sender_ends-IsQuiet k s d = record { conn = closed-IsKept k s.conn d; spent = inl (refl, inr refl) }

-- Any other state of receiveLoop and its channel.
receiver-IsQuiet :
    (k : Closing) (r : Read) (choice : Choice) (at : Receiver) (s : Loops)
    → s.conn.cancelled ≡ true
    → IsQuiet s (receiver_moves k r choice at s)
receiver-IsQuiet k r choice checking s d =
    if-IsQuiet s.conn.cancelled s (receiver_ends k s) (record s { receiver = reading })
      (receiver_ends-IsQuiet k s d)
      (record { conn = IsKept-refl s.conn d; spent = inl (refl, inl refl) })
receiver-IsQuiet k (payload p) choice reading s d = record {
  conn = IsKept-refl s.conn d;
  spent = inl (refl, inl refl);
}
receiver-IsQuiet k read_timeout choice reading s d = record {
  conn = IsKept-refl s.conn d;
  spent = inl (refl, inl refl);
}
receiver-IsQuiet k client_closed choice reading s d = receiver_ends-IsQuiet k s d
receiver-IsQuiet k failed choice reading s d = receiver_ends-IsQuiet k s d
receiver-IsQuiet k r takes_done (holding p) s d =
    if-IsQuiet s.conn.cancelled s (receiver_ends k s) s (receiver_ends-IsQuiet k s d)
      (IsQuiet-refl s d)
receiver-IsQuiet k r takes_send (holding p) s d =
    if-IsQuiet (ltb (length s.receive_chan) s.receive_cap) s
      (record s { receiver = checking; receive_chan = s.receive_chan ++ p ∷ [] }) s
      (record { conn = IsKept-refl s.conn d; spent = inl (refl, inl refl) }) (IsQuiet-refl s d)
receiver-IsQuiet k r choice returned s d = IsQuiet-refl s d

taken-IsQuiet :
    (qs : List Text) (s : Loops) → s.conn.cancelled ≡ true → IsQuiet s (reader_takes qs s)
taken-IsQuiet [] s d = IsQuiet-refl s d
taken-IsQuiet (q ∷ qs) s d = record { conn = IsKept-refl s.conn d; spent = inl (refl, inl refl) }

sender_takes-IsQuiet :
    (qs : List Text) (s : Loops) → s.conn.cancelled ≡ true → IsQuiet s (sender_takes qs s)
sender_takes-IsQuiet [] s d = IsQuiet-refl s d
sender_takes-IsQuiet (q ∷ qs) s d = record {
  conn = record { cancelled = d; effects = inl (refl, refl) };
  spent = inl (refl, inr refl);
}

wrote-IsQuiet :
    (k : Closing) (p : Text) (g : Grant) (o : Outcome) (s : Loops)
    → s.sending ≡ writing p
    → s.conn.cancelled ≡ true
    → IsQuiet s (wrote k p g o s)
wrote-IsQuiet k p g written s at d = record {
  conn = IsKept-refl s.conn d;
  spent = inr (ap (λ a. s.written ++ in_write a) (sym at), refl);
}
wrote-IsQuiet k p pause timed_out s at d = record {
  conn = IsKept-refl s.conn d;
  spent = inl (refl, inr refl);
}
wrote-IsQuiet k p used_up timed_out s at d = sender_ends-IsQuiet k s d
wrote-IsQuiet k p no_strategy timed_out s at d = record {
  conn = closed-IsKept k s.conn d;
  spent = inl (refl, inr refl);
}
wrote-IsQuiet k p g broken s at d = sender_ends-IsQuiet k s d

sender-IsQuiet :
    (k : Closing) (choice : Choice) (o : Outcome) (g : Grant) (at : Sender) (s : Loops)
    → s.sending ≡ at
    → s.conn.cancelled ≡ true
    → IsQuiet s (sender_moves k choice o g at s)
sender-IsQuiet k takes_done o g waiting s h d =
    if-IsQuiet s.conn.cancelled s (sender_ends k s) s (sender_ends-IsQuiet k s d) (IsQuiet-refl s d)
sender-IsQuiet k takes_send o g waiting s h d = sender_takes-IsQuiet s.conn.send_chan s d
sender-IsQuiet k choice o g (trying p) s h d =
    subst (λ b. IsQuiet s (if b then sender_ends k s else record s { sending = writing p })) (sym d)
      (sender_ends-IsQuiet k s d)
sender-IsQuiet k choice o g (writing p) s h d = wrote-IsQuiet k p g o s h d
sender-IsQuiet k takes_done o g (pausing p) s h d =
    if-IsQuiet s.conn.cancelled s (sender_ends k s) s (sender_ends-IsQuiet k s d) (IsQuiet-refl s d)
sender-IsQuiet k takes_send o g (pausing p) s h d = record {
  conn = IsKept-refl s.conn d;
  spent = inl (refl, inr refl);
}
sender-IsQuiet k choice o g stopped s h d = IsQuiet-refl s d
sender-IsQuiet k choice o g panicked s h d = IsQuiet-refl s d

happens-IsQuiet : (e : Event) (s : Loops) → s.conn.cancelled ≡ true → IsQuiet s (happens e s)
unfolding happens
happens-IsQuiet (sends p choice) s d = sent-IsQuiet s p choice (send s.conn p choice) refl d
happens-IsQuiet (closes k) s d = record {
  conn = closed-IsKept k s.conn d;
  spent = inl (refl, inl refl);
}
happens-IsQuiet cancels s d = record {
  conn = record { cancelled = refl; effects = inl (refl, refl) };
  spent = inl (refl, inl refl);
}
happens-IsQuiet (sender choice o g k) s d = sender-IsQuiet k choice o g s.sending s refl d
happens-IsQuiet (receives r choice k) s d = receiver-IsQuiet k r choice s.receiver s d
happens-IsQuiet takes s d = taken-IsQuiet s.receive_chan s d

-- After the context of a connection was cancelled, by Close or by the connection manager, whatever is
-- sent, read, or in the channel: no write gets through any more but that of the payload which sendLoop
-- had in its call of Write, past the check of the context, and this once; and Close sends its one close
-- frame, with the close of the network connection and the end of the session, if nobody had called it.
pub run-IsQuiet : (es : List Event) (s : Loops) → s.conn.cancelled ≡ true → IsQuiet s (run es s)
unfolding run step
run-IsQuiet [] s h = IsQuiet-refl s h
run-IsQuiet (e ∷ es) s h =
    let v =
      if-IsQuiet (is_panicked s.sending) s s (happens e s) (IsQuiet-refl s h)
        (happens-IsQuiet e s h) in
    IsQuiet-trans s (step e s) (run es (step e s)) v (run-IsQuiet es (step e s) v.conn.cancelled)
