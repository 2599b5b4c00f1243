-- ===== src/Conn/Loops/Ordered.antt =====
-- The order of what a connection sends and receives.
use synp.Prelude.{
  ◌≤◌, ◌≡◌, refl, sym, ap, ◌∙◌, ◌⊎◌, inl, inr, Bool, true, false, Option, none, some, List, [], ◌∷◌,
  ◌++◌, ◌==◌, if◌then◌else◌, ltb, length, length-append, arith, Bool-cases, subst,
}
use mathlib.Core.List.{append_assoc, append-nil}
use synp.Prelude.Text.{Text}
use synp.Fault.{Fault}
use synp.Conn.Closing.{Runtime, Choice, takes_done, takes_send, send, close}
use synp.Conn.Loops.{
  Read, payload, read_timeout, client_closed, failed, Receiver, checking, reading, holding,
  returned, Loops, Closing, closed_by, added, after_send, receiver_ends, after_read, handing,
  receiver_moves, reader_takes, Sender, waiting, stopped, panicked, trying, writing, pausing,
}

-- What receiveLoop has read and not handed over.
abbrev pub IsHeld : Receiver → List Text → Type 0
IsHeld checking ps = ps ≡ []
IsHeld reading ps = ps ≡ []
IsHeld (holding p) ps = ps ≡ p ∷ []
IsHeld returned ps = length ps ≤ 1

-- What sendLoop has taken out of the channel and not written.
abbrev pub IsCurrent : Sender → List Text → Type 0
IsCurrent waiting ps = ps ≡ []
IsCurrent (trying p) ps = ps ≡ p ∷ []
IsCurrent (writing p) ps = ps ≡ p ∷ []
IsCurrent (pausing p) ps = ps ≡ p ∷ []
IsCurrent stopped ps = length ps ≤ 1
IsCurrent panicked ps = length ps ≤ 1

-- What was put into the channel of Send is what was written, a payload that sendLoop holds, or
-- dropped at its end, and what is in the channel; and what was read from the client is what the reader of
-- Receive took, what is in that channel, and a payload that receiveLoop holds or dropped at its end.
pub record IsOrdered (s : Loops) : Type 0 where
  pub current : List Text
  pub sent : s.queued ≡ s.written ++ (current ++ s.conn.send_chan)
  pub kept : IsCurrent s.sending current
  pub rest : List Text
  pub received : s.read ≡ s.taken ++ (s.receive_chan ++ rest)
  pub held : IsHeld s.receiver rest
  pub bounded : length s.receive_chan ≤ s.receive_cap

pub closed-chan : (k : Closing) (c : Runtime) → (closed_by k c).send_chan ≡ c.send_chan
unfolding close
closed-chan k c = ground arith

send-cases :
    (c c' : Runtime) (p : Text) (choice : Choice) (e : Option Fault)
    → send c p choice ≡ some (e, c')
    → (c'.send_chan ≡ c.send_chan) ⊎ (c'.send_chan ≡ c.send_chan ++ p ∷ [])
unfolding send
send-cases c c' p takes_done e h = elim (Bool-cases c.cancelled) [
  | inl y ↦ inl (ground (arith, h, y))
  | inr n ↦ inr (ground (arith, h, n))
]
send-cases c c' p takes_send e h = elim (Bool-cases (ltb (length c.send_chan) c.send_cap)) [
  | inl y ↦ inr (ground (arith, h, y))
  | inr n ↦ inl (ground (arith, h, n))
]

sent-chan :
    (c c' : Runtime) (p : Text) (choice : Choice) (e : Option Fault)
    → send c p choice ≡ some (e, c')
    → c'.send_chan ≡ c.send_chan ++ added c c' p
sent-chan c c' p choice e h = elim (send-cases c c' p choice e h) [
  | inl same ↦
      let again : (length c'.send_chan == length c.send_chan) ≡ true =
        ground (arith, ap (λ l. length l) same) in
      same
      ∙ sym (append-nil c.send_chan)
      ∙ ap (λ b. c.send_chan ++ (if b then [] else p ∷ [])) (sym again)
  | inr more ↦
      let longer : (length c'.send_chan == length c.send_chan) ≡ false =
        ground (arith, ap (λ l. length l) more, length-append c.send_chan (p ∷ [])) in
      more ∙ ap (λ b. c.send_chan ++ (if b then [] else p ∷ [])) (sym longer)
]

pub closed-IsOrdered :
    (k : Closing) (s : Loops) → IsOrdered s → IsOrdered (record s { conn = closed_by k s.conn })
closed-IsOrdered k s v = record {
  current = v.current;
  sent = v.sent ∙ ap (λ l. s.written ++ (v.current ++ l)) (sym (closed-chan k s.conn));
  kept = v.kept;
  rest = v.rest;
  received = v.received;
  held = v.held;
  bounded = v.bounded;
}

pub sent-IsOrdered :
    (s : Loops) (p : Text) (choice : Choice) (o : Option (Option Fault × Runtime))
    → send s.conn p choice ≡ o
    → IsOrdered s
    → IsOrdered (after_send s p o)
sent-IsOrdered s p choice none h v = v
sent-IsOrdered s p choice (some (e, c)) h v = record {
  current = v.current;
  sent =
      ap (λ l. l ++ added s.conn c p) v.sent
      ∙ append_assoc s.written (v.current ++ s.conn.send_chan) (added s.conn c p)
      ∙ ap (λ l. s.written ++ l) (append_assoc v.current s.conn.send_chan (added s.conn c p))
      ∙ ap (λ l. s.written ++ (v.current ++ l)) (sym (sent-chan s.conn c p choice e h));
  kept = v.kept;
  rest = v.rest;
  received = v.received;
  held = v.held;
  bounded = v.bounded;
}

held-short : (r : Receiver) (ps : List Text) → IsHeld r ps → length ps ≤ 1
held-short checking ps h = rw h (omega arith)
held-short reading ps h = rw h (omega arith)
held-short (holding p) ps h = rw h (omega arith)
held-short returned ps h = h

receiver_ends-IsOrdered : (k : Closing) (s : Loops) → IsOrdered s → IsOrdered (receiver_ends k s)
receiver_ends-IsOrdered k s v =
    let w = closed-IsOrdered k s v in
    record {
      current = w.current;
      sent = w.sent;
      kept = w.kept;
      rest = w.rest;
      received = w.received;
      held = held-short s.receiver w.rest w.held;
      bounded = w.bounded;
    }

pub if-IsOrdered :
    (b : Bool) (s t : Loops) → IsOrdered s → IsOrdered t → IsOrdered (if b then s else t)
if-IsOrdered true s t v w = v
if-IsOrdered false s t v w = w

read-IsOrdered :
    (k : Closing) (s : Loops) (r : Read)
    → s.receiver ≡ reading
    → IsOrdered s
    → IsOrdered (after_read k s r)
read-IsOrdered k s (payload p) h v = record {
  current = v.current;
  sent = v.sent;
  kept = v.kept;
  rest = p ∷ [];
  received =
      ap (λ l. l ++ p ∷ []) (v.received ∙ ap (λ l. s.taken ++ (s.receive_chan ++ l)) none_held)
      ∙ ap (λ l. (s.taken ++ l) ++ p ∷ []) (append-nil s.receive_chan)
      ∙ append_assoc s.taken s.receive_chan (p ∷ []);
  held = refl;
  bounded = v.bounded;
}
  where
    none_held : v.rest ≡ []
    none_held = subst (λ r. IsHeld r v.rest) h v.held
read-IsOrdered k s read_timeout h v = record {
  current = v.current;
  sent = v.sent;
  kept = v.kept;
  rest = v.rest;
  received = v.received;
  held = subst (λ r. IsHeld r v.rest) h v.held;
  bounded = v.bounded;
}
read-IsOrdered k s client_closed h v = receiver_ends-IsOrdered k s v
read-IsOrdered k s failed h v = receiver_ends-IsOrdered k s v

handing-IsOrdered :
    (k : Closing) (choice : Choice) (p : Text) (s : Loops)
    → s.receiver ≡ holding p
    → IsOrdered s
    → IsOrdered (handing k choice p s)
handing-IsOrdered k takes_done p s h v =
    if-IsOrdered s.conn.cancelled (receiver_ends k s) s (receiver_ends-IsOrdered k s v) v
handing-IsOrdered k takes_send p s h v =
    elim (Bool-cases (ltb (length s.receive_chan) s.receive_cap)) [
      | inl y ↦ subst IsOrdered (sym (ap (λ b. if b then handed else s) y)) (record {
        current = v.current;
        sent = v.sent;
        kept = v.kept;
        rest = [];
        received =
            v.received
            ∙ ap (λ l. s.taken ++ (s.receive_chan ++ l)) (subst (λ r. IsHeld r v.rest) h v.held)
            ∙ ap (λ l. s.taken ++ l) (sym (append-nil (s.receive_chan ++ p ∷ [])));
        held = refl;
        bounded = ground (arith, y, length-append s.receive_chan (p ∷ []));
      })
      | inr n ↦ subst IsOrdered (sym (ap (λ b. if b then handed else s) n)) v
    ]
  where
    handed : Loops
    handed = record s { receiver = checking; receive_chan = s.receive_chan ++ p ∷ [] }

pub receiver-IsOrdered :
    (k : Closing) (r : Read) (choice : Choice) (at : Receiver) (s : Loops)
    → s.receiver ≡ at
    → IsOrdered s
    → IsOrdered (receiver_moves k r choice at s)
receiver-IsOrdered k r choice checking s h v =
    if-IsOrdered s.conn.cancelled (receiver_ends k s) (record s { receiver = reading })
      (receiver_ends-IsOrdered k s v)
      (record {
        current = v.current;
        sent = v.sent;
        kept = v.kept;
        rest = v.rest;
        received = v.received;
        held = subst (λ r. IsHeld r v.rest) h v.held;
        bounded = v.bounded;
      })
receiver-IsOrdered k r choice reading s h v = read-IsOrdered k s r h v
receiver-IsOrdered k r choice (holding p) s h v = handing-IsOrdered k choice p s h v
receiver-IsOrdered k r choice returned s h v = v

pub taken-IsOrdered :
    (ps : List Text) (s : Loops) → s.receive_chan ≡ ps → IsOrdered s → IsOrdered (reader_takes ps s)
taken-IsOrdered [] s h v = v
taken-IsOrdered (p ∷ ps) s h v = record {
  current = v.current;
  sent = v.sent;
  kept = v.kept;
  rest = v.rest;
  received =
      v.received
      ∙ ap (λ l. s.taken ++ (l ++ v.rest)) h
      ∙ sym (append_assoc s.taken (p ∷ []) (ps ++ v.rest));
  held = v.held;
  bounded = omega (arith, v.bounded, ap (λ l. length l) h);
}
