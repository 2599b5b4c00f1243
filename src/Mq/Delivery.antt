-- ===== src/Mq/Delivery.antt =====
-- What a consumer hands out, in every order of the steps of its goroutine and its callers.
use synp.Prelude.{
  ◌≡◌, refl, sym, ap, subst, ◌∙◌, inl, inr, Bool, true, false, Option, some, List, [], ◌∷◌, ◌++◌,
  arith, if◌then◌else◌, ltb, length, length-append, Bool-cases,
}
use mathlib.Core.List.{append_assoc, append-nil}
use synp.Fault.{Fault, ok}
use synp.Mq.{
  Message, convert_message, Phase, reading, returned, sending, KafkaConsumer, new_kafka_consumer,
  Reply, got, ended, failed, after_read, read_message, Choice, takes_chan, takes_done, takes_caller,
  enqueued, given_up, sent, send_message, consume, close,
}
use synp.Mq.Steps.{
  System, start, arrived, Step, reads, sends, takes, closes, Reach, here, next, Holds, IsValid,
}

start-IsValid : IsValid start
unfolding new_kafka_consumer
start-IsValid = record { in_hand = []; account = refl; held = refl; fits = omega arith }

module _ (read taken : List Message) where
  abbrev at_consumer : KafkaConsumer → System
  at_consumer c = record { consumer = c; read = read; taken = taken }

  read-IsValid :
      (c : KafkaConsumer) (p : Phase) (r : Reply)
      → c.phase ≡ p
      → IsValid (at_consumer c)
      → IsValid (record {
        consumer = record c { phase = after_read p r };
        read = read ++ arrived p r;
        taken = taken;
      })
  unfolding after_read
  read-IsValid c reading (got msg) e v =
      let empty : v.in_hand ≡ [] = rw e at v.held in
      record {
        in_hand = convert_message msg ∷ [];
        account = rw v.account (rw empty (simp (append_assoc, append-nil)));
        held = refl;
        fits = v.fits;
      }
  read-IsValid c reading ended e v = record {
    in_hand = v.in_hand;
    account = append-nil read ∙ v.account;
    held = inl (rw e at v.held);
    fits = v.fits;
  }
  read-IsValid c reading failed e v = record {
    in_hand = v.in_hand;
    account = append-nil read ∙ v.account;
    held = rw e at v.held;
    fits = v.fits;
  }
  read-IsValid c (sending msg) r e v = record {
    in_hand = v.in_hand;
    account = append-nil read ∙ v.account;
    held = rw e at v.held;
    fits = v.fits;
  }
  read-IsValid c returned r e v = record {
    in_hand = v.in_hand;
    account = append-nil read ∙ v.account;
    held = rw e at v.held;
    fits = v.fits;
  }

  enqueued-IsValid :
      (c : KafkaConsumer) (msg : Message)
      → c.phase ≡ sending msg
      → ltb (length c.message_chan) c.chan_cap ≡ true
      → IsValid (at_consumer c)
      → IsValid (at_consumer (enqueued c msg))
  enqueued-IsValid c msg e room v =
      let one : v.in_hand ≡ msg ∷ [] = rw e at v.held in
      record {
        in_hand = [];
        account = v.account ∙ rw one (simp (append_assoc, append-nil));
        held = refl;
        fits = ground (arith, length-append c.message_chan (msg ∷ []));
      }

  given_up-IsValid :
      (c : KafkaConsumer) (msg : Message)
      → c.phase ≡ sending msg
      → c.cancelled ≡ true
      → IsValid (at_consumer c)
      → IsValid (at_consumer (given_up c))
  given_up-IsValid c msg e done v =
      let one : v.in_hand ≡ msg ∷ [] = rw e at v.held in
      record {
        in_hand = v.in_hand;
        account = v.account;
        held = inr (done, ap length one);
        fits = v.fits;
      }

  if-IsValid :
      (b : Bool) (c d : KafkaConsumer)
      → (b ≡ true → IsValid (at_consumer c))
      → (b ≡ false → IsValid (at_consumer d))
      → IsValid (at_consumer (if b then c else d))
  if-IsValid true c d x y = x refl
  if-IsValid false c d x y = y refl

  sent-IsValid :
      (c : KafkaConsumer) (choice : Choice) (p : Phase)
      → c.phase ≡ p
      → IsValid (at_consumer c)
      → IsValid (at_consumer (sent c choice p))
  sent-IsValid c takes_done (sending msg) e v =
      if-IsValid c.cancelled (given_up c) _ (λ done. given_up-IsValid c msg e done v)
        (λ _.
          if-IsValid (ltb (length c.message_chan) c.chan_cap) (enqueued c msg) c
            (λ room. enqueued-IsValid c msg e room v) (λ _. v))
  sent-IsValid c choice (sending msg) e v =
      if-IsValid (ltb (length c.message_chan) c.chan_cap) (enqueued c msg) _
        (λ room. enqueued-IsValid c msg e room v)
        (λ _.
          if-IsValid c.cancelled (given_up c) c (λ done. given_up-IsValid c msg e done v) (λ _. v))
  sent-IsValid c choice reading e v = v
  sent-IsValid c choice returned e v = v

tail : List Message → List Message
tail [] = []
tail (m ∷ ms) = ms

consume-ok :
    (c c' : KafkaConsumer) (caller : Option Fault) (choice : Choice) (msg : Message)
    → consume c caller choice ≡ some (ok msg, c')
    → (c.message_chan ≡ msg ∷ tail c.message_chan)
      × (c' ≡ record c { message_chan = tail c.message_chan })
unfolding consume tail
consume-ok c c' caller takes_chan msg h = ground arith
consume-ok c c' caller takes_done msg h = ground arith
consume-ok c c' caller takes_caller msg h = ground arith

taken-IsValid :
    (s : System) (msg : Message) (rest : List Message)
    → s.consumer.message_chan ≡ msg ∷ rest
    → IsValid s
    → IsValid (record s {
      consumer = record s.consumer { message_chan = rest };
      taken = s.taken ++ msg ∷ [];
    })
taken-IsValid s msg rest e v = record {
  in_hand = v.in_hand;
  account =
      v.account
      ∙ ap (λ l. s.taken ++ (l ++ v.in_hand)) e
      ∙ sym (append_assoc s.taken (msg ∷ []) (rest ++ v.in_hand));
  held = v.held;
  fits = omega (arith, v.fits, ap (λ (l : List Message). length l) e);
}

Holds-closed : (p : Phase) (c : Bool) (l : List Message) → Holds p c l → Holds p true l
Holds-closed reading c l h = h
Holds-closed (sending msg) c l h = h
Holds-closed returned c l (inl h) = inl h
Holds-closed returned c l (inr h) = inr (refl, h.1)

closed-IsValid :
    (s : System) (e : Option Fault)
    → IsValid s
    → IsValid (record s { consumer = (close s.consumer e).1 })
unfolding close
closed-IsValid s e v = elim (Bool-cases s.consumer.closing) [
  | inl y ↦ simp y v
  | inr n ↦ simp n (record {
    in_hand = v.in_hand;
    account = v.account;
    held = Holds-closed s.consumer.phase s.consumer.cancelled v.in_hand v.held;
    fits = v.fits;
  })
]

Step-IsValid : {s t : System} → Step s t → IsValid s → IsValid t
unfolding read_message send_message
Step-IsValid {s} (reads r e) v =
    subst IsValid (sym e) (read-IsValid s.read s.taken s.consumer s.consumer.phase r refl v)
Step-IsValid {s} (sends choice e) v =
    subst IsValid (sym e) (sent-IsValid s.read s.taken s.consumer choice s.consumer.phase refl v)
Step-IsValid {s} (takes caller choice msg c h e) v =
    let (full, same) = consume-ok s.consumer c caller choice msg h in
    subst IsValid (sym e) (
      subst (λ k. IsValid (record s { consumer = k; taken = s.taken ++ msg ∷ [] })) (sym same)
        (taken-IsValid s msg (tail s.consumer.message_chan) full v))
Step-IsValid {s} (closes x e) v = subst IsValid (sym e) (closed-IsValid s x v)

-- In every state that a new consumer can come to: the messages read are those handed out, those in the
-- channel and the one that the goroutine holds, in this order, so that none is lost, doubled or
-- overtaken before the end; at the end at most one is given up, and only if the consumer was closed.
-- The channel is never fuller than its capacity.
pub Reach-IsValid : {s : System} → Reach s → IsValid s
Reach-IsValid here = start-IsValid
Reach-IsValid (next r st) = Step-IsValid st (Reach-IsValid r)

-- A consumer that was not closed, and whose channel is closed and empty, has handed out every message
-- that was read, in the order of reading.
pub delivered_all :
    (s : System)
    → Reach s
    → s.consumer.phase ≡ returned
    → s.consumer.cancelled ≡ false
    → s.consumer.message_chan ≡ []
    → s.taken ≡ s.read
delivered_all s r e n c =
    let v = Reach-IsValid r in
    sym (
      v.account
      ∙ ap (λ l. s.taken ++ (l ++ v.in_hand)) c
      ∙ ap (λ l. s.taken ++ l) (nothing v.in_hand (rw (e, n) at v.held))
      ∙ append-nil s.taken)
  where
    nothing : (l : List Message) → Holds returned false l → l ≡ []
    nothing l (inl h) = h
    nothing l (inr h) = cc (h.0)
