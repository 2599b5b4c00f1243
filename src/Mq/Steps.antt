-- ===== src/Mq/Steps.antt =====
-- The steps of a consumer's goroutine and of its callers, and the states that they lead to.
use synp.Prelude.{◌≤◌, ◌≡◌, ◌⊎◌, Bool, true, Option, some, List, [], ◌∷◌, ◌++◌, length}
use synp.Fault.{Fault, ok}
use synp.Mq.{
  Message, convert_message, Phase, reading, returned, sending, KafkaConsumer, new_kafka_consumer,
  Reply, got, ended, failed, read_message, Choice, send_message, consume, close,
}

-- The consumer, with the messages that its reader has returned and those that it has handed out.
pub record System : Type 0 where
  pub consumer : KafkaConsumer
  pub read : List Message
  pub taken : List Message

abbrev pub start : System
start = record { consumer = new_kafka_consumer; read = []; taken = [] }

-- What a reply adds to the messages read.
abbrev pub arrived : Phase → Reply → List Message
arrived reading (got msg) = convert_message msg ∷ []
arrived reading ended = []
arrived reading failed = []
arrived (sending msg) r = []
arrived returned r = []

-- A step of the goroutine, of a caller that receives, or of Close.
pub data Step (s t : System) : Type 0 where
  reads :
      (r : Reply)
      → t ≡ record s {
        consumer = read_message s.consumer r;
        read = s.read ++ arrived s.consumer.phase r;
      }
      → Step s t
  sends : (choice : Choice) → t ≡ record s { consumer = send_message s.consumer choice } → Step s t
  takes :
      (caller : Option Fault) (choice : Choice) (msg : Message) (c : KafkaConsumer)
      → consume s.consumer caller choice ≡ some (ok msg, c)
      → t ≡ record s { consumer = c; taken = s.taken ++ msg ∷ [] }
      → Step s t
  closes : (e : Option Fault) → t ≡ record s { consumer = (close s.consumer e).1 } → Step s t

pub data Reach : System → Type 0 where
  here : Reach start
  next : {s t : System} → Reach s → Step s t → Reach t

-- What the goroutine holds: the message that it wants to send, and, once it has returned, at most
-- one that it gave up, which happens only where the consumer was closed.
abbrev pub Holds : Phase → Bool → List Message → Type 0
Holds reading c l = l ≡ []
Holds (sending msg) c l = l ≡ msg ∷ []
Holds returned c l = (l ≡ []) ⊎ ((c ≡ true) × (length l ≡ 1))

pub record IsValid (s : System) : Type 0 where
  pub in_hand : List Message
  pub account : s.read ≡ s.taken ++ (s.consumer.message_chan ++ in_hand)
  pub held : Holds s.consumer.phase s.consumer.cancelled in_hand
  pub fits : length s.consumer.message_chan ≤ s.consumer.chan_cap
