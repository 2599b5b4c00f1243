-- ===== src/Mq.antt =====
-- internal/pkg/xmq: messages of the queue, the producer, and the consumer with the goroutine that
-- reads from Kafka into a channel.
pub mod Headers
pub mod Steps
pub mod Delivery
mod Examples
use synp.Prelude.{
  ℕ, Bool, true, false, Option, none, some, List, [], ◌∷◌, ◌++◌, if◌then◌else◌, ltb, length,
}
use mathlib.Core.List.{foldl}
use synp.Prelude.Int.{ℤ}
use synp.Prelude.Text.{Text, codes}
use synp.Prelude.Dict.{Dict, insert}
use synp.Fault.{Fault, Result, ok, err, sentinel, foreign, consumer_closed}
use synp.Handlers.{XmqMessage}

-- kafka.Message, as the program reads and writes it
pub record KafkaMessage : Type 0 where
  pub headers : List (Text × Text)
  pub topic : Text
  pub partition : ℤ
  pub offset : ℤ
  pub key : Text
  pub value : Text

pub record Message : Type 0 where
  pub headers : Dict Text
  pub topic : Text
  pub partition : ℤ
  pub offset : ℤ
  pub key : Text
  pub val : Text

-- What kafka.Message{Topic, Key, Value} holds; the other fields are zero.
abbrev pub written : XmqMessage → KafkaMessage
written msg = record {
  headers = [];
  topic = msg.topic;
  partition = ℤ.pos 0;
  offset = ℤ.pos 0;
  key = msg.key;
  value = msg.val;
}

-- KafkaProducer.Produce, with what Writer.WriteMessages answers
unfoldable pub produce : (KafkaMessage → Option Fault) → XmqMessage → Option Fault
produce write msg = write (written msg)

-- The loop over the headers: each is a write to the map.
abbrev pub add_headers : List (Text × Text) → Dict Text → Dict Text
add_headers [] m = m
add_headers ((key, value) ∷ rest) m = add_headers rest (insert key value m)

unfoldable pub convert_message : KafkaMessage → Message
convert_message msg = record {
  headers = add_headers msg.headers [];
  topic = msg.topic;
  partition = msg.partition;
  offset = msg.offset;
  key = msg.key;
  val = msg.value;
}

-- Where the goroutine readMessage stands: in ReadMessage, at the select with a message, or returned,
-- by which the channel is closed.
pub data Phase : Type 0 where
  reading returned : Phase
  sending : Message → Phase

-- The channel is its elements and its capacity; `cancelled` is the context, `closing` closeOnce.
pub record KafkaConsumer : Type 0 where
  pub phase : Phase
  pub message_chan : List Message
  pub chan_cap : ℕ
  pub cancelled : Bool
  pub closing : Bool

-- NewKafkaConsumer, with defaultMessageChanSize
unfoldable pub new_kafka_consumer : KafkaConsumer
new_kafka_consumer = record {
  phase = reading;
  message_chan = [];
  chan_cap = 1024;
  cancelled = false;
  closing = false;
}

-- What Reader.ReadMessage returns: a message, an error that ends the loop (ErrClosedPipe, EOF,
-- Canceled), or another one.
pub data Reply : Type 0 where
  got : KafkaMessage → Reply
  ended failed : Reply

unfoldable pub after_read : Phase → Reply → Phase
unfolding convert_message
after_read reading (got msg) = sending (convert_message msg)
after_read reading ended = returned
after_read reading failed = reading
after_read (sending msg) r = sending msg
after_read returned r = returned

unfoldable pub read_message : KafkaConsumer → Reply → KafkaConsumer
unfolding after_read
read_message c r = record c { phase = after_read c.phase r }

-- The branch that a select takes where several are ready.
pub data Choice : Type 0 where
  takes_chan takes_done takes_caller : Choice

abbrev pub enqueued : KafkaConsumer → Message → KafkaConsumer
enqueued c msg = record c { phase = reading; message_chan = c.message_chan ++ msg ∷ [] }

abbrev pub given_up : KafkaConsumer → KafkaConsumer
given_up c = record c { phase = returned }

-- The select of readMessage, which waits where neither is ready
abbrev pub sent : KafkaConsumer → Choice → Phase → KafkaConsumer
sent c takes_done (sending msg) =
    if c.cancelled
    then given_up c
    else if ltb (length c.message_chan) c.chan_cap
    then enqueued c msg
    else c
sent c choice (sending msg) =
    if ltb (length c.message_chan) c.chan_cap
    then enqueued c msg
    else if c.cancelled
    then given_up c
    else c
sent c choice reading = c
sent c choice returned = c

unfoldable pub send_message : KafkaConsumer → Choice → KafkaConsumer
send_message c choice = sent c choice c.phase

-- c.ctx.Err() and ctx.Err(): context.Canceled
abbrev pub canceled : Fault
canceled = foreign (codes "context canceled")

-- The branch of Consume that receives from the channel; `none` means that it is not ready.
abbrev pub received : KafkaConsumer → List Message → Phase → Option (Result Message × KafkaConsumer)
received c (msg ∷ rest) phase = some (ok msg, record c { message_chan = rest })
received c [] returned = some (err (sentinel consumer_closed), c)
received c [] phase = none

abbrev pub or_else : {A : Type 0} → Option A → Option A → Option A
or_else (some a) b = some a
or_else none b = b

abbrev pub own_done : KafkaConsumer → Option (Result Message × KafkaConsumer)
own_done c = if c.cancelled then some (err canceled, c) else none

abbrev pub caller_done : KafkaConsumer → Option Fault → Option (Result Message × KafkaConsumer)
caller_done c none = none
caller_done c (some e) = some (err e, c)

-- Consume, with what its context's Err gives; `none` means that it waits.
unfoldable pub consume :
    KafkaConsumer → Option Fault → Choice → Option (Result Message × KafkaConsumer)
consume c caller takes_chan =
    or_else (received c c.message_chan c.phase) (or_else (own_done c) (caller_done c caller))
consume c caller takes_done =
    or_else (own_done c) (or_else (caller_done c caller) (received c c.message_chan c.phase))
consume c caller takes_caller =
    or_else (caller_done c caller) (or_else (own_done c) (received c c.message_chan c.phase))

-- ConsumeChan: an error, or the channel
unfoldable pub consume_chan : KafkaConsumer → Option Fault → Option Fault
consume_chan c caller = if c.cancelled then some (sentinel consumer_closed) else caller

-- Close, with what Reader.Close returns
unfoldable pub close : KafkaConsumer → Option Fault → Option Fault × KafkaConsumer
close c e = if c.closing then (none, c) else (e, record c { cancelled = true; closing = true })
