-- ===== src/Gateway.antt =====
-- internal/ws/gateway/consumer.go: a consumer of events for each partition of a topic, and the loop
-- that hands its messages to a function.
pub mod Started
pub mod Consumed
pub mod Pushing
mod PushExamples
use synp.Prelude.{ℕ, zero, suc, ◌+◌, Bool, true, false, Option, none, some, List, [], ◌∷◌}
use synp.Prelude.Int.{ℤ, pos_part}
use synp.Prelude.Text.{Text}
use synp.Fault.{Fault, Result, ok, err}
use synp.Wrapper.{Action}
use synp.Mq.{KafkaConsumer, Message, new_kafka_consumer, consume_chan}

-- The fields of Consumer; `cancelled` is the state of its context. A partition is an int32.
pub record Consumer : Type 0 where
  pub topic : Text
  pub group_id : Text
  pub partitions : ℤ
  pub cancelled : Bool

unfoldable pub new_consumer : Text → Text → ℤ → Consumer
new_consumer topic group_id partitions = record {
  topic = topic;
  group_id = group_id;
  partitions = partitions;
  cancelled = false;
}

unfoldable pub stop : Consumer → Consumer
stop c = record c { cancelled = true }

-- What Start has done: the consumers that it made, the goroutines that it started, and its error.
pub record Progress : Type 0 where
  pub made : ℕ
  pub running : ℕ
  pub error : Option Fault

abbrev pub stopped : ℕ → Fault → Progress
stopped made e = record { made = made; running = 0; error = some e }

abbrev pub one_more : Progress → Progress
one_more p = record { made = suc p.made; running = suc p.running; error = p.error }

-- After ConsumeChan; the rest is the loop for the other partitions.
abbrev pub opened : Progress → Option Fault → Progress
opened rest none = one_more rest
opened rest (some e) = stopped 1 e

abbrev pub created : Progress → Option Fault → Result KafkaConsumer → Progress
created rest caller (err e) = stopped 0 e
created rest caller (ok c) = opened rest (consume_chan c caller)

-- The loop over `n` partitions from the number `i` on. `new_consumer` is what the factory's calls
-- return, and `caller` the error of the context.
unfoldable pub start_from : (ℕ → Result KafkaConsumer) → Option Fault → ℕ → ℕ → Progress
unfolding consume_chan
start_from new_consumer caller i zero = record { made = 0; running = 0; error = none }
start_from new_consumer caller i (suc n) =
    created (start_from new_consumer caller (suc i) n) caller (new_consumer i)

-- Start: `range` makes no round for a negative number.
unfoldable pub start : (ℕ → Result KafkaConsumer) → Option Fault → ℤ → Progress
unfolding start_from
start new_consumer caller partitions = start_from new_consumer caller 0 (pos_part partitions)

-- NewKafkaConsumer, once readerCreateFunc was called: `none` says that it panicked, as kafka.NewReader
-- does where the configuration of the reader is not valid.
abbrev pub consumer_on {ℓ} : {R : Type ℓ} → Option R → Option (Result KafkaConsumer)
consumer_on none = none
consumer_on (some reader) = some (ok new_kafka_consumer)

-- KafkaConsumerFactory.NewConsumer, with the factory's readerCreateFunc. No branch returns an error; the
-- panic of readerCreateFunc is one of NewConsumer.
unfoldable pub kafka_factory {ℓ} :
    {R : Type ℓ} → (Text → Text → Option R) → Text → Text → Option (Result KafkaConsumer)
kafka_factory reader_create_func topic group_id = consumer_on (reader_create_func topic group_id)

-- What the select of consume takes: one of the two contexts, the closed channel, or a message.
pub data Arrival : Type 0 where
  own_done caller_done closed : Arrival
  message : Message → Arrival

module _ {S : Type 0} where
  -- consume, over the arrivals that are given: an error of the function is only logged. The flag says
  -- whether the loop has returned.
  unfoldable pub consume : (Message → Action S) → List Arrival → S → S × Bool
  consume f [] s = (s, false)
  consume f (message msg ∷ rest) s = consume f rest (f msg s).1
  consume f (own_done ∷ rest) s = (s, true)
  consume f (caller_done ∷ rest) s = (s, true)
  consume f (closed ∷ rest) s = (s, true)
