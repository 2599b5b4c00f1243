-- ===== src/Mq/Headers.antt =====
-- The headers of a message.
use synp.Prelude.{◌≡◌, refl, ap, ◌∙◌, Option, none, some, List, [], ◌∷◌, if◌then◌else◌}
use synp.Prelude.Text.{Text, text_eq}
use synp.Prelude.Dict.{Dict, lookup, insert, lookup-insert, lookup-nil}
use synp.Mq.{KafkaMessage, add_headers, convert_message}

-- The value of the last header with the key, or another one.
abbrev pub last_value : Text → List (Text × Text) → Option Text → Option Text
last_value k [] o = o
last_value k ((key, value) ∷ rest) o = last_value k rest (if text_eq key k then some value else o)

lookup-add_headers :
    (k : Text) (headers : List (Text × Text)) (m : Dict Text)
    → lookup k (add_headers headers m) ≡ last_value k headers (lookup k m)
lookup-add_headers k [] m = refl
lookup-add_headers k ((key, value) ∷ rest) m =
    lookup-add_headers k rest (insert key value m)
    ∙ ap (last_value k rest) (lookup-insert key k value m)

-- A converted message has for each key the value of the last header with that key, and no other
-- keys; topic, partition, offset, key and value are those of the Kafka message.
pub convert_message_lem :
    (msg : KafkaMessage)
    → let c = convert_message msg in
      ((k : Text) → lookup k c.headers ≡ last_value k msg.headers none)
      × (c.topic ≡ msg.topic)
      × (c.partition ≡ msg.partition)
      × (c.offset ≡ msg.offset)
      × (c.key ≡ msg.key)
      × (c.val ≡ msg.value)
unfolding convert_message
convert_message_lem msg = (
  (λ k. lookup-add_headers k msg.headers [] ∙ ap (last_value k msg.headers) (lookup-nil Text k)),
  refl,
  refl,
  refl,
  refl,
  refl,
)
