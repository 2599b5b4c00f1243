-- ===== src/Mq/Examples.antt =====
-- Two messages that come from Kafka, the first with a header twice.
use synp.Prelude.{◌≡◌, refl, false, none, [], ◌∷◌}
use synp.Prelude.Int.{pos}
use synp.Prelude.Text.{codes}
use synp.Mq.{
  KafkaMessage, convert_message, returned, got, ended, takes_chan, consume, read_message,
  send_message, new_kafka_consumer, after_read,
}
use synp.Mq.Steps.{System, reads, sends, takes, Reach, here, next, IsValid}
use synp.Mq.Delivery.{Reach-IsValid, delivered_all}

abbrev hello : KafkaMessage
hello = record {
  headers = (codes "trace", codes "1") ∷ (codes "trace", codes "2") ∷ [];
  topic = codes "push";
  partition = pos 0;
  offset = pos 5;
  key = codes "m1";
  value = codes "hi";
}

-- The reader has returned the message, and then EOF; the channel took it, and a caller has it.
abbrev drained : System
drained = record {
  consumer = record {
    phase = returned;
    message_chan = [];
    chan_cap = 1024;
    cancelled = false;
    closing = false;
  };
  read = convert_message hello ∷ [];
  taken = convert_message hello ∷ [];
}

drained-Reach : Reach drained
unfolding new_kafka_consumer read_message send_message consume after_read
drained-Reach =
    next
      (next (next (next here (reads (got hello) refl)) (sends takes_chan refl))
        (takes none takes_chan (convert_message hello) _ refl refl))
      (reads ended refl)

Reach-IsValid_example : IsValid drained
Reach-IsValid_example = Reach-IsValid drained-Reach

delivered_all_example : drained.taken ≡ drained.read
delivered_all_example = delivered_all drained drained-Reach refl refl refl
