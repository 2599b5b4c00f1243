-- ===== src/Server/Starting.antt =====
-- When Start succeeds, and what it leaves running when it fails.
use synp.Prelude.{
  ℕ, zero, suc, ◌≡◌, refl, sym, ap, ◌∙◌, ◌↔◌, inl, inr, true, false, Option, none, some, List, [],
  ◌∷◌, ◌++◌, ◌+◌, ◌<◌, arith, All, Bool-cases, map, subst,
}
use mathlib.Core.Option.{some-injective}
use synp.Prelude.Int.{ℤ, pos_part}
use synp.Prelude.Text.{Text, codes, text_eq}
use synp.Prelude.Dict.{lookup}
use synp.Fault.{Fault, Result, ok}
use synp.Mq.{KafkaConsumer, consume_chan, new_kafka_consumer}
use synp.Gateway
use synp.Gateway.{Consumer, new_consumer, consumer_on, kafka_factory, start_from}
use synp.Gateway.Started.{start-IsCounted}
use synp.Server.Running.{
  Server, Consuming, is_event, consumer_started, joined, start_consumers, ctx_err, start,
  new_kafka_consumers, push_message_consumer,
}

module _ (factory : Text → ℕ → Result KafkaConsumer) (ctx : Option Fault)
    (table : List (Text × Consumer)) where
  -- The key needs no consumer, or has one of which every partition is read.
  pub data IsReady (key : Text) : Type 0 where
    unknown : is_event key ≡ false → IsReady key
    missing : lookup key table ≡ none → IsReady key
    running :
        (c : Consumer)
        → lookup key table ≡ some c
        → (Gateway.start (factory key) ctx c.partitions).running ≡ pos_part c.partitions
        → IsReady key

  joined_iff :
      (rest : Consuming) (key : Text) (p : Gateway.Progress) (e : Option Fault)
      → ((joined rest key p e).error ≡ none) ↔ ((e ≡ none) × (rest.error ≡ none))
  joined_iff rest key p none = ((λ h. (refl, h)), (λ h. h.1))
  joined_iff rest key p (some e) = ((λ h. cc), (λ h. cc (h.0)))

  started_iff :
      (rest : Consuming) (key : Text) (o : Option Consumer)
      → is_event key ≡ true
      → lookup key table ≡ o
      → ((consumer_started factory ctx rest key o).error ≡ none)
        ↔ (IsReady key × (rest.error ≡ none))
  started_iff rest key none y l = ((λ h. (missing l, h)), (λ h. h.1))
  started_iff rest key (some c) y l =
      let p = Gateway.start (factory key) ctx c.partitions in
      let counted = start-IsCounted (factory key) ctx c.partitions in
      (
        (λ h.
            let (e, r) = (joined_iff rest key p p.error).0 h in
            (running c l (counted.complete.0 e), r)),
        (λ h. (joined_iff rest key p p.error).1 (counted.complete.1 (all_running h.0), h.1)),
      )
    where
      all_running :
          IsReady key
          → (Gateway.start (factory key) ctx c.partitions).running ≡ pos_part c.partitions
      all_running (unknown n) = cc (y, n)
      all_running (missing n) = cc (l, n)
      all_running (running d m r) =
          subst
            (λ x. (Gateway.start (factory key) ctx x.partitions).running ≡ pos_part x.partitions)
            (some-injective d c (sym m ∙ l)) r

  start_consumers_iff :
      (keys : List Text)
      → ((start_consumers factory ctx table keys).error ≡ none) ↔ All IsReady keys
  unfolding start_consumers
  start_consumers_iff [] = ((λ h. tt), (λ h. refl))
  start_consumers_iff (key ∷ keys) = elim (Bool-cases (is_event key)) [
    | inl y ↦
        let ih = start_consumers_iff keys in
        let one =
          started_iff (start_consumers factory ctx table keys) key (lookup key table) y refl in
        rw y ((λ h. let (r, e) = one.0 h in (r, ih.0 e)), (λ h. one.1 (h.0, ih.1 h.1)))
    | inr n ↦
        let ih = start_consumers_iff keys in rw n ((λ h. (unknown n, ih.0 h)), (λ h. ih.1 h.1))
  ]

  -- The key at which the loop stopped: its consumer failed, and those before it run.
  pub record IsStuck (keys : List Text) (e : Fault) : Type 0 where
    pub before : List Text
    pub key : Text
    pub after : List Text
    pub consumer : Consumer
    pub split : keys ≡ before ++ key ∷ after
    pub ready : All IsReady before
    pub found : lookup key table ≡ some consumer
    pub failed : (Gateway.start (factory key) ctx consumer.partitions).error ≡ some e

  further :
      (key : Text) (keys : List Text) (e : Fault)
      → IsReady key
      → IsStuck keys e
      → IsStuck (key ∷ keys) e
  further key keys e r k = record {
    before = key ∷ k.before;
    key = k.key;
    after = k.after;
    consumer = k.consumer;
    split = ap (λ ks. key ∷ ks) k.split;
    ready = (r, k.ready);
    found = k.found;
    failed = k.failed;
  }

  consumer_started-IsStuck :
      (keys : List Text) (rest : Consuming) (key : Text) (e : Fault) (o : Option Consumer)
      → (rest.error ≡ some e → IsStuck keys e)
      → lookup key table ≡ o
      → (consumer_started factory ctx rest key o).error ≡ some e
      → IsStuck (key ∷ keys) e
  consumer_started-IsStuck keys rest key e none ih l h = further key keys e (missing l) (ih h)
  consumer_started-IsStuck keys rest key e (some c) ih l h =
      go (Gateway.start (factory key) ctx c.partitions).error refl h
    where
      go :
          (o : Option Fault)
          → (Gateway.start (factory key) ctx c.partitions).error ≡ o
          → (joined rest key (Gateway.start (factory key) ctx c.partitions) o).error ≡ some e
          → IsStuck (key ∷ keys) e
      go none f h =
          further key keys e
            (running c l ((start-IsCounted (factory key) ctx c.partitions).complete.0 f)) (ih h)
      go (some x) f h = record {
        before = [];
        key = key;
        after = keys;
        consumer = c;
        split = refl;
        ready = tt;
        found = l;
        failed = f ∙ h;
      }

  start_consumers-IsStuck :
      (keys : List Text) (e : Fault)
      → (start_consumers factory ctx table keys).error ≡ some e
      → IsStuck keys e
  unfolding start_consumers
  start_consumers-IsStuck [] e h = cc
  start_consumers-IsStuck (key ∷ keys) e h = elim (Bool-cases (is_event key)) [
    | inl y ↦
        consumer_started-IsStuck keys (start_consumers factory ctx table keys) key e
          (lookup key table) (λ f. start_consumers-IsStuck keys e f) refl (rw y at h)
    | inr n ↦ further key keys e (unknown n) (start_consumers-IsStuck keys e (rw n at h))
  ]

module _ (factory : Text → ℕ → Result KafkaConsumer) where
  -- Start returns no error exactly when it can listen and, for every key of an event that has a
  -- consumer, a goroutine reads each of its partitions.
  pub start_iff :
      (keys : List Text) (listen : Option Fault) (s : Server)
      → ((start factory keys listen s).0.error ≡ none)
        ↔ ((listen ≡ none) × All (IsReady factory (ctx_err s) s.consumers) keys)
  unfolding start
  start_iff keys none s =
      let it = start_consumers_iff factory (ctx_err s) s.consumers keys in
      ((λ h. (refl, it.0 h)), (λ h. it.1 h.1))
  start_iff keys (some e) s = ((λ h. cc), (λ h. cc (h.0)))

  -- If Start returns an error after it could listen, the consumer of some key failed, those of the keys
  -- before it are read; and the server goes on to listen and to accept.
  pub start-IsStuck :
      (keys : List Text) (s : Server) (e : Fault)
      → (start factory keys none s).0.error ≡ some e
      → IsStuck factory (ctx_err s) s.consumers keys e
        × ((start factory keys none s).1.listening ≡ true)
        × ((start factory keys none s).1.accepting ≡ suc s.accepting)
  unfolding start
  start-IsStuck keys s e h =
      (start_consumers-IsStuck factory (ctx_err s) s.consumers keys e h, refl, refl)

-- A factory whose calls return what those of kafka_factory do.
factory_start {ℓ} :
    {R : Type ℓ}
    → (create : Text → Text → Option R) (topic group_id : Text) (answers : ℕ → Result KafkaConsumer)
      (i n : ℕ)
    → ((j : ℕ) → j < i + n → kafka_factory create topic group_id ≡ some (answers j))
    → start_from answers none i n ≡ record { made = n; running = n; error = none }
unfolding start_from consume_chan new_kafka_consumer
factory_start create topic group_id answers i zero h = refl
factory_start create topic group_id answers i (suc n) h =
    rw (made (create topic group_id) (unfold kafka_factory in h i (omega arith))) (
      ap Gateway.one_more
        (factory_start create topic group_id answers (suc i) n (λ j b. h j (omega (arith, b)))))
  where
    made :
        {R : Type ℓ}
        → (o : Option R) → consumer_on o ≡ some (answers i)
        → answers i ≡ ok new_kafka_consumer
    made none e = cc
    made (some r) e = sym (some-injective (ok new_kafka_consumer) (answers i) e)

one_consumer :
    (factory : Text → ℕ → Result KafkaConsumer) (c : Consumer)
    → start_consumers factory none ((codes "push_message", c) ∷ []) (codes "push_message" ∷ [])
      ≡ joined
          (record { error = none; started = [] })
          (codes "push_message")
          (start_from (factory (codes "push_message")) none 0 (pos_part c.partitions))
          (start_from (factory (codes "push_message")) none 0 (pos_part c.partitions)).error
unfolding start_consumers text_eq lookup Gateway.start
one_consumer factory c = refl

-- With the consumers that newKafkaConsumers makes of a configuration, and a factory whose calls return
-- what NewConsumer of the factory for Kafka does: if none of the calls for the partitions panics in
-- making its reader, Start of a server that is not shut down and can listen returns no error. It starts
-- one consumer for pushed messages, with a goroutine for each partition of the configuration.
pub program_start_lem {ℓ} :
    {R : Type ℓ}
    → (create : Text → Text → Option R) (factory : Text → ℕ → Result KafkaConsumer)
      (topic group_id : Text) (partitions : ℤ) (s : Server)
    → ((i : ℕ)
        → i < pos_part partitions
        → kafka_factory create topic group_id ≡ some (factory (codes "push_message") i))
    → new_kafka_consumers (ok (topic, (group_id, partitions))) ≡ ok s.consumers
    → s.ctx_done ≡ false
    → (start factory (map (λ p. p.0) s.consumers) none s).0 ≡ record {
      error = none;
      started =
          (
            codes "push_message",
            record { made = pos_part partitions; running = pos_part partitions; error = none },
          )
          ∷ [];
    }
unfolding start new_kafka_consumers push_message_consumer new_consumer
program_start_lem create factory topic group_id partitions s f h d =
    let table : (codes "push_message", new_consumer topic group_id partitions) ∷ [] ≡ s.consumers =
      cc (h) in
    let idle : ctx_err s ≡ none = simp d in
    rw (sym table, idle)
      (one_consumer factory (new_consumer topic group_id partitions)
        ∙ ap (λ p. joined (record { error = none; started = [] }) (codes "push_message") p p.error)
            (factory_start create topic group_id (factory (codes "push_message")) 0
              (pos_part partitions) (λ j b. f j (omega (arith, b)))))
