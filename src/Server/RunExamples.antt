-- ===== src/Server/RunExamples.antt =====
-- A server with six partitions that is started, drained and shut down; one whose consumer fails.
use synp.Prelude.{ℕ, ◌≡◌, refl, ◌↔◌, ◌||◌, true, false, Option, none, some, List, [], ◌∷◌, map}
use mathlib.Core.List.{foldl}
use synp.Prelude.Int.{pos}
use synp.Prelude.Text.{Text, codes, text_eq}
use synp.Prelude.Dict.{lookup}
use synp.Fault.{foreign, Result, ok, err}
use synp.Limiter.{TokenLimiter, default_config, new_token_limiter}
use synp.Mq.{KafkaConsumer, new_kafka_consumer}
use synp.Gateway
use synp.Gateway.{Consumer, new_consumer, kafka_factory}
use synp.Server.{failed, accept_conn}
use synp.Server.Running.{
  Server, ServerOptions, default_config_of_server, new_server, start, start_consumers, ctx_err,
  drain, awaited, new_kafka_consumers, push_message_consumer,
}
use synp.Server.Starting.{IsStuck, start-IsStuck, program_start_lem}
use synp.Server.Ending.{starts, shuts_down, any_shutdown, perform_all, graceful_shutdown_iff}

abbrev topic : Text
topic = codes "event.message.downstream"

abbrev group_id : Text
group_id = codes "synp-gateway-downstream"

abbrev table : List (Text × Consumer)
table =
    (
      codes "push_message",
      record { topic = topic; group_id = group_id; partitions = pos 6; cancelled = false },
    )
    ∷ []

abbrev limiter : TokenLimiter
limiter = record {
  cfg = record {
    init_capacity = pos 2000;
    max_capacity = pos 50000;
    increase_step = pos 500;
    increase_interval = pos 2000000000;
  };
  tokens = 2000;
  chan_cap = 2000;
  curr_capacity = pos 2000;
  cancelled = false;
}

abbrev server : Server
unfolding default_config_of_server
server = record {
  config = default_config_of_server;
  consumers = table;
  conn_limiter = limiter;
  accept_new_conn = true;
  listening = false;
  accepting = 0;
  ctx_done = false;
}

abbrev options : ServerOptions
options = record { apply = λ s opts. foldl (λ s o. o s) s opts; apply_lem = λ s opts. refl }

-- Readers as kafka.NewReader makes them: none without a topic.
abbrev create : Text → Text → Option Text
create [] group = none
create (c ∷ cs) group = some group

-- What the factory for Kafka returns for them.
abbrev made : Text → ℕ → Result KafkaConsumer
made key i = ok new_kafka_consumer

program_start_lem_example : (start made (map (λ p. p.0) server.consumers) none server).0 ≡ record {
  error = none;
  started = (codes "push_message", record { made = 6; running = 6; error = none }) ∷ [];
}
unfolding server new_kafka_consumers push_message_consumer new_consumer kafka_factory
program_start_lem_example =
    program_start_lem create made topic group_id (pos 6) server (λ i b. refl) refl refl

-- No consumer can be made.
abbrev broken : Text → ℕ → Result KafkaConsumer
broken key i = err (foreign (codes "no broker"))

start-IsStuck_example :
    IsStuck broken
      (ctx_err server)
      server.consumers
      (codes "push_message" ∷ [])
      (foreign (codes "no broker"))
    × ((start broken (codes "push_message" ∷ []) none server).1.listening ≡ true)
    × ((start broken (codes "push_message" ∷ []) none server).1.accepting ≡ 1)
unfolding server start start_consumers text_eq lookup Gateway.start Gateway.start_from
start-IsStuck_example =
    start-IsStuck broken (codes "push_message" ∷ []) server (foreign (codes "no broker")) refl

graceful_shutdown_iff_example :
    let s' =
      perform_all made
        (shuts_down ∷ [])
        (drain (perform_all made (starts (codes "push_message" ∷ []) none ∷ []) server)) in
    ((awaited s' ≡ none) ↔ (
      (any_shutdown (starts (codes "push_message" ∷ []) none ∷ [])
        || any_shutdown (shuts_down ∷ []))
      ≡ false))
    × (accept_conn (record { accept_new_conn = s'.accept_new_conn; reply = failed } ∷ []) limiter
        ≡ record { limiter = limiter; handled = 0; returned = true })
unfolding server new_server default_config new_token_limiter
graceful_shutdown_iff_example =
    graceful_shutdown_iff made options default_config_of_server table [] server
      (starts (codes "push_message" ∷ []) none ∷ []) (shuts_down ∷ []) failed [] limiter refl
