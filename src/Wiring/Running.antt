-- ===== src/Wiring/Running.antt =====
-- What a program that runs has, and what becomes of it when it is stopped.
use synp.Prelude.{
  ℕ, ◌≡◌, ◌<◌, refl, ap, sym, ◌∙◌, false, ◌||◌, Option, none, some, List, [], ◌∷◌, map,
}
use mathlib.Core.Option.{some-injective}
use synp.Prelude.Int.{ℤ, pos_part}
use synp.Prelude.Text.{Text, codes}
use synp.SyncMap.{SyncMap}
use synp.Fault.{Fault, Result, ok, err}
use synp.Retransmit.{Task, Manager}
use synp.Codec.{Codec, new_codec}
use synp.Compression
use synp.Conn.Settings.{ConnConfig}
use synp.Retransmit.History.{Call}
use synp.Handlers.{Answers}
use synp.Upgrader.{Inputs}
use synp.Mq.{KafkaConsumer}
use synp.Gateway.{Consumer, kafka_factory}
use synp.Server.Running.{
  Server, ServerOptions, Consuming, default_config_of_server, new_server, drain, awaited,
  new_kafka_consumers,
}
use synp.Server.Starting.{program_start_lem}
use synp.Server.Ending.{starts, drains, new_server-open, perform_all, performed, any_shutdown}
use synp.Wiring.{load_config, new_retransmit_manager, new_ws_upgrader, conn_manager_config}
use synp.Wiring.Sound.{IsSound, new_retransmit_manager-IsSound}
use synp.Wiring.Program.{
  App, app_of, init_app, on_start, on_stop, stopped, Surroundings, Program, running, new_logger,
  new_redis_cmdable, new_validator, new_conn_lc_handler, with_app, assembled, main, LoggerKind,
  RedisConfig, FrontendConfig, LifecycleConfig,
}

-- What fx does to the app once it has been made: its hooks, OnStart with what it meets.
pub data Hook : Type 0 where
  starts_app : List Text → Option Fault → Hook
  stops_app : Hook

abbrev pub hooked : (Text → ℕ → Result KafkaConsumer) → List Hook → App → App
hooked factory [] app = app
hooked factory (starts_app keys listen ∷ hs) app =
    hooked factory hs (on_start factory keys listen app).1
hooked factory (stops_app ∷ hs) app = hooked factory hs (on_stop app)

-- The hooks as calls of the server.
abbrev calls : List Hook → List synp.Server.Ending.Call
calls [] = []
calls (starts_app keys listen ∷ hs) = starts keys listen ∷ calls hs
calls (stops_app ∷ hs) = drains ∷ calls hs

hooked-calls :
    (factory : Text → ℕ → Result KafkaConsumer) (hs : List Hook) (app : App)
    → (hooked factory hs app).ws_svr ≡ perform_all factory (calls hs) app.ws_svr
unfolding perform_all on_start on_stop
hooked-calls factory [] app = refl
hooked-calls factory (starts_app keys listen ∷ hs) app =
    hooked-calls factory hs (on_start factory keys listen app).1
hooked-calls factory (stops_app ∷ hs) app = hooked-calls factory hs (on_stop app)

calls-no_shutdown : (hs : List Hook) → any_shutdown (calls hs) ≡ false
calls-no_shutdown [] = refl
calls-no_shutdown (starts_app keys listen ∷ hs) = calls-no_shutdown hs
calls-no_shutdown (stops_app ∷ hs) = calls-no_shutdown hs

-- OnStop comes to its wait, and waits on, whatever hooks were called before.
stop_waits :
    (factory : Text → ℕ → Result KafkaConsumer) (hs : List Hook) (app : App)
    → app.ws_svr.ctx_done ≡ false
    → stopped (on_stop (hooked factory hs app)) ≡ none
unfolding stopped on_stop awaited drain
stop_waits factory hs app h =
    let s = hooked-calls factory hs app in
    let open_still : (hooked factory hs app).ws_svr.ctx_done ≡ false =
      ap (λ (s : Server). s.ctx_done) s
      ∙ performed factory (calls hs) app.ws_svr
      ∙ ap (λ b. b || app.ws_svr.ctx_done) (calls-no_shutdown hs)
      ∙ h in
    rw open_still refl

init_app-made :
    (pkg : ServerOptions) (table : List (Text × Consumer)) (app : App)
    → init_app pkg table ≡ some app
    → new_server pkg default_config_of_server table [] ≡ some app.ws_svr
unfolding init_app
init_app-made pkg table app h = go (new_server pkg default_config_of_server table []) h
  where
    go : (o : Option Server) → app_of o ≡ some app → o ≡ some app.ws_svr
    go none e = cc
    go (some s) e = ap some (ap (λ (a : App). a.ws_svr) (some-injective _ app e))

module _ (ops : SyncMap Task) where
  with_app-running :
      (o : Option App) (made : App → Program ops) (p : Program ops)
      → with_app ops o made ≡ running p
      → (app : App) × (o ≡ some app) × (made app ≡ p)
  with_app-running none made p h = cc
  with_app-running (some app) made p h = (app, refl, cc)

  module _ (pkg : ServerOptions) where
    open pkg use {apply, apply_lem}

    new_server-consumers :
        (table : List (Text × Consumer)) (s : Server)
        → new_server pkg default_config_of_server table [] ≡ some s
        → s.consumers ≡ table
    unfolding new_server
    new_server-consumers table s h =
        ap (λ (x : Server). x.consumers) (sym (some-injective _ s h))
        ∙ ap (λ (x : Server). x.consumers) (apply_lem _ [])

    abbrev all_keys : App → List Text
    all_keys app = map (λ q. q.0) app.ws_svr.consumers

    -- The one consumer that Start of the app leaves, with a goroutine for each partition.
    abbrev pub all_started : ℤ → Consuming
    all_started partitions = record {
      error = none;
      started =
          (
            codes "push_message",
            record { made = pos_part partitions; running = pos_part partitions; error = none },
          )
          ∷ [];
    }

    app_starts {ℓ} :
        {R : Type ℓ}
        → (create : Text → Text → Option R) (factory : Text → ℕ → Result KafkaConsumer)
          (config : Result (Text × (Text × ℤ))) (table : List (Text × Consumer)) (app : App)
        → ((c : Text × (Text × ℤ))
            → config ≡ ok c
            → (i : ℕ) → i < pos_part c.1.1
            → kafka_factory create c.0 c.1.0 ≡ some (factory (codes "push_message") i))
        → new_kafka_consumers config ≡ ok table
        → init_app pkg table ≡ some app
        → (c : Text × (Text × ℤ)) × (config ≡ ok c)
          × ((on_start factory (all_keys app) none app).0 ≡ all_started c.1.1)
    unfolding on_start
    app_starts create factory (err e) table app f h i = unfold new_kafka_consumers in cc
    app_starts create factory (ok (topic, (group_id, partitions))) table app f h i =
        let made = init_app-made pkg table app i in
        (
          (topic, (group_id, partitions)),
          refl,
          program_start_lem create factory topic group_id partitions app.ws_svr
              (f (topic, (group_id, partitions)) refl)
              (h ∙ ap ok (sym (new_server-consumers table app.ws_svr made)))
              (new_server-open factory pkg default_config_of_server table [] app.ws_svr made),
        )

    module _ (inputs : Inputs) (answers : Answers) where
      -- A program that runs was made of constructors that succeeded.
      assembled-running :
          (e : Option Fault) (l : Result LoggerKind) (r : Result RedisConfig) (k : Option Fault)
          (v : Result Inputs) (c : Result Codec) (m : Result (Manager ops))
          (f : Result FrontendConfig) (u : Result Compression.Config) (h : Result LifecycleConfig)
          (n : Result ConnConfig) (t : Result (List (Text × Consumer))) (p : Program ops)
          → assembled ops pkg inputs answers e l r k v c m f u h n t ≡ running p
          → (e ≡ none)
            × (m ≡ ok p.manager)
            × ((table : List (Text × Consumer)) × (t ≡ ok table)
                × (init_app pkg table ≡ some p.app))
      assembled-running (some e) _ _ _ _ _ _ _ _ _ _ _ p x = cc
      assembled-running none (err e) _ _ _ _ _ _ _ _ _ _ p x = cc
      assembled-running none (ok l) (err e) _ _ _ _ _ _ _ _ _ p x = cc
      assembled-running none (ok l) (ok r) (some e) _ _ _ _ _ _ _ _ p x = cc
      assembled-running none (ok l) (ok r) none (err e) _ _ _ _ _ _ _ p x = cc
      assembled-running none (ok l) (ok r) none (ok v) (err e) _ _ _ _ _ _ p x = cc
      assembled-running none (ok l) (ok r) none (ok v) (ok c) (err e) _ _ _ _ _ p x = cc
      assembled-running none (ok l) (ok r) none (ok v) (ok c) (ok m) (err e) _ _ _ _ p x = cc
      assembled-running none (ok l) (ok r) none (ok v) (ok c) (ok m) (ok f) (err e) _ _ _ p x = cc
      assembled-running none (ok l) (ok r) none (ok v) (ok c) (ok m) (ok f) (ok u) (err e) _ _ p x =
          cc
      assembled-running none (ok l) (ok r) none (ok v) (ok c) (ok m) (ok f) (ok u) (ok h) (err e) _
            p x =
          cc
      assembled-running none (ok l) (ok r) none (ok v) (ok c) (ok m) (ok f) (ok u) (ok h) (ok n)
            (err e) p x =
          cc
      assembled-running none (ok l) (ok r) none (ok v) (ok c) (ok m) (ok f) (ok u) (ok h) (ok n)
            (ok t) p x =
          let (app, i, e) = with_app-running (init_app pkg t) _ p x in
          (
            refl,
            ap (λ (q : Program ops). ok q.manager) e,
            (t, refl, i ∙ ap (λ (q : Program ops). some q.app) e),
          )

      -- If main comes to Run: the three files were read; the retransmit manager is sound, whatever its
      -- calls; and OnStop, whatever hooks were called before, comes to its wait and never returns. If,
      -- moreover, the factory's calls return what those of the factory for Kafka do, with the topic and
      -- the group of the configuration that was read, and none of them panics in making its reader:
      -- the first OnStart, if it can listen, returns no error and leaves a goroutine for each partition
      -- of this configuration.
      pub main_lem {ℓ} :
          {R : Type ℓ}
          → (create : Text → Text → Option R) (factory : Text → ℕ → Result KafkaConsumer)
            (s : Surroundings) (p : Program ops) (hs : List Hook) (cs : List Call)
          → ((c : Text × (Text × ℤ))
              → s.consumers ≡ ok c
              → (i : ℕ) → i < pos_part c.1.1
              → kafka_factory create c.0 c.1.0 ≡ some (factory (codes "push_message") i))
          → main ops pkg inputs answers s ≡ running p
          → ((load_config s.read s.merge).error ≡ none)
            × IsSound ops p.manager cs
            × ((c : Text × (Text × ℤ)) × (s.consumers ≡ ok c)
                × ((on_start factory (all_keys p.app) none p.app).0 ≡ all_started c.1.1))
            × (stopped (on_stop (hooked factory hs p.app)) ≡ none)
      unfolding main
      main_lem create factory s p hs cs f h =
          let (files, sound, (table, made, app)) =
            assembled-running (load_config s.read s.merge).error (new_logger s.project s.zap)
              (new_redis_cmdable s.redis) s.kafka (new_validator inputs s.build s.jwt)
              (new_codec s.codec) (new_retransmit_manager ops s.retransmit) s.frontend
              (new_ws_upgrader s.compression) (new_conn_lc_handler s.handler)
              (conn_manager_config s.conn_manager) (new_kafka_consumers s.consumers) p h in
          let server = init_app-made pkg table p.app app in
          (
            files,
            new_retransmit_manager-IsSound ops s.retransmit p.manager cs sound,
            app_starts create factory s.consumers table p.app f made app,
            stop_waits factory hs p.app
                (new_server-open factory pkg default_config_of_server table [] p.app.ws_svr server),
          )
