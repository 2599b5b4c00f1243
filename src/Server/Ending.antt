-- ===== src/Server/Ending.antt =====
-- Shutdown and GracefulShutdown among the other calls of a server.
use synp.Prelude.{
  ℕ, ◌≡◌, refl, sym, ap, ◌∙◌, ◌↔◌, ◌||◌, Bool, true, false, Option, none, some, List, [], ◌∷◌,
  arith, map,
}
use mathlib.Core.List.{foldl}
use mathlib.Core.Option.{some-injective}
use synp.Prelude.Text.{Text}
use synp.Fault.{Fault, Result}
use synp.Limiter.{TokenLimiter}
use synp.Mq.{KafkaConsumer}
use synp.Gateway.{Consumer}
use synp.Server.{Turn, Reply, accept_conn}
use synp.Server.Running.{
  Config, Server, ServerOptions, svr_with_conn_limiter, new_server, start, shutdown, drain, awaited,
}

-- A call of Start with what it meets, of Shutdown, or of GracefulShutdown up to its wait.
pub data Call : Type 0 where
  starts : List Text → Option Fault → Call
  shuts_down drains : Call

abbrev pub is_shutdown : Call → Bool
is_shutdown (starts keys listen) = false
is_shutdown shuts_down = true
is_shutdown drains = false

abbrev pub any_shutdown : List Call → Bool
any_shutdown [] = false
any_shutdown (c ∷ cs) = is_shutdown c || any_shutdown cs

or_true : (b : Bool) → (b || true) ≡ true
or_true true = refl
or_true false = refl

module _ (factory : Text → ℕ → Result KafkaConsumer) where
  abbrev pub perform : Call → Server → Server
  perform (starts keys listen) s = (start factory keys listen s).1
  perform shuts_down s = (shutdown s).1
  perform drains s = drain s

  unfoldable pub perform_all : List Call → Server → Server
  perform_all [] s = s
  perform_all (c ∷ cs) s = perform_all cs (perform c s)

  start-kept :
      (keys : List Text) (listen : Option Fault) (s : Server)
      → ((start factory keys listen s).1.ctx_done ≡ s.ctx_done)
        × ((start factory keys listen s).1.accept_new_conn ≡ s.accept_new_conn)
  unfolding start
  start-kept keys none s = (refl, refl)
  start-kept keys (some e) s = (refl, refl)

  pub performed :
      (cs : List Call) (s : Server) → (perform_all cs s).ctx_done ≡ (any_shutdown cs || s.ctx_done)
  unfolding perform_all shutdown drain
  performed [] s = refl
  performed (starts keys listen ∷ cs) s =
      performed cs (start factory keys listen s).1
      ∙ ap (λ b. any_shutdown cs || b) (start-kept keys listen s).0
  performed (shuts_down ∷ cs) s = performed cs (shutdown s).1 ∙ or_true (any_shutdown cs)
  performed (drains ∷ cs) s = performed cs (drain s)

  stays_drained :
      (cs : List Call) (s : Server)
      → s.accept_new_conn ≡ false
      → (perform_all cs s).accept_new_conn ≡ false
  unfolding perform_all shutdown drain
  stays_drained [] s h = h
  stays_drained (starts keys listen ∷ cs) s h =
      stays_drained cs (start factory keys listen s).1 ((start-kept keys listen s).1 ∙ h)
  stays_drained (shuts_down ∷ cs) s h = stays_drained cs (shutdown s).1 h
  stays_drained (drains ∷ cs) s h = stays_drained cs (drain s) refl

  drained-ctx :
      (cs : List Call) (s : Server)
      → s.ctx_done ≡ false
      → (drain (perform_all cs s)).ctx_done ≡ any_shutdown cs
  unfolding drain
  drained-ctx cs s h = ground (arith, performed cs s, h)

  apply-kept :
      (ls : List TokenLimiter) (s : Server)
      → (foldl (λ s o. o s) s (map svr_with_conn_limiter ls)).ctx_done ≡ s.ctx_done
  unfolding svr_with_conn_limiter
  apply-kept [] s = refl
  apply-kept (l ∷ ls) s = apply-kept ls (svr_with_conn_limiter l s)

  module _ (pkg : ServerOptions) where
    open pkg use {apply, apply_lem}

    pub new_server-open :
        (cfg : Config) (table : List (Text × Consumer)) (ls : List TokenLimiter) (s : Server)
        → new_server pkg cfg table (map svr_with_conn_limiter ls) ≡ some s
        → s.ctx_done ≡ false
    unfolding new_server
    new_server-open cfg table ls s h =
        ap (λ x. x.ctx_done) (sym (some-injective _ s h))
        ∙ ap (λ x. x.ctx_done) (apply_lem _ (map svr_with_conn_limiter ls))
        ∙ apply-kept ls _

    -- From a new server on, GracefulShutdown returns exactly if Shutdown is called, before it or while it
    -- waits; and whatever else is called meanwhile, an accepting loop that comes to its next round ends
    -- there, without a token.
    pub graceful_shutdown_iff :
        (cfg : Config) (table : List (Text × Consumer)) (ls : List TokenLimiter) (s : Server)
        (before after : List Call) (reply : Reply) (ts : List Turn) (l : TokenLimiter)
        → new_server pkg cfg table (map svr_with_conn_limiter ls) ≡ some s
        → let s' = perform_all after (drain (perform_all before s)) in
          ((awaited s' ≡ none) ↔ ((any_shutdown before || any_shutdown after) ≡ false))
          × (accept_conn (record { accept_new_conn = s'.accept_new_conn; reply = reply } ∷ ts) l
              ≡ record { limiter = l; handled = 0; returned = true })
    unfolding awaited accept_conn
    graceful_shutdown_iff cfg table ls s before after reply ts l h =
        let s' = perform_all after (drain (perform_all before s)) in
        let done : s'.ctx_done ≡ (any_shutdown after || any_shutdown before) =
          performed after (drain (perform_all before s))
          ∙ ap (λ b. any_shutdown after || b)
              (drained-ctx before s (new_server-open cfg table ls s h)) in
        let closed : s'.accept_new_conn ≡ false =
          stays_drained after (drain (perform_all before s)) (unfold drain in refl) in
        (ground (arith, done), rw closed refl)
