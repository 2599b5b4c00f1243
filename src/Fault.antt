-- ===== src/Fault.antt =====
-- Go's error values: the sentinel errors that the program declares with errors.New, errors of other
-- packages, and the ways in which fmt.Errorf("%w") and multierr.Append put them together.
use synp.Prelude.{◌↔◌, ◌≡◌, refl, Bool, true, false, ◌||◌, Option, none, some, ◌++◌}
use synp.Prelude.Text.{Text, codes}
use mathlib.Core.Logic.{ite}

-- internal/ws/conn, types.go, conn/lifecycle, message, session/redis, ws/upgrader.go, ws/server.go,
-- xmq: the `var Err… = errors.New(…)` of each.
pub data Sentinel : Type 0 where
  conn_closed rate_limited invalid_message cache_message uncache_message : Sentinel
  message_duplicated unknown_message_type max_retry_exceeded marshal_message : Sentinel
  session_exists session_create session_destroy token_required invalid_uri : Sentinel
  invalid_token unknown_receiver consumer_closed : Sentinel

unfoldable pub Sentinel-discrete : Discrete Sentinel
Sentinel-discrete = hlevel

pub data Fault : Type 0 where
  -- One of the program's own errors.
  sentinel : Sentinel → Fault
  -- An error that a library or a service returned, with its message.
  foreign : Text → Fault
  -- fmt.Errorf("…%w", err), and fmt.Errorf("%w…", err)
  wrap : Text → Fault → Fault
  detail : Fault → Text → Fault
  -- fmt.Errorf("%w: %w", a, b), and two errors in multierr.Append
  join : Fault → Fault → Fault
  combined : Fault → Fault → Fault

-- errors.Is(err, target)
unfoldable pub is : Fault → Sentinel → Bool
unfolding Sentinel-discrete
is (sentinel s) t = ite (Sentinel-discrete s t) true false
is (foreign m) t = false
is (wrap m e) t = is e t
is (detail e m) t = is e t
is (join a b) t = is a t || is b t
is (combined a b) t = is a t || is b t

-- errors.Is on an `error` that may be nil.
unfoldable pub error_is : Option Fault → Sentinel → Bool
unfolding is
error_is none t = false
error_is (some e) t = is e t

-- multierr.Append(left, right) on errors that may be nil.
unfoldable pub append : Option Fault → Option Fault → Option Fault
append none r = r
append (some l) none = some l
append (some l) (some r) = some (combined l r)

-- A function of Go that returns a value and an error.
pub data Result {ℓ} (A : Type ℓ) : Type ℓ where
  ok : A → Result A
  err : Fault → Result A

pub error_is-append :
    (l r : Option Fault) (t : Sentinel) → error_is (append l r) t ≡ (error_is l t || error_is r t)
unfolding error_is append
error_is-append none r t = refl
error_is-append (some l) none t = or_false (is l t)
  where
    or_false : (b : Bool) → b ≡ (b || false)
    or_false true = refl
    or_false false = refl
error_is-append (some l) (some r) t = refl

-- Nothing was collected exactly when there was nothing to collect.
pub append-none : (a b : Option Fault) → (append a b ≡ none) ↔ ((a ≡ none) × (b ≡ none))
unfolding append
append-none none b = ((λ h. (refl, h)), (λ h. h.1))
append-none (some a) none = ((λ h. cc), (λ h. h.0))
append-none (some a) (some b) = ((λ h. cc), (λ h. cc (h.0)))

sentinel_text : Sentinel → Text
sentinel_text conn_closed = codes "connection closed"
sentinel_text rate_limited = codes "request too frequently, please try again later"
sentinel_text invalid_message = codes "invalid message"
sentinel_text cache_message = codes "cache message failed"
sentinel_text uncache_message = codes "uncache message failed"
sentinel_text message_duplicated = codes "message duplicated, ignore it"
sentinel_text unknown_message_type = codes "unknown message (command) type"
sentinel_text max_retry_exceeded = codes "max retry exceeded"
sentinel_text marshal_message = codes "failed to marshal message"
sentinel_text session_exists = codes "session exists"
sentinel_text session_create = codes "failed to create session"
sentinel_text session_destroy = codes "failed to destroy session"
sentinel_text token_required = codes "token is required"
sentinel_text invalid_uri = codes "invalid uri"
sentinel_text invalid_token = codes "invalid token"
sentinel_text unknown_receiver = codes "unknown receiver"
sentinel_text consumer_closed = codes "consumer closed"

-- err.Error()
unfoldable pub error_text : Fault → Text
unfolding sentinel_text
error_text (sentinel s) = sentinel_text s
error_text (foreign m) = m
error_text (wrap m e) = m ++ error_text e
error_text (detail e m) = error_text e ++ m
error_text (join a b) = error_text a ++ codes ": " ++ error_text b
error_text (combined a b) = error_text a ++ codes "; " ++ error_text b
