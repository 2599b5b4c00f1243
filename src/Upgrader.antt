-- ===== src/Upgrader.antt =====
-- internal/ws/upgrader.go, with internal/pkg/auth/jwt_validator.go: who a new connection belongs to.
pub mod Accepted
mod Examples
use synp.Prelude.{ℕ, Bool, true, false, Option, none, some, List, [], ◌∷◌, ◌≡◌, if◌then◌else◌, ◌||◌}
use synp.Prelude.Text.{Text, codes, text_eq}
use synp.Fault.{Fault, sentinel, join, Result, ok, err, token_required, invalid_uri, invalid_token}
use mathlib.Core.List.{foldl}
use synp.Prelude.Int.{pos}
use synp.Redis.{Redis}
use synp.Session.{User, Device, device_mobile, device_tablet, device_pc, device_unknown}
use synp.Session.Store.{Session, build}
use synp.Compression
use synp.Compression.{Parameters, to_paramters}

-- What the program uses of net/url, strings and the JWT manager: the query of a URI that parses (Get
-- gives the empty text for a missing name), EqualFold, and the claims of a token.
pub record Inputs : Type 0 where
  pub query : Text → Option (Text → Text)
  pub equal_fold : Text → Text → Bool
  pub decrypt : Text → Result (ℕ × ℕ)

module _ (inputs : Inputs) where
  open inputs use {query, equal_fold, decrypt}

  abbrev pub claimed : Result (ℕ × ℕ) → Result User
  claimed (err e) = err e
  claimed (ok (biz_id, user_id)) =
      ok (record { bid = biz_id; uid = user_id; device = []; auto_close = false })

  -- JwtValidator.Validate
  unfoldable pub validate : Text → Result User
  validate token = claimed (decrypt token)

  abbrev pub token_in : Option (Text → Text) → Result Text
  token_in none = err (sentinel invalid_uri)
  token_in (some get) =
      if text_eq (get (codes "token")) []
      then err (sentinel token_required)
      else ok (get (codes "token"))

  unfoldable pub extract_token : Text → Result Text
  extract_token uri = token_in (query uri)

  abbrev pub known_device : Text → Device
  known_device d =
      if text_eq d device_mobile || (text_eq d device_tablet || text_eq d device_pc)
      then d
      else device_unknown

  abbrev pub device_in : Option (Text → Text) → Device
  device_in none = device_unknown
  device_in (some get) =
      if text_eq (get (codes "device")) []
      then device_unknown
      else known_device (get (codes "device"))

  unfoldable pub extract_device : Text → Device
  extract_device uri = device_in (query uri)

  abbrev pub user_on : Device → Result User → Result User
  user_on device (err e) = err (join (sentinel invalid_token) e)
  user_on device (ok user) = ok (record user { device = device })

  abbrev pub user_of_token : Text → Result Text → Result User
  user_of_token uri (err e) = err e
  user_of_token uri (ok token) = user_on (extract_device uri) (validate token)

  unfoldable pub extract_user_info : Text → Result User
  unfolding extract_token extract_device validate
  extract_user_info uri = user_of_token uri (extract_token uri)

-- ws.Upgrader of the gobwas package, as the program relies on it: it calls OnRequest with the URI,
-- OnHeader with each header that is not its own, in order, and OnBeforeUpgrade, and succeeds only
-- if these do. `offered` is the extension that Negotiate offers, `accepted` what is agreed on.
pub record WsPackage : Type 1 where
  pub Request : Type 0
  pub uri : Request → Text
  pub headers : Request → List (Text × Text)
  pub accepted : Request → Parameters → Option Parameters
  pub upgrade :
      {S : Type 0}
      → Request
      → Option Parameters
      → (Text → S → Option Fault × S)
      → (Text → Text → S → S)
      → (S → Option Fault × S)
      → S
      → Option Fault × S
  pub upgrade-ok :
      {S : Type 0} (r : Request) (offered : Option Parameters)
      (on_request : Text → S → Option Fault × S) (on_header : Text → Text → S → S)
      (on_before : S → Option Fault × S) (s t : S)
      → upgrade r offered on_request on_header on_before s ≡ (none, t)
      → ((on_request (uri r) s).0 ≡ none)
        × (on_before (foldl (λ u h. on_header h.0 h.1 u) (on_request (uri r) s).1 (headers r))
            ≡ (none, t))

module _ (inputs : Inputs) (redis : Redis) where
  open inputs use {equal_fold}

  -- The variables that the callbacks of Upgrade share, and Redis.
  pub record Handshake : Type 0 where
    pub user : User
    pub sess : Option Session
    pub auto_close : Bool
    pub state : redis.State

  abbrev pub no_user : User
  no_user = record { bid = 0; uid = 0; device = []; auto_close = false }

  abbrev pub requested : Handshake → Result User → Option Fault × Handshake
  requested h (err e) = (some e, record h { user = no_user })
  requested h (ok user) = (none, record h { user = user })

  unfoldable pub on_request : Text → Handshake → Option Fault × Handshake
  unfolding extract_user_info
  on_request uri h = requested h (extract_user_info inputs uri)

  unfoldable pub on_header : Text → Text → Handshake → Handshake
  on_header key value h =
      if equal_fold key (codes "x-auto-close")
      then record h { auto_close = text_eq value (codes "true") }
      else h

  abbrev pub session_made :
      Handshake → Result (Session × Bool) × redis.State → Option Fault × Handshake
  session_made h (err e, s) = (some e, record h { state = s })
  session_made h (ok (sess, is_new), s) = (none, record h { sess = some sess; state = s })

  -- `now` is the sign-in time.
  unfoldable pub on_before_upgrade : Text → Handshake → Option Fault × Handshake
  unfolding build
  on_before_upgrade now h =
      let user = record h.user { auto_close = h.auto_close } in
      session_made (record h { user = user }) (build redis user now h.state)

  module _ (ws : WsPackage) where
    abbrev pub Upgraded : Type 0
    Upgraded = Result (Option Session × Compression.State) × redis.State

    abbrev pub no_compression : Compression.State
    no_compression = record {
      enabled = false;
      params = record {
        server_max_window_bits = pos 0;
        server_no_context_takeover = false;
        client_max_window_bits = pos 0;
        client_no_context_takeover = false;
      };
    }

    abbrev pub negotiated : Option Parameters → Compression.State
    negotiated none = no_compression
    negotiated (some params) = record { enabled = true; params = params }

    -- What Accepted returns, if an extension was offered.
    abbrev pub agreed : ws.Request → Option Parameters → Option Parameters
    agreed r none = none
    agreed r (some params) = ws.accepted r params

    abbrev pub upgraded : ws.Request → Option Parameters → Option Fault × Handshake → Upgraded
    upgraded r offered (some e, h) = (err e, h.state)
    upgraded r offered (none, h) = (ok (h.sess, negotiated (agreed r offered)), h.state)

    abbrev pub offer : Compression.Config → Option Parameters
    offer cfg = if cfg.enabled then some (to_paramters cfg) else none

    abbrev pub fresh : redis.State → Handshake
    fresh s = record { user = no_user; sess = none; auto_close = false; state = s }

    -- Upgrade
    unfoldable pub upgrade : Compression.Config → Text → ws.Request → redis.State → Upgraded
    unfolding on_request on_header on_before_upgrade
    upgrade cfg now r s =
        upgraded r (offer cfg)
          (ws.upgrade r (offer cfg) on_request on_header (on_before_upgrade now) (fresh s))
