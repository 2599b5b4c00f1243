-- ===== src/Upgrader/Examples.antt =====
-- A phone that connects, and asks to be closed when it is idle.
use synp.Prelude.{◌≡◌, refl, true, false, Option, none, some, List, [], ◌∷◌, if◌then◌else◌}
use mathlib.Core.List.{foldl}
use synp.Prelude.Int.{pos}
use synp.Prelude.Text.{Text, codes, text_eq}
use synp.Fault.{Fault, Result, ok}
use synp.Prelude.Dict.{lookup}
use synp.Redis.{local_redis}
use synp.Session.{User, device_pc}
use synp.Session.Store.{Session, new_session}
use synp.Compression
use synp.Compression.{Config, Parameters}
use synp.Upgrader.{Inputs, WsPackage, upgrade}
use synp.Upgrader.Accepted.{IsAccepted, upgrade-IsAccepted}

-- Each query has the token "t" and the device "pc"; the token is that of the user 7 of business 1.
abbrev query_of : Text → Text
query_of name = if text_eq name (codes "token") then codes "t" else codes "pc"

abbrev inputs : Inputs
inputs = record { query = λ uri. some query_of; equal_fold = text_eq; decrypt = λ token. ok (1, 7) }

abbrev desk : User
desk = record { bid = 1; uid = 7; device = device_pc; auto_close = false }

-- The calls of a handshake in which nothing but the callbacks can fail.
abbrev then_before :
    {S : Type 0}
    → (S → Option Fault × S)
    → List (Text × Text)
    → (Text → Text → S → S)
    → Option Fault × S
    → Option Fault × S
then_before before headers on_header (some e, s) = (some e, s)
then_before before headers on_header (none, s) =
    before (foldl (λ u h. on_header h.0 h.1 u) s headers)

then_before-ok :
    {S : Type 0} (before : S → Option Fault × S) (headers : List (Text × Text))
    (on_header : Text → Text → S → S) (p : Option Fault × S) (t : S)
    → then_before before headers on_header p ≡ (none, t)
    → (p.0 ≡ none) × (before (foldl (λ u h. on_header h.0 h.1 u) p.1 headers) ≡ (none, t))
then_before-ok before headers on_header (some e, s) t h = cc
then_before-ok before headers on_header (none, s) t h = (refl, h)

abbrev plain_ws : WsPackage
plain_ws = record {
  Request = Text × List (Text × Text);
  uri = λ r. r.0;
  headers = λ r. r.1;
  accepted = λ r p. none;
  upgrade = λ r offered on_request on_header on_before s.
      then_before on_before r.1 on_header (on_request r.0 s);
  upgrade-ok = λ r offered on_request on_header on_before s t h.
      then_before-ok on_before r.1 on_header (on_request r.0 s) t h;
}

abbrev config : Compression.Config
config = record {
  enabled = true;
  server_max_window_bits = pos 10;
  server_no_context_takeover = false;
  client_max_window_bits = pos 10;
  client_no_context_takeover = false;
  level = pos 1;
}

abbrev request : plain_ws.Request
request = (codes "/ws", (codes "x-auto-close", codes "true") ∷ [])

abbrev result : Result (Option Session × Compression.State) × local_redis.State
result = upgrade inputs local_redis plain_ws config (codes "now") request []

abbrev closing_desk : User
closing_desk = record desk { auto_close = true }

abbrev plain : Compression.State
plain = record {
  enabled = false;
  params = record {
    server_max_window_bits = pos 0;
    server_no_context_takeover = false;
    client_max_window_bits = pos 0;
    client_no_context_takeover = false;
  };
}

result_eq : result ≡ (ok (some (new_session closing_desk), plain), result.1)
unfolding upgrade text_eq lookup
result_eq = refl

upgrade-IsAccepted_example :
    IsAccepted inputs local_redis plain_ws config request (some (new_session closing_desk)) plain
upgrade-IsAccepted_example =
    upgrade-IsAccepted inputs local_redis plain_ws config (codes "now") request [] result.1
      (some (new_session closing_desk)) plain result_eq
