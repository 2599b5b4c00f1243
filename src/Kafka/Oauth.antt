-- ===== src/Kafka/Oauth.antt =====
-- internal/pkg/providers/kafka_oauth.go: the access token for Kafka, kept until it expires.
use synp.Prelude.{ℕ, Bool, not, ◌&&◌, List, [], ◌∷◌, ◌++◌, if◌then◌else◌, ◌==◌}
use synp.Prelude.Int.{ℤ, pos, ltb_ℤ, ◌+ℤ◌, sub64, mul64}
use synp.Prelude.Text.{Text, codes, text_eq, decimal}
use synp.Fault.{Fault, wrap, foreign, Result, ok, err}

-- Times are nanoseconds; the zero time stands for one before every time of the clock.
pub record KafkaOauthMechanism : Type 0 where
  pub endpoint : Text
  pub client_id : Text
  pub client_secret : Text
  pub access_token : Text
  pub expires_at : ℤ

unfoldable pub new_kafka_oauth_mechanism : Text → Text → Text → KafkaOauthMechanism
new_kafka_oauth_mechanism endpoint client_id client_secret = record {
  endpoint = endpoint;
  client_id = client_id;
  client_secret = client_secret;
  access_token = [];
  expires_at = pos 0;
}

-- The request that is posted: its form has the grant type and the client's credentials.
pub record TokenRequest : Type 0 where
  pub endpoint : Text
  pub grant_type : Text
  pub client_id : Text
  pub client_secret : Text

-- What becomes of the request: an error at one of three calls, or a status and a body.
pub data Answer : Type 0 where
  no_request no_send no_body : Fault → Answer
  answered : ℕ → Text → Answer

-- What getAccessToken returns, the mechanism after it, and the requests that it made.
pub record Reply : Type 0 where
  pub token : Result Text
  pub mechanism : KafkaOauthMechanism
  pub requests : List TokenRequest

-- m.accessToken != "" && time.Now().Before(m.expiresAt)
abbrev pub is_fresh : KafkaOauthMechanism → ℤ → Bool
is_fresh m now = not (text_eq m.access_token []) && ltb_ℤ now m.expires_at

abbrev pub token_request : KafkaOauthMechanism → TokenRequest
token_request m = record {
  endpoint = m.endpoint;
  grant_type = codes "client_credentials";
  client_id = m.client_id;
  client_secret = m.client_secret;
}

-- time.Duration(ExpiresIn-60) * time.Second
abbrev pub lifetime : ℤ → ℤ
lifetime expires_in = mul64 (sub64 expires_in (pos 60)) (pos 1000000000)

abbrev pub cached : KafkaOauthMechanism → ℤ → Result (Text × ℤ) → Result Text × KafkaOauthMechanism
cached m now (err e) = (err (wrap (codes "failed to parse http response body: ") e), m)
cached m now (ok (token, expires_in)) =
    (ok token, record m { access_token = token; expires_at = now +ℤ lifetime expires_in })

abbrev pub status_fault : ℕ → Text → Fault
status_fault status body = foreign (
    codes "failed to get access token with status [ "
    ++ (decimal status ++ (codes " ], body: " ++ body)))

-- `parse` is json.Unmarshal of the token and its lifetime in seconds.
abbrev pub fetched :
    (Text → Result (Text × ℤ))
    → KafkaOauthMechanism
    → ℤ
    → Answer
    → Result Text × KafkaOauthMechanism
fetched parse m now (no_request e) = (err (wrap (codes "failed to create http request: ") e), m)
fetched parse m now (no_send e) = (err (wrap (codes "failed to send http request: ") e), m)
fetched parse m now (no_body e) = (err (wrap (codes "failed to read http response body: ") e), m)
fetched parse m now (answered status body) =
    if status == 200 then cached m now (parse body) else (err (status_fault status body), m)

-- getAccessToken: `m` is the mechanism under the read lock, at `now`; `m'` is the one under the write
-- lock, which another call may have changed, at `now'`; `now''` is the time after the answer.
unfoldable pub get_access_token :
    (Text → Result (Text × ℤ))
    → KafkaOauthMechanism
    → ℤ
    → KafkaOauthMechanism
    → ℤ
    → Answer
    → ℤ
    → Reply
get_access_token parse m now m' now' answer now'' =
    if is_fresh m now
    then record { token = ok m.access_token; mechanism = m; requests = [] }
    else if is_fresh m' now'
    then record { token = ok m'.access_token; mechanism = m'; requests = [] }
    else record {
      token = (fetched parse m' now'' answer).0;
      mechanism = (fetched parse m' now'' answer).1;
      requests = token_request m' ∷ [];
    }

-- The initial response of Start
abbrev pub initial_response : Result Text → Result Text
initial_response (err e) = err (wrap (codes "failed to get access token: ") e)
initial_response (ok token) =
    ok (codes "n,," ++ 1 ∷ (codes "auth=Bearer " ++ (token ++ 1 ∷ 1 ∷ [])))

unfoldable pub start : Reply → Result Text × KafkaOauthMechanism
start r = (initial_response r.token, r.mechanism)
