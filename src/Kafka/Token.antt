-- ===== src/Kafka/Token.antt =====
-- When the access token is asked for, and when it is taken from the mechanism.
use synp.Prelude.{true, ℕ, ◌+◌, ◌*◌, ◌≤◌, ◌<◌, ◌≡◌, false, [], arith, ltb, length, ◌⊎◌, not, ◌&&◌}
use synp.Prelude.Int.{ℤ, pos, ltb_ℤ, ◌+ℤ◌, sub64, mul64}
use synp.Prelude.Text.{Text, text_eq}
use synp.Fault.{Fault, Result, ok, err}
use synp.Kafka.Oauth.{KafkaOauthMechanism, Answer, answered, is_fresh, lifetime, get_access_token}

-- The expiry of a token that was received at `d` nanoseconds, and lives `n` seconds, in a range in
-- which no product wraps.
expiry :
    (d n l : ℕ)
    → n < 9000000000
    → ltb_ℤ (pos l) (pos d +ℤ lifetime (pos n)) ≡ ltb (l + 60000000000) (d + n * 1000000000)
unfolding sub64 mul64 ◌+ℤ◌
expiry d n l h = ground arith

-- A token with a lifetime of `n` seconds, received at `d`, is fresh at `l` exactly if it is not empty
-- and more than a minute of its lifetime is left.
fresh_until :
    (parse : Text → Result (Text × ℤ)) (m m' : KafkaOauthMechanism) (now now' : ℤ)
    (body token : Text) (d n l : ℕ)
    → is_fresh m now ≡ false
    → is_fresh m' now' ≡ false
    → parse body ≡ ok (token, pos n)
    → n < 9000000000
    → is_fresh (get_access_token parse m now m' now' (answered 200 body) (pos d)).mechanism (pos l)
      ≡ (not (text_eq token []) && ltb (l + 60000000000) (d + n * 1000000000))
unfolding get_access_token
fresh_until parse m m' now now' body token d n l f f' p h = ground (arith, f, f', p, expiry d n l h)

-- A call that finds no fresh token posts one request. If it is answered by a token, not empty, with a
-- lifetime of `n` seconds, less than 9000000000, at the time `d`, the call returns this token. As long
-- as more than a minute of the lifetime is left, the next call on the mechanism, at the time `l`,
-- returns it with no request and leaves the mechanism as it is.
pub token_reused :
    (parse : Text → Result (Text × ℤ)) (m m' : KafkaOauthMechanism) (now now' : ℤ)
    (body token : Text) (d n l : ℕ) (t t' : ℤ) (a : Answer)
    → is_fresh m now ≡ false
    → is_fresh m' now' ≡ false
    → parse body ≡ ok (token, pos n)
    → n < 9000000000
    → text_eq token [] ≡ false
    → l + 60000000000 < d + n * 1000000000
    → let r = get_access_token parse m now m' now' (answered 200 body) (pos d) in
      (r.token ≡ ok token)
      × (length r.requests ≡ 1)
      × (get_access_token parse r.mechanism (pos l) r.mechanism t a t'
          ≡ record { token = ok token; mechanism = r.mechanism; requests = [] })
unfolding get_access_token
token_reused parse m m' now now' body token d n l t t' a f f' p h e k =
    ground (arith, f, f', p, e, fresh_until parse m m' now now' body token d n l f f' p h)

-- With the same answer to the first call, but an empty token, or no more than a minute of the lifetime
-- left at the time `l`: a call at that time posts another request, if the mechanism did not change.
pub token_refreshed :
    (parse : Text → Result (Text × ℤ)) (m m' : KafkaOauthMechanism) (now now' : ℤ)
    (body token : Text) (d n l : ℕ) (t : ℤ) (a : Answer)
    → is_fresh m now ≡ false
    → is_fresh m' now' ≡ false
    → parse body ≡ ok (token, pos n)
    → n < 9000000000
    → (text_eq token [] ≡ true) ⊎ (d + n * 1000000000 ≤ l + 60000000000)
    → let r = (get_access_token parse m now m' now' (answered 200 body) (pos d)).mechanism in
      length (get_access_token parse r (pos l) r (pos l) a t).requests ≡ 1
unfolding get_access_token
token_refreshed parse m m' now now' body token d n l t a f f' p h k =
    ground (arith, f, f', p, k, fresh_until parse m m' now now' body token d n l f f' p h)

-- A call that returns an error leaves the mechanism as it was, with the token that it held.
pub failure_keeps :
    (parse : Text → Result (Text × ℤ)) (m m' : KafkaOauthMechanism) (now now' now'' : ℤ)
    (a : Answer) (e : Fault)
    → (get_access_token parse m now m' now' a now'').token ≡ err e
    → (get_access_token parse m now m' now' a now'').mechanism ≡ m'
unfolding get_access_token
failure_keeps parse m m' now now' now'' a e h = ground (arith, h)
