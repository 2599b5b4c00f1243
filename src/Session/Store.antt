-- ===== src/Session/Store.antt =====
-- internal/pkg/session/redis: the session kept in Redis, its creation by lua/session_create.lua and
-- its builder.
use synp.Prelude.{[], Bool, true, false, Option, none, some, if◌then◌else◌}
use synp.Prelude.Text.{Text, codes, text_eq}
use synp.Fault.{
  Fault, sentinel, join, Result, ok, err, is, session_exists, session_create, session_destroy,
}
use synp.Redis.{Redis}
use synp.Session.Keys.{User, session_key}

-- The field rdb is the section's parameter.
pub record Session : Type 0 where
  pub key : Text
  pub user : User

unfoldable pub new_session : User → Session
new_session user = record { key = session_key user; user = user }

module _ (redis : Redis) where
  open redis use {State, exists, hset_cmd, del, hset, hget, eval}

  -- lua/session_create.lua, with KEYS[1] and the pair of ARGV
  unfoldable pub session_create_lua : Text → Text → Text → State → Text × State
  session_create_lua key field value s =
      if exists s key then ([], s) else (codes "ok", hset_cmd s key field value)

  -- `nil` for redis.Nil is the empty text
  abbrev pub or_empty : Result (Option Text) → Result Text
  or_empty (ok none) = ok []
  or_empty (ok (some v)) = ok v
  or_empty (err e) = err e

  unfoldable pub set : Session → State → Text → Text → Option Fault × State
  set sess s key val = hset s sess.key key val

  unfoldable pub get : Session → State → Text → Result Text
  get sess s key = or_empty (hget s sess.key key)

  abbrev pub destroyed : Option Fault × State → Option Fault × State
  destroyed (none, s) = (none, s)
  destroyed (some e, s) = (some (join (sentinel session_destroy) e), s)

  unfoldable pub destroy : Session → State → Option Fault × State
  destroy sess s = destroyed (del s sess.key)

  abbrev pub saved : Result Text × State → Option Fault × State
  saved (ok res, s) = (if text_eq res (codes "ok") then none else some (sentinel session_exists), s)
  saved (err e, s) = (some (join (sentinel session_create) e), s)

  -- `now` is time.Now().Format(time.RFC3339Nano)
  unfoldable pub save_to_redis : Session → Text → State → Option Fault × State
  unfolding session_create_lua
  save_to_redis sess now s = saved (eval s (session_create_lua sess.key (codes "sign_in_time") now))

  abbrev pub built : Session → Option Fault × State → Result (Session × Bool) × State
  built sess (none, s) = (ok (sess, true), s)
  built sess (some e, s) = (if is e session_exists then ok (sess, false) else err e, s)

  -- SessionBuilder.Build
  unfoldable pub build : User → Text → State → Result (Session × Bool) × State
  unfolding new_session save_to_redis is
  build user now s = let sess = new_session user in built sess (save_to_redis sess now s)
