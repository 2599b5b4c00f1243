-- ===== src/Session/Examples.antt =====
-- Two devices of one user, and another user, in a Redis that keeps what it is told.
use synp.Prelude.{◌≡◌, ◌≢◌, refl, true, false, not, some, none, [], if◌then◌else◌}
use synp.Prelude.Text.{Text, codes, text_eq}
use synp.Fault.{Fault, ok, foreign, is, session_exists}
use synp.Redis.{local_redis}
use synp.Session.{User, device_mobile, device_pc, conn_key, session_key}
use synp.Session.Store.{new_session, session_create_lua, build, set, get, destroy, or_empty}
use synp.Session.Lifetime.{create, build_lem, destroy_for_all, get-set}

abbrev phone : User
phone = record { bid = 1; uid = 7; device = device_mobile; auto_close = false }

abbrev desk : User
desk = record { bid = 1; uid = 7; device = device_pc; auto_close = true }

same_user : conn_key phone ≡ conn_key desk
unfolding conn_key
same_user = refl

abbrev script : local_redis.State → Text × local_redis.State
script = session_create_lua local_redis (session_key phone) (codes "sign_in_time") (codes "now")

abbrev signed_in : local_redis.State
signed_in = (script []).1

build_lem_example :
    (build local_redis phone (codes "now") []
      ≡ (ok (new_session phone, not (local_redis.exists [] (session_key phone))), signed_in))
    × (signed_in ≡ create local_redis (session_key phone) (codes "now") [])
    × (local_redis.exists signed_in (session_key phone) ≡ true)
build_lem_example = build_lem local_redis phone (codes "now") (script []).0 [] signed_in refl

destroy_for_all_example :
    (destroy local_redis (new_session phone) signed_in
      ≡ (none, (local_redis.del signed_in (session_key phone)).1))
    × (conn_key phone ≡ conn_key desk
        → local_redis.exists (local_redis.del signed_in (session_key phone)).1 (session_key desk)
          ≡ false)
    × (conn_key phone ≢ conn_key desk
        → local_redis.exists (local_redis.del signed_in (session_key phone)).1 (session_key desk)
          ≡ local_redis.exists signed_in (session_key desk))
destroy_for_all_example =
    destroy_for_all local_redis phone desk signed_in
      (local_redis.del signed_in (session_key phone)).1 refl

abbrev with_token : local_redis.State
with_token = local_redis.hset_cmd signed_in (session_key phone) (codes "token") (codes "t1")

set_token :
    set local_redis (new_session phone) signed_in (codes "token") (codes "t1") ≡ (none, with_token)
unfolding set new_session
set_token = refl

get-set_example :
    get local_redis (new_session desk) with_token (codes "token")
    ≡ or_empty local_redis (
        ok (
          if text_eq (codes "token") (codes "token")
          then some (codes "t1")
          else local_redis.field signed_in (session_key desk) (codes "token")))
get-set_example =
    get-set local_redis phone desk signed_in with_token (codes "token") (codes "token") (codes "t1")
      (local_redis.field with_token (session_key desk) (codes "token")) same_user set_token refl

-- A server that cannot be reached: every call is answered by an error.
abbrev no_answer : Fault
no_answer = foreign (codes "connection refused")

no_answer-is : is no_answer session_exists ≡ false
unfolding is
no_answer-is = refl
