-- ===== src/Session/Lifetime.antt =====
-- The life of a session in Redis: made once for a user, on whatever device, and destroyed for all.
use synp.Prelude.{◌≡◌, ◌∙◌, ap, ◌≢◌, true, false, not, Option, none, some, arith, if◌then◌else◌}
use synp.Prelude.Text.{Text, codes, text_eq, text_eq_iff, text_eq_refl}
use synp.Fault.{Fault, sentinel, join, Result, ok, err, is, session_exists, session_create}
use synp.Redis.{Redis}
use synp.Session.Keys.{User, session_key, conn_key, session_key_iff}
use synp.Session.Store.{
  new_session, session_create_lua, set, get, destroy, destroyed, saved, build, built, or_empty,
}

module _ (redis : Redis) where
  open redis use {
    State, exists, field, hset_cmd, del, hset, hget, eval, eval-ok, del-ok, hset-ok, hget-ok,
    exists-hset_cmd, field-hset_cmd,
  }

  -- What the script does: nothing where the key is there, and otherwise it makes the key.
  abbrev pub create : Text → Text → State → State
  create key now s = if exists s key then s else hset_cmd s key (codes "sign_in_time") now

  build-eval :
      (user : User) (now : Text) (s : State) (p : Result Text × State)
      → eval s (session_create_lua redis (session_key user) (codes "sign_in_time") now) ≡ p
      → build redis user now s ≡ built redis (new_session user) (saved redis p)
  unfolding build
  build-eval user now s p e = ap (λ q. built redis (new_session user) (saved redis q)) e

  -- Build returns the user's session and whether it is new, if Redis answers the script: it is new
  -- exactly when the user had none, and only then Redis changes; afterwards the user has one.
  pub build_lem :
      (user : User) (now r : Text) (s t : State)
      → eval s (session_create_lua redis (session_key user) (codes "sign_in_time") now) ≡ (ok r, t)
      → (build redis user now s ≡ (ok (new_session user, not (exists s (session_key user))), t))
        × (t ≡ create (session_key user) now s)
        × (exists t (session_key user) ≡ true)
  unfolding session_create_lua text_eq is
  build_lem user now r s t e = ground (
    arith,
    eval-ok s t (session_create_lua redis (session_key user) (codes "sign_in_time") now) r e,
    build-eval user now s (ok r, t) e,
    exists-hset_cmd s (session_key user) (codes "sign_in_time") now (session_key user),
    text_eq_refl (session_key user),
  )

  -- If Redis does not answer the script, Build returns an error that says so.
  pub build-err :
      (user : User) (now : Text) (s t : State) (x : Fault)
      → eval s (session_create_lua redis (session_key user) (codes "sign_in_time") now) ≡ (err x, t)
      → is x session_exists ≡ false
      → build redis user now s ≡ (err (join (sentinel session_create) x), t)
  unfolding is
  build-err user now s t x e h = ground (arith, build-eval user now s (err x, t) e, h)

  -- A user has a session in Redis, and one of his devices destroys it: no device of his has one
  -- left, and the next Build makes a new one. Every other user keeps his.
  pub destroy_for_all :
      (u v : User) (s t : State)
      → del s (session_key u) ≡ (none, t)
      → ((destroy redis (new_session u) s) ≡ (none, t))
        × (conn_key u ≡ conn_key v → exists t (session_key v) ≡ false)
        × (conn_key u ≢ conn_key v → exists t (session_key v) ≡ exists s (session_key v))
  unfolding destroy new_session
  destroy_for_all u v s t e =
      let gone = del-ok s t (session_key u) e (session_key v) in
      (
        ap (destroyed redis) e,
        (λ same. ground (
          arith,
          gone,
          text_eq_iff (session_key u) (session_key v),
          (session_key_iff u v).1 same,
        )),
        (λ other.
            ground (arith, gone, text_eq_iff (session_key u) (session_key v), other_key other)),
      )
    where
      other_key : conn_key u ≢ conn_key v → session_key u ≢ session_key v
      other_key other = λ e. other ((session_key_iff u v).0 e)

  -- A value that was set is what Get returns, whatever session of the user asks; a field that was
  -- not set reads as before.
  pub get-set :
      (u v : User) (s t : State) (f g val : Text) (o : Option Text)
      → conn_key u ≡ conn_key v
      → set redis (new_session u) s f val ≡ (none, t)
      → hget t (session_key v) g ≡ ok o
      → get redis (new_session v) t g
        ≡ or_empty redis (ok (if text_eq f g then some val else field s (session_key v) g))
  unfolding set get new_session
  get-set u v s t f g val o same w r =
      let key : session_key u ≡ session_key v = (session_key_iff u v).1 same in
      let made : t ≡ hset_cmd s (session_key v) f val =
        hset-ok s t (session_key v) f val (rw (← key) w) in
      ap (or_empty redis) (
        r
        ∙ ap ok
            (hget-ok t (session_key v) g o r ∙ rw made (field-hset_cmd s (session_key v) f val g)))
