-- ===== src/Upgrader/Accepted.antt =====
-- What a successful upgrade says of the token, the device and the headers.
use synp.Prelude.{
  ◌≡◌, refl, sym, ap, ◌∙◌, ◌↔◌, Bool, false, Option, none, some, List, [], ◌∷◌, arith,
  if◌then◌else◌,
}
use mathlib.Core.List.{foldl}
use synp.Prelude.Text.{Text, codes, text_eq}
use synp.Fault.{Fault, Result, ok, err}
use synp.Redis.{Redis}
use synp.Session.{User, device_unknown}
use synp.Session.Store.{Session, new_session, build, built, save_to_redis}
use synp.Compression
use synp.Upgrader.{
  Inputs, validate, extract_token, known_device, extract_device, extract_user_info, WsPackage,
  Handshake, requested, on_request, on_header, session_made, on_before_upgrade, upgraded, upgrade,
  offer, fresh, agreed, negotiated,
}

-- A user that the query and the token give: its device is the query's if that is one of the three
-- that are known.
pub record IsUserOf (inputs : Inputs) (get : Text → Text) (user : User) : Type 0 where
  pub has_token : text_eq (get (codes "token")) [] ≡ false
  pub claims : inputs.decrypt (get (codes "token")) ≡ ok (user.bid, user.uid)
  pub device_known : user.device ≡ known_device inputs (get (codes "device"))
  pub stays_open : user.auto_close ≡ false

device_named :
    (inputs : Inputs) (d : Text)
    → (if text_eq d [] then device_unknown else known_device inputs d) ≡ known_device inputs d
unfolding text_eq
device_named inputs [] = refl
device_named inputs (x ∷ xs) = refl

-- A URI gives a user exactly when it parses, has a token, and the token's claims are the user's; the
-- device is the one that the query names, if that is a known one, and unknown otherwise.
pub extract_user_info_iff :
    (inputs : Inputs) (uri : Text) (get : Text → Text) (user : User)
    → inputs.query uri ≡ some get
    → (extract_user_info inputs uri ≡ ok user) ↔ IsUserOf inputs get user
unfolding extract_user_info extract_token extract_device validate
extract_user_info_iff inputs uri get user q =
    let named = device_named inputs (get (codes "device")) in
    (
      (λ h. ground (arith, q, named)),
      (λ h. ground (arith, q, named, h.has_token, h.claims, h.device_known, h.stays_open)),
    )

-- The value of the last header that is named so, or the value before.
abbrev pub auto_close_in : Inputs → Bool → List (Text × Text) → Bool
auto_close_in inputs b [] = b
auto_close_in inputs b ((key, value) ∷ rest) =
    auto_close_in inputs
      (if inputs.equal_fold key (codes "x-auto-close") then text_eq value (codes "true") else b)
      rest

module _ (inputs : Inputs) (redis : Redis) where
  -- The headers change the flag alone.
  headers_read :
      (headers : List (Text × Text)) (h : Handshake inputs redis)
      → foldl (λ u p. on_header inputs redis p.0 p.1 u) h headers
        ≡ record h { auto_close = auto_close_in inputs h.auto_close headers }
  unfolding on_header
  headers_read [] h = refl
  headers_read ((key, value) ∷ rest) h =
      ground (arith, headers_read rest (on_header inputs redis key value h))

  built-user :
      (user : User) (now : Text) (s t : redis.State) (sess : Session) (is_new : Bool)
      → build redis user now s ≡ (ok (sess, is_new), t)
      → sess ≡ new_session user
  unfolding build
  built-user user now s t sess is_new e = go (save_to_redis redis (new_session user) now s) e
    where
      go :
          (p : Option Fault × redis.State)
          → built redis (new_session user) p ≡ (ok (sess, is_new), t)
          → sess ≡ new_session user
      go (none, u) f = cc
      go (some x, u) f = ground arith

  before-sess :
      (now : Text) (g h : Handshake inputs redis)
      → on_before_upgrade inputs redis now g ≡ (none, h)
      → h.sess ≡ some (new_session (record g.user { auto_close = g.auto_close }))
  unfolding on_before_upgrade
  before-sess now g h e =
      let user = record g.user { auto_close = g.auto_close } in
      go (build redis user now g.state) refl e
    where
      go :
          (p : Result (Session × Bool) × redis.State)
          → build redis (record g.user { auto_close = g.auto_close }) now g.state ≡ p
          → session_made inputs redis
              (record g { user = record g.user { auto_close = g.auto_close } })
              p
            ≡ (none, h)
          → h.sess ≡ some (new_session (record g.user { auto_close = g.auto_close }))
      go (err x, t) b f = cc
      go (ok (sess, is_new), t) b f = ground (
        arith,
        f,
        built-user (record g.user { auto_close = g.auto_close }) now g.state t sess is_new b,
      )

  module _ (ws : WsPackage) where
    -- What a session and a compression state that Upgrade returned say of the request.
    pub record IsAccepted (cfg : Compression.Config) (r : ws.Request) (sess : Option Session)
        (c : Compression.State) : Type 0 where
      pub user : User
      pub extracted : extract_user_info inputs (ws.uri r) ≡ ok user
      pub made :
          sess
          ≡ some
              (new_session (record user { auto_close = auto_close_in inputs false (ws.headers r) }))
      pub compressed :
          c ≡ negotiated inputs redis ws (agreed inputs redis ws r (offer inputs redis ws cfg))

    -- If Upgrade returns a session, the URI of the request gave a user, and the session is his, with
    -- the flag of the last header x-auto-close; the compression is what was agreed on, or off.
    pub upgrade-IsAccepted :
        (cfg : Compression.Config) (now : Text) (r : ws.Request) (s t : redis.State)
        (sess : Option Session) (c : Compression.State)
        → upgrade inputs redis ws cfg now r s ≡ (ok (sess, c), t)
        → IsAccepted cfg r sess c
    unfolding upgrade
    upgrade-IsAccepted cfg now r s t sess c e =
        go
          (ws.upgrade r (offer inputs redis ws cfg) (on_request inputs redis)
            (on_header inputs redis) (on_before_upgrade inputs redis now) (fresh inputs redis ws s))
          refl e
      where
        by_user :
            (u : Result User) (h : Handshake inputs redis)
            → extract_user_info inputs (ws.uri r) ≡ u
            → (requested inputs redis (fresh inputs redis ws s) u).0 ≡ none
            → on_before_upgrade inputs redis now (
                foldl
                  (λ g p. on_header inputs redis p.0 p.1 g)
                  (requested inputs redis (fresh inputs redis ws s) u).1
                  (ws.headers r))
              ≡ (none, h)
            → sess ≡ h.sess
            → c ≡ negotiated inputs redis ws (agreed inputs redis ws r (offer inputs redis ws cfg))
            → IsAccepted cfg r sess c
        by_user (err x) h f n b p q = cc
        by_user (ok user) h f n b p q = record {
          user = user;
          extracted = f;
          made =
              p
              ∙ before-sess now
                  (record (requested inputs redis (fresh inputs redis ws s) (ok user)).1 {
                    auto_close = auto_close_in inputs false (ws.headers r);
                  })
                  h
                  (ap (λ g. on_before_upgrade inputs redis now g)
                      (sym (
                        headers_read (ws.headers r)
                          (requested inputs redis (fresh inputs redis ws s) (ok user)).1))
                    ∙ b);
          compressed = q;
        }

        go :
            (p : Option Fault × Handshake inputs redis)
            → ws.upgrade r
                (offer inputs redis ws cfg)
                (on_request inputs redis)
                (on_header inputs redis)
                (on_before_upgrade inputs redis now)
                (fresh inputs redis ws s)
              ≡ p
            → upgraded inputs redis ws r (offer inputs redis ws cfg) p ≡ (ok (sess, c), t)
            → IsAccepted cfg r sess c
        go (some x, h) w f = cc
        go (none, h) w f =
            let calls =
              ws.upgrade-ok r (offer inputs redis ws cfg) (on_request inputs redis)
                (on_header inputs redis) (on_before_upgrade inputs redis now)
                (fresh inputs redis ws s) h w in
            unfold on_request in
            by_user (extract_user_info inputs (ws.uri r)) h refl calls.0 calls.1 (ground (arith, f))
              (ground (arith, f))
