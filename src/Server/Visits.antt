-- ===== src/Server/Visits.antt =====
-- The deferred calls of handleConn.
use synp.Prelude.{
  ℕ, ◌+◌, ◌≡◌, refl, Bool, true, false, ◌&&◌, Option, none, some, List, [], ◌∷◌, ◌++◌, arith,
  if◌then◌else◌,
}
use synp.Prelude.Text.{Text}
use synp.Fault.{Fault}
use synp.Server.{
  Step, upgrades, makes, connects, disconnects, removes, closes, closes_net, releases, receives,
  Arrival, message, channel_closed, closed, server_closed, Visit, Progress, serve, deferring,
  connecting, making, upgrading, handle_conn,
}

abbrev pub is_none : Option Fault → Bool
is_none none = true
is_none (some e) = false

-- How often the token is given back, the connection is removed, and OnDisconnect is called.
abbrev pub is_release : Step → ℕ
is_release releases = 1
is_release _ = 0

abbrev pub is_remove : Step → ℕ
is_remove removes = 1
is_remove _ = 0

abbrev pub is_disconnect : Step → ℕ
is_disconnect disconnects = 1
is_disconnect _ = 0

pub count : (Step → ℕ) → List Step → ℕ
count f [] = 0
count f (s ∷ ss) = f s + count f ss

count-append : (f : Step → ℕ) (ss ts : List Step) → count f (ss ++ ts) ≡ count f ss + count f ts
unfolding count
count-append f [] ts = omega arith
count-append f (s ∷ ss) ts = omega (arith, count-append f ss ts)

-- The loop itself makes none of the deferred calls.
count-serve :
    (f : Step → ℕ) (arrivals : List Arrival)
    → ((p : Text) → f (receives p) ≡ 0)
    → count f (serve arrivals).steps ≡ 0
unfolding serve count
count-serve f [] h = refl
count-serve f (message p e ∷ rest) h = ground (arith, h p, count-serve f rest h)
count-serve f (channel_closed ∷ rest) h = refl
count-serve f (closed ∷ rest) h = refl
count-serve f (server_closed ∷ rest) h = refl

abbrev pub once : Bool → ℕ
once b = if b then 1 else 0

count-deferring :
    (f : Step → ℕ) (ds : List Step) (p : Progress)
    → count f (deferring ds p).steps ≡ count f p.steps + (if p.returned then count f ds else 0)
count-deferring f ds p = ground (arith, count-append f p.steps ds)

deferring-returned : (ds : List Step) (p : Progress) → (deferring ds p).returned ≡ p.returned
deferring-returned ds p = ground arith

connecting-count :
    (f : Step → ℕ) (arrivals : List Arrival) (e : Option Fault)
    → ((p : Text) → f (receives p) ≡ 0)
    → f connects ≡ 0
    → count f (connecting arrivals e).steps
      ≡ (if is_none e && (connecting arrivals e).returned then f disconnects else 0)
unfolding count
connecting-count f arrivals (some x) h c = omega (arith, c)
connecting-count f arrivals none h c =
    ground
      (arith, c, count-deferring f (disconnects ∷ []) (serve arrivals), count-serve f arrivals h)

making-count :
    (f : Step → ℕ) (v : Visit) (b : Bool)
    → ((p : Text) → f (receives p) ≡ 0)
    → f connects ≡ 0
    → f makes ≡ 0
    → count f (making v b).steps ≡ (
        if b && (making v b).returned
        then (if is_none v.on_connect then f disconnects else 0) + (f removes + f closes)
        else 0)
unfolding count
making-count f v false h c m = omega (arith, m)
making-count f v true h c m = ground (
  arith,
  c,
  m,
  count-deferring f (removes ∷ closes ∷ []) (connecting v.arrivals v.on_connect),
  connecting-count f v.arrivals v.on_connect h c,
)

upgrading-count :
    (f : Step → ℕ) (v : Visit) (b : Bool)
    → ((p : Text) → f (receives p) ≡ 0)
    → f connects ≡ 0
    → f makes ≡ 0
    → f upgrades ≡ 0
    → count f (upgrading v b).steps ≡ (
        if (b && v.made) && (upgrading v b).returned
        then (if is_none v.on_connect then f disconnects else 0) + (f removes + f closes)
        else 0)
unfolding count
upgrading-count f v false h c m u = omega (arith, u)
upgrading-count f v true h c m u = ground (arith, u, making-count f v v.made h c m)

cleanup_count :
    (f : Step → ℕ) (v : Visit)
    → ((p : Text) → f (receives p) ≡ 0)
    → f connects ≡ 0
    → f makes ≡ 0
    → f upgrades ≡ 0
    → count f (handle_conn v).steps ≡ (
        if (handle_conn v).returned
        then (if v.upgraded && v.made
            then (if is_none v.on_connect then f disconnects else 0) + (f removes + f closes)
            else 0)
          + (f closes_net + f releases)
        else 0)
unfolding handle_conn count
cleanup_count f v h c m u = ground (
  arith,
  count-deferring f (closes_net ∷ releases ∷ []) (upgrading v v.upgraded),
  upgrading-count f v v.upgraded h c m u,
)

-- When handleConn has returned, and not before: the token has been given back once, whatever
-- happened; the connection has been removed from the manager once if it was made, and OnDisconnect
-- was called once if OnConnect had succeeded, and neither otherwise.
pub handle_conn_cleanup :
    (v : Visit)
    → let p = handle_conn v in
      (count is_release p.steps ≡ once p.returned)
      × (count is_remove p.steps ≡ once (p.returned && (v.upgraded && v.made)))
      × (count is_disconnect p.steps
          ≡ once (p.returned && (v.upgraded && (v.made && is_none v.on_connect))))
handle_conn_cleanup v = (
  ground (arith, cleanup_count is_release v (λ p. refl) refl refl refl),
  ground (arith, cleanup_count is_remove v (λ p. refl) refl refl refl),
  ground (arith, cleanup_count is_disconnect v (λ p. refl) refl refl refl),
)
