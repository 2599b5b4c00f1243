-- ===== src/Server/Admission.antt =====
-- The tokens of the limiter while connections are accepted.
use synp.Prelude.{◌+◌, ◌≤◌, ◌≡◌, true, false, List, [], ◌∷◌, arith, Bool-cases, inl, inr}
use synp.Limiter.{TokenLimiter, acquire, release}
use synp.Server.{Reply, connected, listener_closed, failed, Turn, Admitted, replied, accept_conn}

acquired :
    (l : TokenLimiter)
    → (acquire l).1 ≡ true
    → ((acquire l).0.tokens + 1 ≡ l.tokens) × ((acquire l).0.chan_cap ≡ l.chan_cap)
unfolding acquire
acquired l h = ground arith

refused : (l : TokenLimiter) → (acquire l).1 ≡ false → (acquire l).0 ≡ l
unfolding acquire
refused l h = ground arith

given_back :
    (l : TokenLimiter)
    → l.tokens + 1 ≤ l.chan_cap
    → ((release l).0.tokens ≡ l.tokens + 1) × ((release l).0.chan_cap ≡ l.chan_cap)
unfolding release
given_back l h = ground arith

replied-balance :
    (again : TokenLimiter → Admitted) (l : TokenLimiter) (r : Reply)
    → l.tokens + 1 ≤ l.chan_cap
    → ((l' : TokenLimiter)
        → l'.tokens ≤ l'.chan_cap
        → (again l').limiter.tokens + (again l').handled ≡ l'.tokens)
    → (replied again l r).limiter.tokens + (replied again l r).handled ≡ l.tokens + 1
replied-balance again l connected h ih = omega (arith, ih l (omega arith))
replied-balance again l listener_closed h ih = omega (arith, given_back l h)
replied-balance again l failed h ih =
    let back = given_back l h in omega (arith, back, ih (release l).0 (omega (arith, back)))

-- Each connection that is handed on holds one token, and no other token is missing: a listener that
-- fails, or is closed, costs none.
pub accept_conn_balance :
    (ts : List Turn) (l : TokenLimiter)
    → l.tokens ≤ l.chan_cap
    → (accept_conn ts l).limiter.tokens + (accept_conn ts l).handled ≡ l.tokens
unfolding accept_conn
accept_conn_balance [] l h = omega arith
accept_conn_balance (t ∷ ts) l h = elim (Bool-cases t.accept_new_conn) [
  | inr n ↦ rw (n, accept_conn) (omega arith)
  | inl y ↦ elim (Bool-cases (acquire l).1) [
    | inr n ↦ rw (y, accept_conn, n, refused l n) (accept_conn_balance ts l h)
    | inl a ↦
        let got = acquired l a in
        rw (y, accept_conn, a)
          (omega (
            arith,
            got,
            replied-balance (λ l'. accept_conn ts l') (acquire l).0 t.reply (omega (arith, got))
                (λ l' h'. accept_conn_balance ts l' h'),
          ))
  ]
]
