-- ===== src/Limiter/Circulation.antt =====
-- Where the tokens are: in the channel, or with those who acquired one and did not give it back.
use synp.Prelude.{
  ℕ, zero, suc, ◌+◌, ◌≤◌, ◌≡◌, refl, Bool, some, List, [], ◌∷◌, arith, if◌then◌else◌,
}
use synp.Prelude.Int.{pos_part}
use synp.Limiter.{
  TokenLimiterConfig, TokenLimiter, Grower, waiting, pushing, stopped, System, Event, acquires,
  releases, closes, ticks, moves, looks, new_token_limiter, acquire, release, close, move, tick,
  look, step, run,
}
use synp.Limiter.Bounds.{
  IsSized, IsValid, issued, fresh, step-IsValid, run-IsValid, new_token_limiter-IsValid,
  on_tick_lem,
}

-- Acquire succeeds at this event; Release does.
abbrev pub got : System → Event → ℕ
got s acquires = if (acquire s.limiter).1 then 1 else 0
got s _ = 0

abbrev pub gave : System → Event → ℕ
gave s releases = if (release s.limiter).1 then 1 else 0
gave s _ = 0

-- How often they do along a run.
pub taken : System → List Event → ℕ
taken s [] = 0
taken s (e ∷ es) = got s e + taken (step s e) es

pub returned : System → List Event → ℕ
returned s [] = 0
returned s (e ∷ es) = gave s e + returned (step s e) es

tick-issued :
    (init top stride : ℕ) (l : TokenLimiter) (g : Grower)
    → IsValid init top stride (record { limiter = l; grower = g })
    → issued (record { limiter = l; grower = tick l g })
      ≡ issued (record { limiter = l; grower = g })
unfolding tick
tick-issued init top stride l waiting v =
    rw (on_tick_lem init top stride l (pos_part l.curr_capacity) v.sized v.curr_eq v.curr_high)
      (ground arith)
tick-issued init top stride l (pushing n w) v = refl
tick-issued init top stride l stopped v = refl

move-issued :
    (init top stride : ℕ) (l : TokenLimiter) (g : Grower)
    → IsValid init top stride (record { limiter = l; grower = g })
    → (move l g).0.tokens + issued (record { limiter = l; grower = g })
      ≡ l.tokens + issued (record { limiter = (move l g).0; grower = (move l g).1 })
unfolding move
move-issued init top stride l waiting v = refl
move-issued init top stride l (pushing zero w) v = ground arith
move-issued init top stride l (pushing (suc n) w) v = ground arith
move-issued init top stride l stopped v = refl

look-issued :
    (l : TokenLimiter) (b : Bool) (g : Grower)
    → issued (record { limiter = l; grower = look b g })
      ≡ issued (record { limiter = l; grower = g })
unfolding look
look-issued l b waiting = ground arith
look-issued l b (pushing n v) = refl
look-issued l b stopped = refl

step_balance :
    (init top stride : ℕ) (s : System) (e : Event)
    → IsValid init top stride s
    → (step s e).limiter.tokens + got s e + issued s
      ≡ s.limiter.tokens + gave s e + issued (step s e)
unfolding step
step_balance init top stride s acquires v = unfold acquire in ground arith
step_balance init top stride s releases v = unfold release in ground arith
step_balance init top stride s closes v = unfold close in refl
step_balance init top stride s ticks v =
    omega (arith, tick-issued init top stride s.limiter s.grower v)
step_balance init top stride s moves v =
    omega (arith, move-issued init top stride s.limiter s.grower v)
step_balance init top stride s (looks b) v = omega (arith, look-issued s.limiter _ s.grower)

run_balance :
    (init top stride : ℕ) (s : System) (es : List Event)
    → IsValid init top stride s
    → (run s es).limiter.tokens + taken s es + issued s
      ≡ s.limiter.tokens + returned s es + issued (run s es)
unfolding run taken returned
run_balance init top stride s [] v = omega arith
run_balance init top stride s (e ∷ es) v = omega (
  arith,
  step_balance init top stride s e v,
  run_balance init top stride (step s e) es (step-IsValid init top stride s e v),
)

issued-le-top : (init top stride : ℕ) (s : System) → IsValid init top stride s → issued s ≤ top
issued-le-top init top stride s v = ground arith

-- From a new limiter on, with a configuration whose sums fit an int64, whatever happens: the tokens
-- in the channel and those acquired are the tokens put into circulation and those returned.
pub conservation :
    (init top stride : ℕ) (c : TokenLimiterConfig) (l : TokenLimiter) (es : List Event)
    → IsSized init top stride c
    → new_token_limiter c ≡ some l
    → (run (fresh l) es).limiter.tokens + taken (fresh l) es
      ≡ issued (run (fresh l) es) + returned (fresh l) es
unfolding new_token_limiter
conservation init top stride c l es z h =
    let v = new_token_limiter-IsValid init top stride c l z h in
    omega (arith, run_balance init top stride (fresh l) es v, start)
  where
    start : l.tokens ≡ pos_part l.curr_capacity
    start = ground arith

-- From a new limiter on, with a configuration whose sums fit an int64, whatever happens: at most the
-- maximum capacity of tokens is acquired and not given back.
pub admission_bounded :
    (init top stride : ℕ) (c : TokenLimiterConfig) (l : TokenLimiter) (es : List Event)
    → IsSized init top stride c
    → new_token_limiter c ≡ some l
    → taken (fresh l) es ≤ top + returned (fresh l) es
admission_bounded init top stride c l es z h =
    let v = new_token_limiter-IsValid init top stride c l z h in
    omega (
      arith,
      conservation init top stride c l es z h,
      issued-le-top init top stride (run (fresh l) es) (run-IsValid init top stride (fresh l) es v),
    )
