-- ===== src/Limiter/Growth.antt =====
-- What becomes of the growing capacity: the channel was made with the initial capacity.
use synp.Prelude.{ℕ, suc, ◌+◌, ◌≤◌, ◌≡◌, refl, ◌≢◌, some, List, [], ◌∷◌, arith, All}
use synp.Prelude.Int.{ℤ}
use synp.Limiter.{
  TokenLimiterConfig, TokenLimiter, pushing, System, Event, acquires, releases, closes, ticks,
  moves, looks, new_token_limiter, release, close, move, tick, look, step, run,
}
use synp.Limiter.Bounds.{IsSized, issued, fresh, run-IsValid, new_token_limiter-IsValid}
use synp.Limiter.Circulation.{taken, returned, conservation}

step_stalls :
    (s : System) (e : Event) (n : ℕ) (w : ℤ)
    → s.limiter.tokens ≡ s.limiter.chan_cap
    → s.grower ≡ pushing (suc n) w
    → e ≢ acquires
    → ((step s e).limiter.tokens ≡ (step s e).limiter.chan_cap)
      × ((step s e).grower ≡ pushing (suc n) w)
      × ((step s e).limiter.curr_capacity ≡ s.limiter.curr_capacity)
unfolding step
step_stalls s acquires n w full at other = absurd (other refl)
step_stalls s releases n w full at other = unfold release in ground arith
step_stalls s closes n w full at other = unfold close in (full, at, refl)
step_stalls s ticks n w full at other = (full, rw (at, tick), refl)
step_stalls s moves n w full at other = rw at (unfold move in ground arith)
step_stalls s (looks b) n w full at other = (full, rw (at, look), refl)

-- While the channel is full, the growing goroutine waits in the middle of its loop: as long as
-- nobody acquires a token, no release, tick, close or cancelled context moves it, and the capacity
-- stays.
pub growth_stalls :
    (s : System) (es : List Event) (n : ℕ) (w : ℤ)
    → s.limiter.tokens ≡ s.limiter.chan_cap
    → s.grower ≡ pushing (suc n) w
    → All (λ e. e ≢ acquires) es
    → ((run s es).grower ≡ pushing (suc n) w)
      × ((run s es).limiter.curr_capacity ≡ s.limiter.curr_capacity)
unfolding run
growth_stalls s [] n w full at quiet = (at, refl)
growth_stalls s (e ∷ es) n w full at quiet =
    let (full', at', same) = step_stalls s e n w full at quiet.0 in
    let (at'', same') = growth_stalls (step s e) es n w full' at' quiet.1 in
    (at'', cc (same, same'))

-- From a new limiter on, with a configuration whose sums fit an int64: as many of the acquired tokens
-- as were added by growth are not given back, whatever happens.
pub growth_unreturned :
    (init top stride : ℕ) (c : TokenLimiterConfig) (l : TokenLimiter) (es : List Event)
    → IsSized init top stride c
    → new_token_limiter c ≡ some l
    → issued (run (fresh l) es) + returned (fresh l) es ≤ init + taken (fresh l) es
growth_unreturned init top stride c l es z h =
    let v = new_token_limiter-IsValid init top stride c l z h in
    omega (
      arith,
      conservation init top stride c l es z h,
      (run-IsValid init top stride (fresh l) es v).tokens_fit,
    )
