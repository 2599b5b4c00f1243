-- ===== src/Limiter/Bounds.antt =====
-- What the bucket holds, and whom it admits.
use synp.Prelude.{
  ℕ, zero, suc, ◌+◌, ◌-◌, ◌≤◌, ◌<◌, ◌≡◌, ◌↔◌, Bool, true, some, List, [], ◌∷◌, arith, if◌then◌else◌,
  ltb, min,
}
use synp.Prelude.Int.{ℤ, pos, pos_part, ltb_ℤ, leb_ℤ, int64_half, add64-pos, sub64-pos}
use synp.Fault.{ok}
use synp.Limiter.{
  TokenLimiterConfig, TokenLimiter, Grower, waiting, pushing, stopped, System, Event, acquires,
  releases, closes, ticks, moves, looks, new_config, new_token_limiter, acquire, release, close,
  on_tick, move, tick, look, step, run,
}

abbrev pub config_of : ℤ → ℤ → ℤ → ℤ → TokenLimiterConfig
config_of init_capacity max_capacity increase_step increase_interval = record {
  init_capacity = init_capacity;
  max_capacity = max_capacity;
  increase_step = increase_step;
  increase_interval = increase_interval;
}

-- What NewConfig accepts.
pub record IsSound (c : TokenLimiterConfig) : Type 0 where
  pub init_positive : ltb_ℤ (pos 0) c.init_capacity ≡ true
  pub init-le-max : leb_ℤ c.init_capacity c.max_capacity ≡ true
  pub step_positive : ltb_ℤ (pos 0) c.increase_step ≡ true
  pub interval_positive : ltb_ℤ (pos 0) c.increase_interval ≡ true

-- NewConfig returns a configuration exactly when the numbers are sound, and it is the one given.
pub new_config_iff :
    (i m s t : ℤ) (c : TokenLimiterConfig)
    → (new_config i m s t ≡ ok c) ↔ ((c ≡ config_of i m s t) × IsSound (config_of i m s t))
unfolding new_config
new_config_iff i m s t c = ((λ h. ground arith), (λ h. ground arith))

-- The numbers of a configuration, as natural numbers, with int64 sums that do not wrap.
pub record IsSized (init top stride : ℕ) (c : TokenLimiterConfig) : Type 0 where
  pub init_eq : c.init_capacity ≡ pos init
  pub top_eq : c.max_capacity ≡ pos top
  pub stride_eq : c.increase_step ≡ pos stride
  pub fits : init ≤ top
  pub no_overflow : top + stride < int64_half

-- What the growing goroutine is about to do agrees with the capacity `c` that is stored.
abbrev pub Agrees : ℕ → ℕ → Grower → Type 0
Agrees top c waiting = Unit
Agrees top c (pushing n v) = (v ≡ pos (pos_part v)) × (c + n ≤ pos_part v) × (pos_part v ≤ top)
Agrees top c stopped = Unit

pub record IsValid (init top stride : ℕ) (s : System) : Type 0 where
  pub sized : IsSized init top stride s.limiter.cfg
  pub chan : s.limiter.chan_cap ≡ init
  pub tokens_fit : s.limiter.tokens ≤ init
  pub curr_eq : s.limiter.curr_capacity ≡ pos (pos_part s.limiter.curr_capacity)
  pub curr_low : init ≤ pos_part s.limiter.curr_capacity
  pub curr_high : pos_part s.limiter.curr_capacity ≤ top
  pub agrees : Agrees top (pos_part s.limiter.curr_capacity) s.grower

-- The tokens put into circulation so far.
abbrev pub issued : System → ℕ
issued s = elim s.grower [
  | waiting ↦ pos_part s.limiter.curr_capacity
  | pushing n v ↦ pos_part v - n
  | stopped ↦ pos_part s.limiter.curr_capacity
]

-- A tick below the maximum prepares as many sends as the capacity grows by, up to the maximum.
pub on_tick_lem :
    (init top stride : ℕ) (l : TokenLimiter) (c : ℕ)
    → IsSized init top stride l.cfg
    → l.curr_capacity ≡ pos c
    → c ≤ top
    → on_tick l ≡ (
        if ltb c top
        then pushing (min (c + stride) top - c) (pos (min (c + stride) top))
        else stopped)
unfolding on_tick
on_tick_lem init top stride l c z e h =
    rw (e, z.top_eq, z.stride_eq, add64-pos c stride (omega (arith, z.no_overflow)))
      (ground (
        arith,
        sub64-pos (c + stride) c (omega (arith, z.no_overflow)) (omega arith),
        sub64-pos top c (omega (arith, z.no_overflow)) h,
      ))

tick-Agrees :
    (init top stride : ℕ) (l : TokenLimiter) (g : Grower)
    → IsSized init top stride l.cfg
    → l.curr_capacity ≡ pos (pos_part l.curr_capacity)
    → pos_part l.curr_capacity ≤ top
    → Agrees top (pos_part l.curr_capacity) g
    → Agrees top (pos_part l.curr_capacity) (tick l g)
unfolding tick
tick-Agrees init top stride l waiting z e h a =
    rw (on_tick_lem init top stride l (pos_part l.curr_capacity) z e h) (ground arith)
tick-Agrees init top stride l (pushing n v) z e h a = a
tick-Agrees init top stride l stopped z e h a = tt

move-IsValid :
    (init top stride : ℕ) (l : TokenLimiter) (g : Grower)
    → IsValid init top stride (record { limiter = l; grower = g })
    → IsValid init top stride (record { limiter = (move l g).0; grower = (move l g).1 })
unfolding move
move-IsValid init top stride l waiting v = v
move-IsValid init top stride l (pushing zero w) v = ground arith
move-IsValid init top stride l (pushing (suc n) w) v = ground arith
move-IsValid init top stride l stopped v = v

look-Agrees : (top c : ℕ) (b : Bool) (g : Grower) → Agrees top c g → Agrees top c (look b g)
unfolding look
look-Agrees top c b waiting a = ground arith
look-Agrees top c b (pushing n v) a = a
look-Agrees top c b stopped a = a

-- Every event keeps the invariant.
pub step-IsValid :
    (init top stride : ℕ) (s : System) (e : Event)
    → IsValid init top stride s
    → IsValid init top stride (step s e)
unfolding step
step-IsValid init top stride s acquires v = unfold acquire in ground arith
step-IsValid init top stride s releases v = unfold release in ground arith
step-IsValid init top stride s closes v = unfold close in ground arith
step-IsValid init top stride s ticks v = record {
  sized = v.sized;
  chan = v.chan;
  tokens_fit = v.tokens_fit;
  curr_eq = v.curr_eq;
  curr_low = v.curr_low;
  curr_high = v.curr_high;
  agrees = tick-Agrees init top stride s.limiter s.grower v.sized v.curr_eq v.curr_high v.agrees;
}
step-IsValid init top stride s moves v = move-IsValid init top stride s.limiter s.grower v
step-IsValid init top stride s (looks outer) v = record {
  sized = v.sized;
  chan = v.chan;
  tokens_fit = v.tokens_fit;
  curr_eq = v.curr_eq;
  curr_low = v.curr_low;
  curr_high = v.curr_high;
  agrees = look-Agrees top _ _ s.grower v.agrees;
}

-- NewTokenLimiter, with Start about to run, in a sound configuration whose int64 sums do not wrap.
abbrev pub fresh : TokenLimiter → System
fresh l = record { limiter = l; grower = waiting }

pub new_token_limiter-IsValid :
    (init top stride : ℕ) (c : TokenLimiterConfig) (l : TokenLimiter)
    → IsSized init top stride c
    → new_token_limiter c ≡ some l
    → IsValid init top stride (fresh l)
unfolding new_token_limiter
new_token_limiter-IsValid init top stride c l z h = ground arith

-- From a state that satisfies the invariant, whatever calls, ticks and cancellations follow one
-- another, in every order: it holds again, so the channel never
-- holds more tokens than the initial capacity, and the capacity that Cap reports lies between the
-- initial and the maximum one.
pub run-IsValid :
    (init top stride : ℕ) (s : System) (es : List Event)
    → IsValid init top stride s
    → IsValid init top stride (run s es)
unfolding run
run-IsValid init top stride s [] v = v
run-IsValid init top stride s (e ∷ es) v =
    run-IsValid init top stride (step s e) es (step-IsValid init top stride s e v)
