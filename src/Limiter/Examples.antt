-- ===== src/Limiter/Examples.antt =====
-- The limiter with the numbers of DefaultConfig, and with a small bucket.
use synp.Prelude.{◌≡◌, ◌+◌, ◌≤◌, false, true, refl, some, [], ◌∷◌, arith}
use synp.Prelude.Int.{pos}
use synp.Limiter.{
  TokenLimiter, System, pushing, acquires, releases, closes, ticks, moves, looks, default_config,
  new_token_limiter, run,
}
use synp.Limiter.Bounds.{IsSized, IsValid, issued, fresh, run-IsValid, new_token_limiter-IsValid}
use synp.Limiter.Circulation.{taken, returned, admission_bounded}
use synp.Limiter.Growth.{growth_stalls, growth_unreturned}

default_config-IsSized : IsSized 2000 50000 500 default_config
unfolding default_config
default_config-IsSized = record {
  init_eq = refl;
  top_eq = refl;
  stride_eq = refl;
  fits = omega arith;
  no_overflow = omega arith;
}

-- The limiter that NewServer makes.
abbrev server_limiter : TokenLimiter
server_limiter = record {
  cfg = default_config;
  tokens = 2000;
  chan_cap = 2000;
  curr_capacity = pos 2000;
  cancelled = false;
}

server_limiter_eq : new_token_limiter default_config ≡ some server_limiter
unfolding new_token_limiter default_config
server_limiter_eq = refl

run-IsValid_example :
    IsValid 2000 50000 500
      (run (fresh server_limiter) (acquires ∷ ticks ∷ moves ∷ releases ∷ closes ∷ looks false ∷ []))
run-IsValid_example =
    run-IsValid 2000 50000 500 (fresh server_limiter)
      (acquires ∷ ticks ∷ moves ∷ releases ∷ closes ∷ looks false ∷ [])
      (new_token_limiter-IsValid 2000 50000 500 default_config server_limiter default_config-IsSized
        server_limiter_eq)

admission_bounded_example :
    taken (fresh server_limiter) (acquires ∷ acquires ∷ releases ∷ [])
    ≤ 50000 + returned (fresh server_limiter) (acquires ∷ acquires ∷ releases ∷ [])
admission_bounded_example =
    admission_bounded 2000 50000 500 default_config server_limiter
      (acquires ∷ acquires ∷ releases ∷ []) default_config-IsSized server_limiter_eq

growth_unreturned_example :
    issued (run (fresh server_limiter) (acquires ∷ ticks ∷ moves ∷ []))
      + returned (fresh server_limiter) (acquires ∷ ticks ∷ moves ∷ [])
    ≤ 2000 + taken (fresh server_limiter) (acquires ∷ ticks ∷ moves ∷ [])
growth_unreturned_example =
    growth_unreturned 2000 50000 500 default_config server_limiter (acquires ∷ ticks ∷ moves ∷ [])
      default_config-IsSized server_limiter_eq

-- The first tick has come, and nobody has taken a token.
abbrev full_system : System
full_system = record { limiter = server_limiter; grower = pushing 500 (pos 2500) }

growth_stalls_example :
    ((run full_system (releases ∷ moves ∷ looks true ∷ [])).grower ≡ pushing 500 (pos 2500))
    × ((run full_system (releases ∷ moves ∷ looks true ∷ [])).limiter.curr_capacity ≡ pos 2000)
growth_stalls_example =
    growth_stalls full_system (releases ∷ moves ∷ looks true ∷ []) 499 (pos 2500) refl refl
      ((λ e. cc), ((λ e. cc), ((λ e. cc), tt)))
