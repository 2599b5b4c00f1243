-- ===== src/Limiter.antt =====
-- internal/pkg/limiter/token_limiter.go: the token bucket that admits connections.
-- The channel `tokens` is its number of elements and its capacity. The goroutine of Start is a
-- state of its own, which moves by the steps between which other goroutines may run: a tick of the
-- timer, each send on the channel, the store of the new capacity, a cancelled context.
pub mod Bounds
pub mod Circulation
pub mod Growth
mod Examples
use synp.Prelude.{
  ℕ, suc, zero, ◌+◌, ◌-◌, Bool, true, false, Option, none, some, List, [], ◌∷◌, if◌then◌else◌, ltb,
  ◌||◌,
}
use synp.Prelude.Int.{ℤ, pos, pos_part, ltb_ℤ, leb_ℤ, add64, sub64}
use synp.Fault.{Result, ok, err, foreign}
use synp.Prelude.Text.{codes}

-- The fields are int64; a duration counts nanoseconds.
pub record TokenLimiterConfig : Type 0 where
  pub init_capacity : ℤ
  pub max_capacity : ℤ
  pub increase_step : ℤ
  pub increase_interval : ℤ

unfoldable pub default_config : TokenLimiterConfig
default_config = record {
  init_capacity = pos 2000;
  max_capacity = pos 50000;
  increase_step = pos 500;
  increase_interval = pos 2000000000;
}

unfoldable pub new_config : ℤ → ℤ → ℤ → ℤ → Result TokenLimiterConfig
new_config init_capacity max_capacity increase_step increase_interval =
    if leb_ℤ init_capacity (pos 0)
    then err (foreign (codes "init capacity must be greater than 0"))
    else if leb_ℤ max_capacity (pos 0)
    then err (foreign (codes "max capacity must be greater than 0"))
    else if ltb_ℤ max_capacity init_capacity
    then err (foreign (codes "init capacity must be less than max capacity"))
    else if leb_ℤ increase_step (pos 0)
    then err (foreign (codes "increase step must be greater than 0"))
    else if leb_ℤ increase_interval (pos 0)
    then err (foreign (codes "increase interval must be greater than 0"))
    else ok (record {
      init_capacity = init_capacity;
      max_capacity = max_capacity;
      increase_step = increase_step;
      increase_interval = increase_interval;
    })

pub record TokenLimiter : Type 0 where
  pub cfg : TokenLimiterConfig
  -- The elements of the channel, and its capacity.
  pub tokens : ℕ
  pub chan_cap : ℕ
  pub curr_capacity : ℤ
  -- The inner context has been cancelled.
  pub cancelled : Bool

-- make(chan struct{}, n) panics at a negative n, which is `none`. The loop fills the channel.
unfoldable pub new_token_limiter : TokenLimiterConfig → Option TokenLimiter
new_token_limiter cfg =
    if ltb_ℤ cfg.init_capacity (pos 0)
    then none
    else some (record {
      cfg = cfg;
      tokens = pos_part cfg.init_capacity;
      chan_cap = pos_part cfg.init_capacity;
      curr_capacity = cfg.init_capacity;
      cancelled = false;
    })

unfoldable pub acquire : TokenLimiter → TokenLimiter × Bool
acquire l = if ltb 0 l.tokens then (record l { tokens = l.tokens - 1 }, true) else (l, false)

unfoldable pub release : TokenLimiter → TokenLimiter × Bool
release l =
    if ltb l.tokens l.chan_cap then (record l { tokens = l.tokens + 1 }, true) else (l, false)

unfoldable pub close : TokenLimiter → TokenLimiter
close l = record l { cancelled = true }

unfoldable pub cap : TokenLimiter → ℤ
cap l = l.curr_capacity

-- Where the goroutine of Start stands: in its select, in the loop with some sends left before the
-- capacity is stored, or returned.
pub data Grower : Type 0 where
  waiting : Grower
  pushing : ℕ → ℤ → Grower
  stopped : Grower

unfoldable pub min_ℤ : ℤ → ℤ → ℤ
min_ℤ a b = if ltb_ℤ a b then a else b

-- The branch `case <-ticker.C`, up to the loop. `range n` makes no round for a negative n.
unfoldable pub on_tick : TokenLimiter → Grower
unfolding min_ℤ
on_tick l =
    let curr = l.curr_capacity in
    let new_cap = min_ℤ (add64 curr l.cfg.increase_step) l.cfg.max_capacity in
    if leb_ℤ l.cfg.max_capacity curr
    then stopped
    else pushing (pos_part (sub64 new_cap curr)) new_cap

pub record System : Type 0 where
  pub limiter : TokenLimiter
  pub grower : Grower

-- What the goroutines do next: a call of a method, the timer, one move of Start's loop, or a look
-- at the contexts, with the outer one cancelled or not.
pub data Event : Type 0 where
  acquires releases closes ticks moves : Event
  looks : Bool → Event

-- One move of the loop: a send, which waits while the channel is full, or the store at its end.
unfoldable pub move : TokenLimiter → Grower → TokenLimiter × Grower
move l waiting = (l, waiting)
move l (pushing zero new_cap) = (record l { curr_capacity = new_cap }, waiting)
move l (pushing (suc n) new_cap) =
    if ltb l.tokens l.chan_cap
    then (record l { tokens = l.tokens + 1 }, pushing n new_cap)
    else (l, pushing (suc n) new_cap)
move l stopped = (l, stopped)

-- The select of Start sees the timer, or a context that is done, only while it waits there.
unfoldable pub tick : TokenLimiter → Grower → Grower
unfolding on_tick
tick l waiting = on_tick l
tick l (pushing n new_cap) = pushing n new_cap
tick l stopped = stopped

unfoldable pub look : Bool → Grower → Grower
look done waiting = if done then stopped else waiting
look done (pushing n new_cap) = pushing n new_cap
look done stopped = stopped

unfoldable pub step : System → Event → System
unfolding acquire release close tick look move
step s acquires = record s { limiter = (acquire s.limiter).0 }
step s releases = record s { limiter = (release s.limiter).0 }
step s closes = record s { limiter = close s.limiter }
step s ticks = record s { grower = tick s.limiter s.grower }
step s moves = let (l, g) = move s.limiter s.grower in record { limiter = l; grower = g }
step s (looks outer) = record s { grower = look (outer || s.limiter.cancelled) s.grower }

unfoldable pub run : System → List Event → System
run s [] = s
run s (e ∷ es) = run (step s e) es
