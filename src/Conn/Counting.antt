-- ===== src/Conn/Counting.antt =====
-- A retry strategy for concrete runs of conn.go, in the place of the jit package's.
use synp.Prelude.{if◌then◌else◌, ltb, ◌≤◌, ℕ, zero, suc, ◌≡◌, ◌<◌, Option, none, some, arith}
use synp.Conn.Sending.{RetryPackage}

-- A strategy that grants a number of pauses.
unfoldable pub granted : ℕ → Option (ℕ × ℕ)
granted zero = none
granted (suc n) = some (1000000000, n)

pub granted-less : (s t p : ℕ) → granted s ≡ some (p, t) → t < s
unfolding granted
granted-less zero t p e = cc
granted-less (suc s) t p e = ground arith

-- It grants as many as it was made for.
pub counted :
    (init max count s : ℕ)
    → 0 < count
    → (if ltb max init then none else some count) ≡ some s
    → s ≤ count
counted init max count s h e = ground (arith, e)

abbrev pub counting : RetryPackage
counting = record {
  Strategy = ℕ;
  new_strategy = λ init max count. if ltb max init then none else some count;
  next = granted;
  left = λ s. s;
  left-new = counted;
  left-next = granted-less;
}
