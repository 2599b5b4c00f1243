-- ===== src/Prelude/Word.antt =====
-- The counters of sync/atomic as their bits: Add(1), and Add(-n).
use Prim.Native.Nat.{ℕ, ◌+◌, ◌-◌, ◌%◌}

abbrev pub word64 : ℕ
word64 = 18446744073709551616

abbrev pub add_one64 : ℕ → ℕ
add_one64 n = (n + 1) % word64

abbrev pub sub64 : ℕ → ℕ → ℕ
sub64 n k = (n + word64 - k % word64) % word64

abbrev pub word32 : ℕ
word32 = 4294967296

abbrev pub add_one32 : ℕ → ℕ
add_one32 n = (n + 1) % word32
