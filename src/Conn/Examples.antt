-- ===== src/Conn/Examples.antt =====
-- A connection whose writes meet timeouts, and one that is closed twice.
use synp.Prelude.{refl, ℕ, false, ltb, if◌then◌else◌, arith}
use synp.Conn.Counting.{counting}
use synp.Conn.Sending.{Attempt, written, timed_out, try_send}
use synp.Conn.Sending.Retries.{Ends, try_send-Ends}

-- The second write gets through.
abbrev slow : ℕ → Attempt
slow n = record {
  done = false;
  outcome = if ltb n 1 then timed_out else written;
  done_in_pause = false;
}

try_send-Ends_example : Ends slow 3 (try_send counting 1000000000 5000000000 3 slow)
try_send-Ends_example = try_send-Ends counting 1000000000 5000000000 3 3 slow refl (omega arith)
