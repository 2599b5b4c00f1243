-- ===== src/Conn/Sending.antt =====
-- Conn.trySend of conn.go: a message is written until it is through, the connection is closed, an
-- error is no timeout, or the retries are used up.
pub mod Retries
use synp.Prelude.{
  ℕ, zero, suc, ◌+◌, ◌≤◌, ◌<◌, ◌≡◌, refl, sym, ◌∙◌, ap, Bool, true, false, Option, none, some,
  arith, if◌then◌else◌, Bool-cases, Option-cases, inl, inr,
}

-- The errors of writer.Write: none, one with netErr.Timeout(), or any other.
pub data Outcome : Type 0 where
  written timed_out broken : Outcome

-- What one round of the loop meets: the context done at its start, what Write returns, and the
-- context done before the pause is over.
pub record Attempt : Type 0 where
  pub done : Bool
  pub outcome : Outcome
  pub done_in_pause : Bool

-- retry.NewExponentialBackoffStrategy of the jit package, as the program relies on it: `none` is the nil
-- strategy that it returns with an error, as for an initial interval above the maximum; a strategy made
-- for a positive number of retries grants at most as many pauses, one less with each.
pub record RetryPackage : Type 1 where
  pub Strategy : Type 0
  pub new_strategy : ℕ → ℕ → ℕ → Option Strategy
  pub next : Strategy → Option (ℕ × Strategy)
  pub left : Strategy → ℕ
  pub left-new :
      (init max count : ℕ) (s : Strategy)
      → 0 < count
      → new_strategy init max count ≡ some s
      → left s ≤ count
  pub left-next : (s s' : Strategy) (pause : ℕ) → next s ≡ some (pause, s') → left s' < left s

-- How trySend ends: it returns true or false, or panics, as Next does on a nil strategy.
pub data Verdict : Type 0 where
  got_through gave_up panicked : Verdict

-- The end of trySend, and how often it wrote.
pub record Sent : Type 0 where
  pub answer : Verdict
  pub writes : ℕ

module _ (retry : RetryPackage) where
  open retry use {Strategy, new_strategy, next}

  -- What Next has answered after a timeout: the next pause, and the loop again, if neither the retries
  -- nor the connection have ended.
  abbrev pub after_timeout :
      (Option Strategy → Option Sent) → Attempt → ℕ → Option (ℕ × Strategy) → Option Sent
  after_timeout again a writes none = some (record { answer = gave_up; writes = writes })
  after_timeout again a writes (some (pause, s)) = elim a.done_in_pause [
    | true ↦ some (record { answer = gave_up; writes = writes })
    | false ↦ again (some s)
  ]

  -- The call of Next after a timeout.
  abbrev pub asked : (Option Strategy → Option Sent) → Attempt → ℕ → Option Strategy → Option Sent
  asked again a writes none = some (record { answer = panicked; writes = writes })
  asked again a writes (some s) = after_timeout again a writes (next s)

  abbrev pub after_write :
      (Option Strategy → Option Sent) → Attempt → ℕ → Option Strategy → Outcome → Option Sent
  after_write again a writes s written = some (record { answer = got_through; writes = writes })
  after_write again a writes s broken = some (record { answer = gave_up; writes = writes })
  after_write again a writes s timed_out = asked again a writes s

  -- The loop, at the round `n`, with fuel; `none` means that the fuel ran out.
  unfoldable pub send_rounds : ℕ → (ℕ → Attempt) → ℕ → Option Strategy → Option Sent
  send_rounds zero script n s = none
  send_rounds (suc fuel) script n s = elim (script n).done [
    | true ↦ some (record { answer = gave_up; writes = n })
    | false ↦
        after_write (λ s'. send_rounds fuel script (suc n) s') (script n) (suc n) s
          (script n).outcome
  ]

  -- trySend with the connection's retry parameters; fuel for each granted pause and a first round. The
  -- error of NewExponentialBackoffStrategy is ignored.
  unfoldable pub try_send : ℕ → ℕ → ℕ → (ℕ → Attempt) → Option Sent
  unfolding send_rounds
  try_send init_interval max_interval max_count script =
      send_rounds (suc max_count) script 0 (new_strategy init_interval max_interval max_count)
