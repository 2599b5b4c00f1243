-- ===== src/Conn/Sending/Retries.antt =====
-- How often trySend writes, and what its answer means.
use synp.Prelude.{
  subst, ℕ, zero, suc, ◌+◌, ◌≤◌, ◌<◌, ◌==◌, ◌≡◌, ◌↔◌, ◌⊎◌, refl, sym, ap, ◌∙◌, Bool, true, false,
  Option, none, some, arith, Bool-cases, inl, inr, ◌≢◌,
}
use synp.Conn.Sending.{
  Outcome, written, timed_out, broken, Attempt, RetryPackage, Sent, got_through, gave_up, panicked,
  after_timeout, after_write, send_rounds, try_send,
}

-- Every round up to one, in which the message is through, wrote and met a timeout.
abbrev pub Through : (ℕ → Attempt) → ℕ → ℕ → Type 0
Through script n zero = (script n).outcome ≡ written
Through script n (suc k) = ((script n).outcome ≡ timed_out) × Through script (suc n) k

-- None of the writes from the round `n` up to the round `w` got through.
abbrev Blocked : (ℕ → Attempt) → ℕ → ℕ → Type 0
Blocked script n w = (i : ℕ) → n ≤ i → i < w → (script i).outcome ≢ written

Through-last :
    (script : ℕ → Attempt) (n k : ℕ) → Through script n k → (script (n + k)).outcome ≡ written
Through-last script n zero h = ap (λ i. (script i).outcome) (omega arith) ∙ h
Through-last script n (suc k) (t, h) =
    ap (λ i. (script i).outcome) (omega arith) ∙ Through-last script (suc n) k h

-- The loop has ended, with at most as many writes more as there are retries left and one: with the
-- message through, or given up with no write that got through.
record Ran (script : ℕ → Attempt) (n limit : ℕ) (r : Option Sent) : Type 0 where
  sent : Sent
  returns : r ≡ some sent
  bounded : sent.writes ≤ suc (n + limit)
  verdict :
      ((sent.answer ≡ got_through) × ((k : ℕ) × (sent.writes ≡ suc (n + k)) × Through script n k))
      ⊎ ((sent.answer ≡ gave_up) × Blocked script n sent.writes)

-- trySend ends, with at most as many writes as there are retries and one. It does not panic, and it
-- returns true exactly if the last of its writes got through, after writes that met timeouts alone.
pub record Ends (script : ℕ → Attempt) (limit : ℕ) (r : Option Sent) : Type 0 where
  pub sent : Sent
  pub returns : r ≡ some sent
  pub bounded : sent.writes ≤ suc limit
  pub quiet : sent.answer ≢ panicked
  pub exactly : (sent.answer ≡ got_through) ↔ ((k : ℕ) × (sent.writes ≡ suc k) × Through script 0 k)

-- It gave up after the write of the round `n`, or before it.
failed-Blocked :
    (script : ℕ → Attempt) (n : ℕ) (o : Outcome)
    → (script n).outcome ≡ o
    → o ≢ written
    → Blocked script n (suc n)
failed-Blocked script n o e h i a b w =
    h (sym e ∙ ap (λ j. (script j).outcome) (omega (arith, a, b)) ∙ w)

earlier-Blocked :
    (script : ℕ → Attempt) (n w : ℕ)
    → (script n).outcome ≡ timed_out
    → Blocked script (suc n) w
    → Blocked script n w
earlier-Blocked script n w t h i a b e = elim (Bool-cases (n == i)) [
  | inl y ↦ let same : n ≡ i = ground (arith, y) in cc (t, e, ap (λ j. (script j).outcome) same)
  | inr x ↦ h i (ground (arith, x, a)) b e
]

module _ (retry : RetryPackage) where
  open retry use {Strategy, new_strategy, next, left, left-new, left-next}

  gives_up :
      (script : ℕ → Attempt) (n limit w : ℕ)
      → w ≤ suc (n + limit)
      → Blocked script n w
      → Ran script n limit (some (record { answer = gave_up; writes = w }))
  gives_up script n limit w h b = record {
    sent = record { answer = gave_up; writes = w };
    returns = refl;
    bounded = h;
    verdict = inr (refl, b);
  }

  later :
      (script : ℕ → Attempt) (n limit limit' : ℕ) (r : Option Sent)
      → (script n).outcome ≡ timed_out
      → limit' < limit
      → Ran script (suc n) limit' r
      → Ran script n limit r
  later script n limit limit' r t h e = record {
    sent = e.sent;
    returns = e.returns;
    bounded = omega (arith, e.bounded);
    verdict = elim e.verdict [
      | inl (o, (k, w, p)) ↦ inl (o, (suc k, omega (arith, w), (t, p)))
      | inr (o, b) ↦ inr (o, earlier-Blocked script n e.sent.writes t b)
    ];
  }

  timeout-Ran :
      (script : ℕ → Attempt) (n : ℕ) (s : Strategy) (again : Option Strategy → Option Sent)
      (o : Option (ℕ × Strategy)) (b : Bool)
      → (script n).outcome ≡ timed_out
      → (script n).done_in_pause ≡ b
      → next s ≡ o
      → ((s' : Strategy) → left s' < left s → Ran script (suc n) (left s') (again (some s')))
      → Ran script n (left s) (after_timeout retry again (script n) (suc n) o)
  timeout-Ran script n s again none b t d e ih =
      gives_up script n (left s) (suc n) (omega arith)
        (failed-Blocked script n timed_out t (λ x. cc))
  timeout-Ran script n s again (some (pause, s')) true t d e ih = rw d (
      gives_up script n (left s) (suc n) (omega arith)
        (failed-Blocked script n timed_out t (λ x. cc)))
  timeout-Ran script n s again (some (pause, s')) false t d e ih = rw d (
      later script n (left s) (left s') (again (some s')) t (left-next s s' pause e)
        (ih s' (left-next s s' pause e)))

  write-Ran :
      (script : ℕ → Attempt) (n : ℕ) (s : Strategy) (again : Option Strategy → Option Sent)
      (o : Outcome)
      → (script n).outcome ≡ o
      → ((s' : Strategy) → left s' < left s → Ran script (suc n) (left s') (again (some s')))
      → Ran script n (left s) (after_write retry again (script n) (suc n) (some s) o)
  write-Ran script n s again written e ih = record {
    sent = record { answer = got_through; writes = suc n };
    returns = refl;
    bounded = omega arith;
    verdict = inl (refl, (0, omega arith, e));
  }
  write-Ran script n s again broken e ih =
      gives_up script n (left s) (suc n) (omega arith) (failed-Blocked script n broken e (λ x. cc))
  write-Ran script n s again timed_out e ih =
      timeout-Ran script n s again (next s) (script n).done_in_pause e refl refl ih

  rounds-Ran :
      (fuel : ℕ) (script : ℕ → Attempt) (n : ℕ) (s : Strategy)
      → left s < fuel
      → Ran script n (left s) (send_rounds retry fuel script n (some s))
  unfolding send_rounds
  rounds-Ran zero script n s h = absurd (omega arith)
  rounds-Ran (suc fuel) script n s h = elim (Bool-cases (script n).done) [
    | inl y ↦
        rw (y, send_rounds)
          (gives_up script n (left s) n (omega arith) (λ i a b e. absurd (omega (arith, a, b))))
    | inr x ↦
        rw (x, send_rounds)
          (write-Ran script n s (λ s'. send_rounds retry fuel script (suc n) s') (script n).outcome
            refl (λ s' less. rounds-Ran fuel script (suc n) s' (omega arith)))
  ]

  Ran-Ends :
      (script : ℕ → Attempt) (limit limit' : ℕ) (r : Option Sent)
      → limit' ≤ limit
      → Ran script 0 limit' r
      → Ends script limit r
  Ran-Ends script limit limit' r h e = elim e.verdict [
    | inl (o, (k, w, p)) ↦ record {
      sent = e.sent;
      returns = e.returns;
      bounded = omega (arith, e.bounded);
      quiet = λ x. cc (o, x);
      exactly = ((λ x. (k, omega (arith, w), p)), (λ x. o));
    }
    | inr (o, b) ↦ record {
      sent = e.sent;
      returns = e.returns;
      bounded = omega (arith, e.bounded);
      quiet = λ x. cc (o, x);
      exactly = (
        (λ x. cc (o, x)),
        (λ x.
            absurd
              (b (0 + x.0) (omega arith) (omega (arith, x.1)) (Through-last script 0 x.0 x.2))),
      );
    }
  ]

  -- With a positive number of retries, and parameters for which the package makes a strategy, trySend
  -- returns, whatever the connection does, and does not panic: after at most as many writes as there are
  -- retries and one. It returns true exactly if the last of its writes got through, with only timeouts
  -- before it.
  pub try_send-Ends :
      (init_interval max_interval max_count : ℕ) (s : Strategy) (script : ℕ → Attempt)
      → new_strategy init_interval max_interval max_count ≡ some s
      → 0 < max_count
      → Ends script max_count (try_send retry init_interval max_interval max_count script)
  unfolding try_send
  try_send-Ends init_interval max_interval max_count s script made h =
      let fits = left-new init_interval max_interval max_count s h made in
      rw made (
        Ran-Ends script max_count (left s) (send_rounds retry (suc max_count) script 0 (some s))
          fits (rounds-Ran (suc max_count) script 0 s (omega arith)))

  first_panics :
      (fuel : ℕ) (script : ℕ → Attempt)
      → (script 0).done ≡ false
      → (script 0).outcome ≡ timed_out
      → send_rounds retry (suc fuel) script 0 none ≡ some (record { answer = panicked; writes = 1 })
  unfolding send_rounds
  first_panics fuel script d t = rw (d, send_rounds) (rw t refl)

  -- Where the package makes no strategy, trySend panics if its first write meets a timeout.
  pub try_send-panics :
      (init_interval max_interval max_count : ℕ) (script : ℕ → Attempt)
      → new_strategy init_interval max_interval max_count ≡ none
      → (script 0).done ≡ false
      → (script 0).outcome ≡ timed_out
      → try_send retry init_interval max_interval max_count script
        ≡ some (record { answer = panicked; writes = 1 })
  unfolding try_send send_rounds
  try_send-panics init_interval max_interval max_count script e d t =
      subst
        (λ s.
          send_rounds retry (suc max_count) script 0 s
          ≡ some (record { answer = panicked; writes = 1 }))
        (sym e) (first_panics max_count script d t)
