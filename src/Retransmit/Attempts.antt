-- ===== src/Retransmit/Attempts.antt =====
-- How often a message is sent again.
use synp.Prelude.{
  ℕ, suc, ◌+◌, ◌<◌, ◌≤◌, ◌≡◌, refl, ap, subst, true, Option, none, some, List, [], ◌∷◌, ◌++◌, arith,
  Bool-cases, inl, inr, length, All,
}
use synp.Prelude.Word.{add_one32}
use synp.Prelude.Text.{Text, text_eq_refl}
use synp.SyncMap.{SyncMap}
use synp.Fault.{Fault}
use synp.Retransmit.{
  Task, Manager, Effect, pushed, touched, reaches, counted_up, given_up, sent, ran, ran_found, run,
}
use synp.Retransmit.Counts.{IsValid, run-IsValid, count_up}
use synp.Retransmit.Tasks.{load-stop_and_delete}

-- How often a message was sent.
abbrev pub pushes : List Effect → ℕ
pushes [] = 0
pushes (pushed c m ∷ es) = suc (pushes es)
pushes (touched c ∷ es) = pushes es

pushes-append : (es fs : List Effect) → pushes (es ++ fs) ≡ pushes es + pushes fs
pushes-append [] fs = omega arith
pushes-append (pushed c m ∷ es) fs = omega (arith, pushes-append es fs)
pushes-append (touched c ∷ es) fs = pushes-append es fs

module _ (ops : SyncMap Task) where
  open ops use {Map, load, store, delete, load-store, load-delete}

  -- The timer of one key fires again and again, with what taskFunc returns each time.
  unfoldable pub run_all : Manager ops → Text → List (Option Fault) → Manager ops × List Effect
  run_all m key [] = (m, [])
  run_all m key (outcome ∷ outcomes) =
      let (m', es) = run ops m key outcome in
      let (m'', fs) = run_all m' key outcomes in (m'', es ++ fs)

  run-missing :
      (m : Manager ops) (k : Text) (outcome : Option Fault)
      → load m.tasks k ≡ none
      → run ops m k outcome ≡ (m, [])
  unfolding run
  run-missing m k outcome e = ap (λ o. ran_found ops m o outcome) e

  run_all-missing :
      (m : Manager ops) (k : Text) (outcomes : List (Option Fault))
      → load m.tasks k ≡ none
      → run_all m k outcomes ≡ (m, [])
  unfolding run_all
  run_all-missing m k [] e = refl
  run_all-missing m k (o ∷ os) e =
      rw (run-missing m k o e) (ground (arith, run_all-missing m k os e))

  -- What one firing does to the task: it is gone, having sent nothing more, or at most once more;
  -- or it was sent once, with success, and is counted.
  pub data Fired (m m' : Manager ops) (k : Text) (t : Task) (o : Option Fault) (es : List Effect)
      : Type 0 where
    exhausted :
        suc t.retransmit_cnt ≡ m.max_retry_cnt
        → load m'.tasks k ≡ none
        → pushes es ≡ 0
        → Fired m m' k t o es
    failed :
        (x : Fault)
        → o ≡ some x
        → suc t.retransmit_cnt < m.max_retry_cnt
        → load m'.tasks k ≡ none
        → pushes es ≡ 1
        → Fired m m' k t o es
    again :
        (u : Task)
        → load m'.tasks k ≡ some u
        → u.retransmit_cnt ≡ suc t.retransmit_cnt
        → u.retransmit_cnt < m.max_retry_cnt
        → m'.max_retry_cnt ≡ m.max_retry_cnt
        → pushes es ≡ 1
        → Fired m m' k t o es

  gone-given_up : (m : Manager ops) (t : Task) → load (given_up ops m t).tasks t.key ≡ none
  gone-given_up m t = ground (
    arith,
    load-stop_and_delete ops (record m { tasks = store m.tasks t.key (counted_up ops t) }) t.key
        t.key,
    text_eq_refl t.key,
  )

  sent-Fired :
      (m : Manager ops) (t : Task) (outcome : Option Fault)
      → t.retransmit_cnt < m.max_retry_cnt
      → m.max_retry_cnt < 2147483648
      → suc t.retransmit_cnt < m.max_retry_cnt
      → Fired m (sent ops m t outcome).0 t.key t outcome (sent ops m t outcome).1
  sent-Fired m t (some e) low fits below = failed e refl below (gone-given_up m t) refl
  sent-Fired m t none low fits below =
      again (record (counted_up ops t) { armed = true })
        (ground (
          arith,
          load-store m.tasks t.key t.key (record (counted_up ops t) { armed = true }),
          text_eq_refl t.key,
        ))
        (omega arith) (omega arith) refl refl

  ran-Fired :
      (m : Manager ops) (t : Task) (outcome : Option Fault)
      → t.retransmit_cnt < m.max_retry_cnt
      → m.max_retry_cnt < 2147483648
      → Fired m (ran ops m t outcome).0 t.key t outcome (ran ops m t outcome).1
  ran-Fired m t outcome low fits =
      let up = count_up t.retransmit_cnt m.max_retry_cnt low fits in
      elim (Bool-cases (reaches (add_one32 t.retransmit_cnt) m.max_retry_cnt)) [
        | inl y ↦ rw y (exhausted (ground (arith, up)) (gone-given_up m t) refl)
        | inr n ↦ rw n (sent-Fired m t outcome low fits (ground (arith, up)))
      ]

  run-Fired :
      (m : Manager ops) (k : Text) (t : Task) (outcome : Option Fault)
      → IsValid ops m
      → load m.tasks k ≡ some t
      → Fired m (run ops m k outcome).0 k t outcome (run ops m k outcome).1
  unfolding run
  run-Fired m k t outcome v e =
      let own = v.placed k t e in
      rw e (
        subst (λ j. Fired m (ran ops m t outcome).0 j t outcome (ran ops m t outcome).1) own.0
          (ran-Fired m t outcome own.2 v.limit_fits))

  after_Fired :
      (m m' : Manager ops) (k : Text) (t : Task) (o : Option Fault) (es : List Effect)
      (os : List (Option Fault))
      → Fired m m' k t o es
      → ((u : Task)
          → load m'.tasks k ≡ some u
          → pushes (run_all m' k os).1 + suc u.retransmit_cnt ≤ m'.max_retry_cnt)
      → t.retransmit_cnt < m.max_retry_cnt
      → pushes (es ++ (run_all m' k os).1) + suc t.retransmit_cnt ≤ m.max_retry_cnt
  after_Fired m m' k t o es os (exhausted c g p) ih low =
      rw (run_all-missing m' k os g) (omega (arith, pushes-append es [], p))
  after_Fired m m' k t o es os (failed x f c g p) ih low =
      rw (run_all-missing m' k os g) (omega (arith, pushes-append es [], p))
  after_Fired m m' k t o es os (again u e c b same p) ih low =
      omega (arith, pushes-append es (run_all m' k os).1, ih u e)

  -- In a manager that satisfies the invariant, however often the timer of a task fires, and whatever
  -- taskFunc returns: the message is sent
  -- again fewer times than the limit, counting the times before.
  pub attempts_bounded :
      (m : Manager ops) (k : Text) (t : Task) (os : List (Option Fault))
      → IsValid ops m
      → load m.tasks k ≡ some t
      → pushes (run_all m k os).1 + suc t.retransmit_cnt ≤ m.max_retry_cnt
  unfolding run_all
  attempts_bounded m k t [] v e = omega (arith, (v.placed k t e).2)
  attempts_bounded m k t (o ∷ os) v e =
      after_Fired m (run ops m k o).0 k t o (run ops m k o).1 os (run-Fired m k t o v e)
        (λ u f. attempts_bounded (run ops m k o).0 k u os (run-IsValid ops m k o v) f)
        (v.placed k t e).2

  exact_Fired :
      (m m' : Manager ops) (k : Text) (t : Task) (o : Option Fault) (es : List Effect)
      (os : List (Option Fault))
      → Fired m m' k t o es
      → o ≡ none
      → ((u : Task)
          → load m'.tasks k ≡ some u
          → m'.max_retry_cnt ≤ u.retransmit_cnt + length os
          → (pushes (run_all m' k os).1 + suc u.retransmit_cnt ≡ m'.max_retry_cnt)
            × (load (run_all m' k os).0.tasks k ≡ none))
      → m.max_retry_cnt ≤ t.retransmit_cnt + suc (length os)
      → (pushes (es ++ (run_all m' k os).1) + suc t.retransmit_cnt ≡ m.max_retry_cnt)
        × (load (run_all m' k os).0.tasks k ≡ none)
  exact_Fired m m' k t o es os (exhausted c g p) ok ih enough =
      rw (run_all-missing m' k os g) (omega (arith, pushes-append es [], p), g)
  exact_Fired m m' k t o es os (failed x f c g p) ok ih enough = cc
  exact_Fired m m' k t o es os (again u e c b same p) ok ih enough =
      let rest = ih u e (omega arith) in
      (omega (arith, pushes-append es (run_all m' k os).1, rest.0), rest.1)

  -- In a manager that satisfies the invariant: if nobody acknowledges the message and every sending
  -- succeeds, then after as many firings as
  -- the limit leaves the message was sent again exactly one time fewer than the limit, counting the
  -- times before, and the task is gone.
  pub attempts_exact :
      (m : Manager ops) (k : Text) (t : Task) (os : List (Option Fault))
      → IsValid ops m
      → load m.tasks k ≡ some t
      → All (λ o. o ≡ none) os
      → m.max_retry_cnt ≤ t.retransmit_cnt + length os
      → (pushes (run_all m k os).1 + suc t.retransmit_cnt ≡ m.max_retry_cnt)
        × (load (run_all m k os).0.tasks k ≡ none)
  unfolding run_all
  attempts_exact m k t [] v e all enough = absurd (omega (arith, (v.placed k t e).2))
  attempts_exact m k t (o ∷ os) v e all enough =
      exact_Fired m (run ops m k o).0 k t o (run ops m k o).1 os (run-Fired m k t o v e) all.0
        (λ u f n. attempts_exact (run ops m k o).0 k u os (run-IsValid ops m k o v) f all.1 n)
        enough
