-- ===== src/Gateway/Started.antt =====
-- What Start leaves behind when it succeeds, and when it fails in the middle.
use synp.Prelude.{ℕ, zero, suc, ◌+◌, ◌≤◌, ◌≡◌, refl, ◌↔◌, Option, none, some, arith}
use synp.Prelude.Int.{ℤ, pos_part}
use synp.Fault.{Fault, Result, ok, err}
use synp.Mq.{KafkaConsumer, consume_chan}
use synp.Gateway.{Progress, created, opened, stopped, start_from, start}

pub record IsCounted (n : ℕ) (p : Progress) : Type 0 where
  pub bounded : p.running ≤ n
  pub complete : (p.error ≡ none) ↔ (p.running ≡ n)
  pub leaks : p.made ≤ p.running + 1
  pub tight : p.error ≡ none → p.made ≡ p.running

stopped-IsCounted : (n made : ℕ) (e : Fault) → made ≤ 1 → IsCounted (suc n) (stopped made e)
stopped-IsCounted n made e h = record {
  bounded = omega arith;
  complete = ((λ f. cc), (λ f. absurd (omega arith)));
  leaks = omega arith;
  tight = λ f. cc;
}

opened-IsCounted :
    (n : ℕ) (rest : Progress) (o : Option Fault)
    → IsCounted n rest
    → IsCounted (suc n) (opened rest o)
opened-IsCounted n rest none v = record {
  bounded = omega (arith, v.bounded);
  complete = ((λ e. omega (arith, v.complete.0 e)), (λ e. v.complete.1 (omega arith)));
  leaks = omega (arith, v.leaks);
  tight = λ e. omega (arith, v.tight e);
}
opened-IsCounted n rest (some e) v = stopped-IsCounted n 1 e (omega arith)

created-IsCounted :
    (n : ℕ) (rest : Progress) (caller : Option Fault) (r : Result KafkaConsumer)
    → IsCounted n rest
    → IsCounted (suc n) (created rest caller r)
created-IsCounted n rest caller (err e) v = stopped-IsCounted n 0 e (omega arith)
created-IsCounted n rest caller (ok c) v = opened-IsCounted n rest (consume_chan c caller) v

start_from-IsCounted :
    (new_consumer : ℕ → Result KafkaConsumer) (caller : Option Fault) (i n : ℕ)
    → IsCounted n (start_from new_consumer caller i n)
unfolding start_from
start_from-IsCounted new_consumer caller i zero = record {
  bounded = omega arith;
  complete = ((λ e. refl), (λ e. refl));
  leaks = omega arith;
  tight = λ e. refl;
}
start_from-IsCounted new_consumer caller i (suc n) =
    created-IsCounted n (start_from new_consumer caller (suc i) n) caller (new_consumer i)
      (start_from-IsCounted new_consumer caller (suc i) n)

-- Start returns no error exactly when a goroutine runs for every partition; where it returns one, the
-- goroutines started before it go on, and at most one consumer was made that nothing reads.
pub start-IsCounted :
    (new_consumer : ℕ → Result KafkaConsumer) (caller : Option Fault) (partitions : ℤ)
    → IsCounted (pos_part partitions) (start new_consumer caller partitions)
unfolding start
start-IsCounted new_consumer caller partitions =
    start_from-IsCounted new_consumer caller 0 (pos_part partitions)
