-- ===== src/Wiring/Sound.antt =====
-- What holds of the parts that the application makes, whatever the configuration says.
use synp.Prelude.{ℕ, ◌-◌, ◌%◌, ◌<◌, ◌≡◌, arith, subst, Option, none, List, ◌↔◌}
use synp.Prelude.Int.{ℤ, pos, negsuc, pos_part, mul64}
use synp.Prelude.Text.{Text, codes}
use synp.SyncMap.{SyncMap}
use synp.Fault.{Fault, Result, ok, err}
use synp.Retransmit.{Task, Manager, new_manager}
use synp.Retransmit.Counts.{IsValid}
use synp.Retransmit.History.{Call, perform_all, history-IsValid}
use synp.Wiring.{RetransmitConfig, signed32, int32, new_retransmit_manager, merge_all, load_config}

signed32-fits : (r : ℕ) → r < 4294967296 → pos_part (signed32 r) < 2147483648
signed32-fits r h = ground arith

int32-fits : (n : ℤ) → pos_part (int32 n) < 2147483648
unfolding int32
int32-fits (pos n) = signed32-fits (n % 4294967296) (omega arith)
int32-fits (negsuc n) = signed32-fits (4294967295 - n % 4294967296) (omega arith)

module _ (ops : SyncMap Task) where
  pub record IsSound (m : Manager ops) (cs : List Call) : Type 0 where
    pub valid : IsValid ops (perform_all ops m cs)
    pub some_interval : 0 < m.retry_interval
    pub some_retries : 0 < m.max_retry_cnt
    pub int32_retries : m.max_retry_cnt < 2147483648

  new_manager-IsSound :
      (interval limit : ℤ) (cs : List Call)
      → pos_part limit < 2147483648
      → IsSound (new_manager ops interval limit) cs
  unfolding new_manager
  new_manager-IsSound interval limit cs h = record {
    valid = history-IsValid ops interval limit cs h;
    some_interval = ground arith;
    some_retries = ground arith;
    int32_retries = ground (arith, h);
  }

  -- Whatever numbers the configuration has, also if they wrap around: the manager that
  -- newRetransmitManager returns has a positive interval and a positive int32 limit, and after any calls
  -- and fired timers its tasks are counted, keyed, and were each counted less often than the limit.
  pub new_retransmit_manager-IsSound :
      (cfg : Result RetransmitConfig) (m : Manager ops) (cs : List Call)
      → new_retransmit_manager ops cfg ≡ ok m
      → IsSound m cs
  unfolding new_retransmit_manager
  new_retransmit_manager-IsSound (err e) m cs h = cc
  new_retransmit_manager-IsSound (ok cfg) m cs h =
      let made : new_manager ops (mul64 cfg.interval (pos 1000000)) (int32 cfg.max_retry) ≡ m =
        cc (h) in
      subst (λ m. IsSound m cs) made
        (new_manager-IsSound (mul64 cfg.interval (pos 1000000)) (int32 cfg.max_retry) cs
          (int32-fits cfg.max_retry))

-- loadConfig succeeds exactly if the three files are read.
pub load_config_iff :
    (read merge : Text → Option Fault)
    → ((load_config read merge).error ≡ none) ↔ (
        (read (codes "base") ≡ none)
        × (merge (codes "redis") ≡ none)
        × (merge (codes "kafka") ≡ none))
unfolding load_config merge_all
load_config_iff read merge = ((λ h. ground (arith, h)), (λ h. ground (arith, h)))
