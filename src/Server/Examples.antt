-- ===== src/Server/Examples.antt =====
-- A listener that fails once, and a client that comes and goes.
use synp.Prelude.{◌+◌, ◌&&◌, ◌≡◌, true, false, none, List, [], ◌∷◌, arith}
use synp.Prelude.Int.{pos}
use synp.Prelude.Text.{codes}
use synp.Limiter.{TokenLimiter}
use synp.Server.{
  Turn, connected, listener_closed, failed, accept_conn, Visit, message, closed, handle_conn,
}
use synp.Server.Admission.{accept_conn_balance}
use synp.Server.Visits.{
  count, is_release, is_remove, is_disconnect, is_none, once, handle_conn_cleanup,
}

abbrev two_tokens : TokenLimiter
two_tokens = record {
  cfg = record {
    init_capacity = pos 2;
    max_capacity = pos 2;
    increase_step = pos 1;
    increase_interval = pos 1;
  };
  tokens = 2;
  chan_cap = 2;
  curr_capacity = pos 2;
  cancelled = false;
}

abbrev turns : List Turn
turns =
    record { accept_new_conn = true; reply = failed }
    ∷ record { accept_new_conn = true; reply = connected }
    ∷ record { accept_new_conn = true; reply = listener_closed }
    ∷ []

accept_conn_balance_example :
    (accept_conn turns two_tokens).limiter.tokens + (accept_conn turns two_tokens).handled ≡ 2
accept_conn_balance_example = accept_conn_balance turns two_tokens (omega arith)

abbrev visit : Visit
visit = record {
  upgraded = true;
  made = true;
  on_connect = none;
  arrivals = message (codes "hi") none ∷ closed ∷ [];
}

handle_conn_cleanup_example :
    (count is_release (handle_conn visit).steps ≡ once (handle_conn visit).returned)
    × (count is_remove (handle_conn visit).steps
        ≡ once ((handle_conn visit).returned && (true && true)))
    × (count is_disconnect (handle_conn visit).steps
        ≡ once ((handle_conn visit).returned && (true && (true && is_none none))))
handle_conn_cleanup_example = handle_conn_cleanup visit
