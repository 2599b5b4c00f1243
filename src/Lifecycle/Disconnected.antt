-- ===== src/Lifecycle/Disconnected.antt =====
-- OnDisconnect of handler.go, which closes the connection before handleConn calls Close itself.
use synp.Prelude.{ℕ, ◌≡◌, refl, true, false, Option, none, some, ◌++◌, arith, ◌==◌}
use synp.Prelude.Text.{Text}
use synp.Redis.{Redis}
use synp.SyncMap.{SyncMap}
use synp.Fault.{Fault, append, Result}
use synp.Message.{Message}
use synp.Session.{User, conn_key, session_key}
use synp.Session.Store.{new_session, destroy}
use synp.Session.Lifetime.{destroy_for_all}
use synp.Conn.{Conn}
use synp.Conn.Closing.{close}
use synp.Conn.Loops.Ended.{ending}
use synp.Retransmit.{Task}
use synp.Handlers.{Answers}
use synp.Lifecycle.Registered.{HandlerState, close_conn, lifecycle_handler}

module _ (redis : Redis) (tasks : SyncMap Task) where
  -- What is left of a connection that was closed first now, of the others, and of the session.
  pub record IsClosed (conn : Conn) (s s' : HandlerState redis tasks) : Type 0 where
    pub cancelled : (s'.1.1 conn.serial).cancelled ≡ true
    pub effects : (s'.1.1 conn.serial).effects ≡ ending ++ (s.1.1 conn.serial).effects
    pub others : (n : ℕ) → (n == conn.serial) ≡ false → s'.1.1 n ≡ s.1.1 n
    pub no_session :
        (v : User) → conn_key conn.user ≡ conn_key v → redis.exists s'.0 (session_key v) ≡ false
    pub world : s'.1.0 ≡ s.1.0

  -- A later call of Close returns what the first one did, and changes nothing more.
  pub record IsRepeated (conn : Conn) (e : Option Fault) (s : HandlerState redis tasks)
      : Type 0 where
    pub again : (net_err : Option Fault) → (close_conn redis tasks net_err conn s).0 ≡ e
    pub store : (net_err : Option Fault) → (close_conn redis tasks net_err conn s).1.0 ≡ s.0
    pub conns :
        (net_err : Option Fault) (n : ℕ) → (close_conn redis tasks net_err conn s).1.1.1 n ≡ s.1.1 n

  destroyed-ok :
      (u : User) (s t : redis.State)
      → redis.del s (session_key u) ≡ (none, t)
      → destroy redis (new_session u) s ≡ (none, t)
  destroyed-ok u s t e = (destroy_for_all redis u u s t e).0

  close_conn-IsClosed :
      (net_err : Option Fault) (conn : Conn) (s : HandlerState redis tasks) (t : redis.State)
      → (s.1.1 conn.serial).closing ≡ false
      → redis.del s.0 (session_key conn.user) ≡ (none, t)
      → IsClosed conn s (close_conn redis tasks net_err conn s).1
  unfolding close_conn close
  close_conn-IsClosed net_err conn s t o e = record {
    cancelled = ground (arith, o);
    effects = ground (arith, o);
    others = λ n h. ground (arith, h);
    no_session = λ v same. ground (
      arith,
      o,
      destroyed-ok conn.user s.0 t e,
      (destroy_for_all redis conn.user v s.0 t e).1 same,
    );
    world = refl;
  }

  close_conn-IsRepeated :
      (net_err : Option Fault) (conn : Conn) (s : HandlerState redis tasks)
      → (s.1.1 conn.serial).closing ≡ false
      → let r = close_conn redis tasks net_err conn s in IsRepeated conn r.0 r.1
  unfolding close_conn close
  close_conn-IsRepeated net_err conn s o = record {
    again = λ net_err'. ground (arith, o);
    store = λ net_err'. ground (arith, o);
    conns = λ net_err' n. ground (arith, o);
  }

  -- OnDisconnect of the program's handler, for a connection that nobody has closed, where Redis answers:
  -- it returns what closing the network connection does. The connection's context is cancelled, with
  -- one close frame, one close of the network connection and one end of the session; no device of the
  -- user has a session in Redis; the other connections and the retransmissions stay. A later call of
  -- Close on it, as in RemoveConn or at the end of handleConn, returns the same and changes nothing.
  pub disconnect_closes :
      (answers : Answers) (topic : Text) (unmarshal : Text → Result Message)
      (net_err : Conn → Option Fault) (conn : Conn) (s : HandlerState redis tasks) (t : redis.State)
      → (s.1.1 conn.serial).closing ≡ false
      → redis.del s.0 (session_key conn.user) ≡ (none, t)
      → let r =
          (lifecycle_handler redis tasks answers topic unmarshal net_err).on_disconnect conn s in
        (r.0 ≡ net_err conn) × IsClosed conn s r.1 × IsRepeated conn r.0 r.1
  unfolding lifecycle_handler
  disconnect_closes answers topic unmarshal net_err conn s t o e = (
    error,
    close_conn-IsClosed (net_err conn) conn s t o e,
    close_conn-IsRepeated (net_err conn) conn s o,
  )
    where
      append-nothing : (a : Option Fault) → append a none ≡ a
      append-nothing none = unfold append in refl
      append-nothing (some x) = unfold append in refl

      error : (close_conn redis tasks (net_err conn) conn s).0 ≡ net_err conn
      error =
          unfold close_conn close in
          ground (arith, o, destroyed-ok conn.user s.0 t e, append-nothing (net_err conn))
