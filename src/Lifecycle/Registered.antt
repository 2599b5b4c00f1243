-- ===== src/Lifecycle/Registered.antt =====
-- The Handler of handler.go as a handler of connection events.
use synp.Prelude.{ℕ, none, Option, ◌==◌, if◌then◌else◌}
use synp.Prelude.Text.{Text}
use synp.Redis.{Redis}
use synp.SyncMap.{SyncMap}
use synp.Fault.{Fault, Result}
use synp.Message.{Message}
use synp.Session.Store.{new_session, destroy}
use synp.Conn.{Conn}
use synp.Conn.Closing.{Runtime, close}
use synp.Retransmit.{Task}
use synp.Handlers.{World, Answers}
use synp.Wrapper.{Handler}
use synp.Lifecycle.{on_receive_from_frontend, on_receive_from_backend}
use synp.Lifecycle.Program.{program_table}

-- What the handlers of a connection work on: Redis, the world of the message handlers, and the
-- connection objects, by their serial numbers.
abbrev pub HandlerState : (redis : Redis) (tasks : SyncMap Task) → Type 0
HandlerState redis tasks = redis.State × (World tasks × (ℕ → Runtime))

-- conn.Close() on the object that `conn` is; `net_err` is what its netConn.Close returns. The session
-- is destroyed in Redis by the first call alone.
unfoldable pub close_conn :
    (redis : Redis) (tasks : SyncMap Task)
    → Option Fault
    → Conn
    → HandlerState redis tasks
    → Option Fault × HandlerState redis tasks
unfolding close destroy new_session
close_conn redis tasks net_err conn (t, (w, cs)) =
    let (destroy_err, t') = destroy redis (new_session conn.user) t in
    let (e, c) = close net_err destroy_err (cs conn.serial) in
    (
      e,
      (if (cs conn.serial).closing then t else t', (w, λ n. if n == conn.serial then c else cs n)),
    )

-- OnConnect writes to the log alone; OnDisconnect closes the connection.
unfoldable pub lifecycle_handler :
    (redis : Redis) (tasks : SyncMap Task)
    → Answers
    → Text
    → (Text → Result Message)
    → (Conn → Option Fault)
    → Handler (HandlerState redis tasks)
unfolding on_receive_from_frontend on_receive_from_backend close_conn
lifecycle_handler redis tasks answers topic unmarshal net_err = record {
  on_connect = λ conn s. (none, s);
  on_disconnect = λ conn s. close_conn redis tasks (net_err conn) conn s;
  on_receive_from_frontend = λ conn payload s.
      let (e, t, w) =
        on_receive_from_frontend redis tasks (program_table tasks answers topic) unmarshal s.0 s.1.0
          conn payload in
      (e, (t, (w, s.1.1)));
  on_receive_from_backend = λ conns msg s.
      let (e, w) = on_receive_from_backend tasks answers conns msg s.1.0 in (e, (s.0, (w, s.1.1)));
}
