-- ===== src/Server.antt =====
-- internal/ws/server.go: the loop that accepts connections, the handling of one connection with its
-- deferred calls, and the messages that the business servers push.
pub mod Admission
pub mod Visits
pub mod Protocol
pub mod Pushed
pub mod Running
pub mod Starting
pub mod Ending
mod RunExamples
mod Examples
use synp.Prelude.{
  ℕ, suc, Bool, true, false, not, Option, none, some, List, [], ◌∷◌, ◌++◌, if◌then◌else◌,
}
use synp.Prelude.Text.{Text, codes, decimal}
use synp.SyncMap.{SyncMap}
use synp.Fault.{Fault, sentinel, detail, Result, ok, err, error_is, conn_closed, unknown_receiver}
use synp.Session.{User}
use synp.Conn.{Conn}
use synp.ConnManager.{DeviceConns, ConnManager, find_user_conn}
use synp.Limiter.{TokenLimiter, acquire, release}
use synp.Handlers.{PushMessage}
use synp.Wrapper.{Action, Handler}

-- What listener.Accept returns: a connection, net.ErrClosed, or any other error.
pub data Reply : Type 0 where
  connected listener_closed failed : Reply

-- A turn of acceptConn: acceptNewConn at its start, and the listener's reply.
pub record Turn : Type 0 where
  pub accept_new_conn : Bool
  pub reply : Reply

-- What acceptConn has done: the connections that it handed to handleConn, and whether it returned.
pub record Admitted : Type 0 where
  pub limiter : TokenLimiter
  pub handled : ℕ
  pub returned : Bool

abbrev pub stopping : TokenLimiter → Admitted
stopping l = record { limiter = l; handled = 0; returned = true }

abbrev pub one_more : Admitted → Admitted
one_more a = record a { handled = suc a.handled }

-- After a token was acquired; `again` is the rest of the loop.
abbrev pub replied : (TokenLimiter → Admitted) → TokenLimiter → Reply → Admitted
replied again l connected = one_more (again l)
replied again l listener_closed = stopping (release l).0
replied again l failed = again (release l).0

-- The loop over the turns that are given; the pause of the backoff strategy takes no token.
unfoldable pub accept_conn : List Turn → TokenLimiter → Admitted
unfolding acquire release
accept_conn [] l = record { limiter = l; handled = 0; returned = false }
accept_conn (t ∷ ts) l = elim t.accept_new_conn [
  | false ↦ stopping l
  | true ↦ elim (acquire l).1 [
    | false ↦ accept_conn ts (acquire l).0
    | true ↦ replied (λ l'. accept_conn ts l') (acquire l).0 t.reply
  ]
]

-- The calls of handleConn in their order.
pub data Step : Type 0 where
  upgrades makes connects disconnects removes closes closes_net releases : Step
  receives : Text → Step

-- What the select of handleConn takes: a message with what the handler returns for it, the closed
-- channel, the closed connection, or the closed server.
pub data Arrival : Type 0 where
  message : Text → Option Fault → Arrival
  channel_closed closed server_closed : Arrival

pub record Visit : Type 0 where
  pub upgraded : Bool
  pub made : Bool
  pub on_connect : Option Fault
  pub arrivals : List Arrival

-- The calls so far, and whether the function has returned.
pub record Progress : Type 0 where
  pub steps : List Step
  pub returned : Bool

abbrev pub then_steps : Step → Progress → Progress
then_steps s p = record p { steps = s ∷ p.steps }

abbrev pub returns : Step → Progress
returns s = record { steps = s ∷ []; returned = true }

-- defer: the calls come when the function returns.
abbrev pub deferring : List Step → Progress → Progress
deferring ds p = if p.returned then record p { steps = p.steps ++ ds } else p

abbrev pub left_loop : Progress
left_loop = record { steps = []; returned = true }

-- The loop at the end of handleConn
unfoldable pub serve : List Arrival → Progress
unfolding error_is
serve [] = record { steps = []; returned = false }
serve (message payload e ∷ rest) =
    let after = serve rest in
    if error_is e conn_closed
    then returns (receives payload)
    else then_steps (receives payload) after
serve (channel_closed ∷ rest) = left_loop
serve (closed ∷ rest) = left_loop
serve (server_closed ∷ rest) = left_loop

abbrev pub connecting : List Arrival → Option Fault → Progress
connecting arrivals (some e) = returns connects
connecting arrivals none = then_steps connects (deferring (disconnects ∷ []) (serve arrivals))

abbrev pub making : Visit → Bool → Progress
making v false = returns makes
making v true =
    then_steps makes (deferring (removes ∷ closes ∷ []) (connecting v.arrivals v.on_connect))

abbrev pub upgrading : Visit → Bool → Progress
upgrading v false = returns upgrades
upgrading v true = then_steps upgrades (making v v.made)

-- handleConn
unfoldable pub handle_conn : Visit → Progress
unfolding serve
handle_conn v = deferring (closes_net ∷ releases ∷ []) (upgrading v v.upgraded)

module _ (ops : SyncMap DeviceConns) where
  -- The user that findConn asks for.
  abbrev pub receiver : PushMessage → User
  receiver msg = record { bid = msg.biz_id; uid = msg.receiver_id; device = []; auto_close = false }

  abbrev pub found : PushMessage → List Conn × Bool → Result (List Conn)
  found msg (conns, true) = ok conns
  found msg (conns, false) = err (
      detail (sentinel unknown_receiver) (
        codes ": user_id="
        ++ (decimal msg.receiver_id ++ (codes ", biz_id=" ++ decimal msg.biz_id))))

  -- findConn
  unfoldable pub find_receiver : ConnManager ops → PushMessage → Result (List Conn)
  unfolding find_user_conn
  find_receiver m msg = found msg (find_user_conn ops m (receiver msg))

  module _ {S : Type 0} (handler : Handler S) where
    abbrev pub delivering : PushMessage → Result (List Conn) → Action S
    delivering msg (err e) s = (some e, s)
    delivering msg (ok conns) s = handler.on_receive_from_backend conns msg s

    abbrev pub parsed : ConnManager ops → Result PushMessage → Action S
    parsed m (err e) s = (some e, s)
    parsed m (ok msg) s = delivering msg (find_receiver m msg) s

    -- consumePushMessage; `unmarshal` is json.Unmarshal into a PushMessage
    unfoldable pub consume_push_message :
        (Text → Result PushMessage) → ConnManager ops → Text → Action S
    unfolding find_receiver
    consume_push_message unmarshal m val s = parsed m (unmarshal val) s
