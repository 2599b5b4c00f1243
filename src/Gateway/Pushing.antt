-- ===== src/Gateway/Pushing.antt =====
-- From a partition of the queue to the retransmission: the consumer of pushed messages with the server.
use synp.Prelude.{◌≡◌, ◌≢◌, ◌⊎◌, Option, none, List, [], ◌∷◌}
use synp.Prelude.Text.{Text}
use synp.Redis.{Redis}
use synp.SyncMap.{SyncMap}
use synp.Fault.{Fault, Result}
use synp.Message.{Message}
use synp.Conn.{Conn}
use synp.ConnManager.{DeviceConns, ConnManager}
use synp.Retransmit.{Task, Manager}
use synp.Retransmit
use synp.Handlers.{Answers, PushMessage}
use synp.Lifecycle.Registered.{HandlerState, lifecycle_handler}
use synp.Mq
use synp.Gateway.{closed}
use synp.Gateway.Consumed.{push_consumer}

-- The message stands in the list.
abbrev pub IsAmong : Mq.Message → List Mq.Message → Type 0
IsAmong msg [] = ⊥
IsAmong msg (x ∷ xs) = (x ≡ msg) ⊎ IsAmong msg xs

module _ (tasks : SyncMap Task) where
  open tasks use {load}

  -- An open manager stays open, and keeps its tasks.
  abbrev Extends : Manager tasks → Manager tasks → Type 0
  Extends m m' =
      (m'.closed ≡ m.closed) × ((k : Text) → load m.tasks k ≢ none → load m'.tasks k ≢ none)

  module _ (answers : Answers) where
    module _ (redis : Redis) (conns : SyncMap DeviceConns) (topic : Text)
        (unmarshal : Text → Result Message) (net_err : Conn → Option Fault)
        (decode : Text → Result PushMessage) (m : ConnManager conns) where
      -- The consumer of the program, on Redis and the world of the handlers
      abbrev pub program_consumer :
          Mq.Message → HandlerState redis tasks → Option Fault × HandlerState redis tasks
      program_consumer =
          push_consumer conns (lifecycle_handler redis tasks answers topic unmarshal net_err) decode
            m
