-- ===== src/Handlers.antt =====
-- The handlers of single messages: internal/pkg/message/upstream (client to server) and
-- internal/pkg/message/downstream (server to client). What codec, queue and connections answer is a
-- parameter; what the handlers do to them is a list of effects.
pub mod Downstream
mod Examples
use synp.Prelude.{ℕ, Bool, true, false, Option, none, some, List, [], ◌∷◌}
use synp.Prelude.Text.{Text, codes}
use synp.SyncMap.{SyncMap}
use synp.Fault.{Fault, wrap, Result, ok, err, error_text}
use synp.Message.{
  Message, CommandType, heartbeat, upstream, upstream_ack, downstream, downstream_ack,
}
use synp.Conn.{Conn}
use synp.Retransmit.{Task, Manager}
use synp.Retransmit

-- messagev1.AckPayload
pub record AckPayload : Type 0 where
  pub success : Bool
  pub error_message : Text
  pub timestamp : ℕ

-- messagev1.PushMessage
pub record PushMessage : Type 0 where
  pub message_id : Text
  pub biz_id : ℕ  -- uint64
  pub receiver_id : ℕ  -- uint64
  pub body : Text

-- xmq.Message, as the producer reads it
pub record XmqMessage : Type 0 where
  pub topic : Text
  pub key : Text
  pub val : Text

pub data Effect : Type 0 where
  pushed : Conn → Message → Effect
  touched : Conn → Effect
  produced : XmqMessage → Effect

-- The answers of what the handlers call: pushFunc, protojson.Marshal of a message and of an
-- acknowledgement, Producer.Produce, and the clock in milliseconds.
pub record Answers : Type 0 where
  pub push : Conn → Message → Option Fault
  pub marshal_message : Message → Result Text
  pub marshal_ack : AckPayload → Result Text
  pub produce : XmqMessage → Option Fault
  pub now : ℕ

abbrev pub downstream_msg : PushMessage → Message
downstream_msg p = record { message_id = p.message_id; cmd = downstream; body = p.body }

module _ (ops : SyncMap Task) where
  pub record World : Type 0 where
    pub manager : Manager ops
    pub effects : List Effect

  -- One more effect, the last one first.
  abbrev pub effect : Effect → World → World
  effect e w = record w { effects = e ∷ w.effects }

  -- upstream.UMsgHandler
  pub record UMsgHandler : Type 0 where
    pub cmd_type : CommandType
    pub handle : World → Conn → Message → Option Fault × World

  module _ (answers : Answers) where
    open answers use {push, marshal_message, marshal_ack, produce, now}

    abbrev pub pushing : World → Conn → Message → Option Fault × World
    pushing w conn msg = (push conn msg, effect (pushed conn msg) w)

    abbrev pub forwarded : World → XmqMessage → Option Fault → Option Fault × World
    forwarded w mq none = (none, effect (produced mq) w)
    forwarded w mq (some e) =
        (some (wrap (codes "failed to forward message: ") e), effect (produced mq) w)

    abbrev pub forwarding : World → Text → Message → Result Text → Option Fault × World
    forwarding w topic msg (err e) = (some (wrap (codes "failed to marshal message: ") e), w)
    forwarding w topic msg (ok val) =
        let mq : XmqMessage = record { topic = topic; key = msg.message_id; val = val } in
        forwarded w mq (produce mq)

    -- FrontendMsgHandler.forwardToBackend
    unfoldable pub forward_to_backend : Text → World → Message → Option Fault × World
    forward_to_backend topic w msg = forwarding w topic msg (marshal_message msg)

    abbrev pub ack_of : Option Fault → AckPayload
    ack_of none = record { success = true; error_message = []; timestamp = now }
    ack_of (some e) = record { success = false; error_message = error_text e; timestamp = now }

    abbrev pub acknowledge : World → Conn → Message → Result Text → Option Fault × World
    acknowledge w conn msg (err e) = (some (wrap (codes "failed to marshal ack payload: ") e), w)
    acknowledge w conn msg (ok body) =
        pushing w conn (record { message_id = msg.message_id; cmd = upstream_ack; body = body })

    -- FrontendMsgHandler
    unfoldable pub frontend_msg_handler : Text → UMsgHandler
    unfolding forward_to_backend error_text
    frontend_msg_handler topic = record {
      cmd_type = upstream;
      handle = λ w conn msg.
          let (e, w') = forward_to_backend topic (effect (touched conn) w) msg in
          acknowledge w' conn msg (marshal_ack (ack_of e));
    }

    -- HeartbeatMsgHandler
    unfoldable pub heartbeat_msg_handler : UMsgHandler
    heartbeat_msg_handler = record { cmd_type = heartbeat; handle = pushing }

    -- DownstreamAckHandler
    unfoldable pub downstream_ack_handler : UMsgHandler
    downstream_ack_handler = record {
      cmd_type = downstream_ack;
      handle = λ w conn msg.
          (none, record w { manager = Retransmit.stop_task ops w.manager conn.id msg.message_id });
    }

    -- The loop of BackendMsgHandler.Handle, which returns at the first error.
    unfoldable pub push_each : List Conn → Message → World → Option Fault × World
    push_each [] msg w = (none, w)
    push_each (conn ∷ conns) msg w =
        let rest = push_each conns msg (effect (touched conn) (effect (pushed conn msg) w)) in
        elim (push conn msg) [ some e ↦ (some e, effect (pushed conn msg) w) | none ↦ rest ]

    -- BackendMsgHandler.Handle: the deferred Start runs on every way out of the loop.
    unfoldable pub backend_handle : List Conn → PushMessage → World → Option Fault × World
    unfolding push_each
    backend_handle conns push_msg w =
        let msg = downstream_msg push_msg in
        let (e, w') = push_each conns msg w in
        (e, record w' { manager = Retransmit.start ops w'.manager conns msg })
