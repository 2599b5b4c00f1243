-- ===== src/Message.antt =====
-- The messages of the synp-api package, as far as the program reads them, and
-- internal/pkg/message/types.go: how a message is pushed to a connection.
use synp.Prelude.{ℕ, Option, none, some}
use synp.Prelude.Text.{Text, codes}
use synp.Fault.{Fault, wrap, Result, ok, err}
use native.Mathlib.Decide.{ℕ_discrete}

-- commonv1.CommandType: the commands that the program names, and any other number.
pub data CommandType : Type 0 where
  heartbeat upstream upstream_ack downstream downstream_ack : CommandType
  unnamed : ℕ → CommandType

unfoldable pub CommandType-discrete : Discrete CommandType
unfolding ℕ_discrete
CommandType-discrete = hlevel ℕ_discrete

-- messagev1.Message
pub record Message : Type 0 where
  pub message_id : Text
  pub cmd : CommandType
  pub body : Text

abbrev pub sent_reply : Option Fault → Option Fault
sent_reply (some e) = some (wrap (codes "failed to send message: ") e)
sent_reply none = none

abbrev pub pushed_payload : (Text → Option Fault) → Result Text → Option Fault
pushed_payload send (err e) = some (wrap (codes "failed to marshal message: ") e)
pushed_payload send (ok payload) = sent_reply (send payload)

-- What the function that DefaultPushFunc makes returns: codec.Marshal's reply, then conn.Send's.
unfoldable pub default_push_func :
    (Message → Result Text) → (Text → Option Fault) → Message → Option Fault
default_push_func marshal send msg = pushed_payload send (marshal msg)
