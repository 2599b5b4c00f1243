-- ===== src/Lifecycle/Program.antt =====
-- The handlers that internal/pkg/providers/module.go registers.
use synp.Prelude.{◌≡◌, refl, sym, ◌∙◌, subst, Bool, false, Option, none, some, List, [], ◌∷◌, arith}
use mathlib.Core.Option.{some-injective}
use synp.Prelude.Text.{Text}
use synp.Redis.{Redis}
use synp.SyncMap.{SyncMap}
use synp.Fault.{Fault, sentinel, Result, ok, err, is, message_duplicated}
use synp.Message.{
  Message, CommandType, heartbeat, upstream, upstream_ack, downstream, downstream_ack, unnamed,
  default_push_func, sent_reply, pushed_payload,
}
use synp.Conn.{Conn}
use synp.Retransmit.{Task}
use synp.Handlers.{
  World, UMsgHandler, Answers, AckPayload, frontend_msg_handler, heartbeat_msg_handler,
  downstream_ack_handler, acknowledge,
}
use synp.Lifecycle.{
  is_cmd, cache_key, need_uncache_message, decode_payload, new_handler, on_receive_from_frontend,
}
use synp.Lifecycle.Cache.{Keeps, second_delivery_ignored}

module _ (ops : SyncMap Task) (answers : Answers) (topic : Text) where
  open answers use {push, marshal_ack}

  -- The group "upstream-message-handler" of MessageHandlerFxModule.
  unfoldable pub program_handlers : List (UMsgHandler ops)
  unfolding frontend_msg_handler heartbeat_msg_handler downstream_ack_handler
  program_handlers =
      heartbeat_msg_handler ops answers
      ∷ frontend_msg_handler ops answers topic
      ∷ downstream_ack_handler ops answers
      ∷ []

  abbrev pub program_table : CommandType → Option (UMsgHandler ops)
  program_table = new_handler ops program_handlers

  -- Each of the three commands that a client sends has its handler, and no other command has one.
  pub program_table_lem :
      (c : CommandType)
      → program_table c ≡ (elim c [
        | heartbeat ↦ some (heartbeat_msg_handler ops answers)
        | upstream ↦ some (frontend_msg_handler ops answers topic)
        | downstream_ack ↦ some (downstream_ack_handler ops answers)
        | _ ↦ none
      ])
  unfolding new_handler program_handlers
  program_table_lem heartbeat = refl
  program_table_lem upstream = refl
  program_table_lem upstream_ack = refl
  program_table_lem downstream = refl
  program_table_lem downstream_ack = refl
  program_table_lem (unnamed n) = refl

  -- The errors of pushFunc and of the codec are not of the kinds that the cache looks for.
  pub record IsQuiet : Type 0 where
    pub push_quiet :
        (c : Conn) (m : Message) (e : Fault) → push c m ≡ some e → need_uncache_message e ≡ false
    pub ack_quiet :
        (p : AckPayload) (e : Fault) → marshal_ack p ≡ err e → need_uncache_message e ≡ false

  acknowledge-Keeps :
      (q : IsQuiet) (w : World ops) (conn : Conn) (msg : Message) (p : AckPayload) (r : Result Text)
      → marshal_ack p ≡ r
      → Keeps (acknowledge ops answers w conn msg r).0
  acknowledge-Keeps q w conn msg p (ok body) h e f = q.push_quiet conn _ e f
  acknowledge-Keeps q w conn msg p (err x) h e f =
      unfold need_uncache_message is in ground (arith, q.ack_quiet p x)

  same_handler :
      (x h : UMsgHandler ops) (w : World ops) (conn : Conn) (msg : Message)
      → some x ≡ some h
      → Keeps (x.handle w conn msg).0
      → Keeps (h.handle w conn msg).0
  same_handler x h w conn msg e k =
      subst (λ y. Keeps (y.handle w conn msg).0) (some-injective x h e) k

  pub handler-Keeps :
      (q : IsQuiet) (c : CommandType) (h : UMsgHandler ops) (w : World ops) (conn : Conn)
      (msg : Message)
      → program_table c ≡ some h
      → Keeps (h.handle w conn msg).0
  unfolding heartbeat_msg_handler frontend_msg_handler downstream_ack_handler
  handler-Keeps q heartbeat h w conn msg t =
      same_handler _ h w conn msg (sym (program_table_lem heartbeat) ∙ t)
        (λ e f. q.push_quiet conn msg e f)
  handler-Keeps q upstream h w conn msg t =
      same_handler _ h w conn msg (sym (program_table_lem upstream) ∙ t)
        (acknowledge-Keeps q _ conn msg _ _ refl)
  handler-Keeps q downstream_ack h w conn msg t =
      same_handler _ h w conn msg (sym (program_table_lem downstream_ack) ∙ t) (λ e f. cc)
  handler-Keeps q upstream_ack h w conn msg t = cc (program_table_lem upstream_ack)
  handler-Keeps q downstream h w conn msg t = cc (program_table_lem downstream)
  handler-Keeps q (unnamed n) h w conn msg t = cc (program_table_lem (unnamed n))

  -- With the handlers that the program registers, a second delivery of a message that is no
  -- heartbeat is refused as a duplicate whatever became of the first one: also when the first was
  -- not acknowledged to the client, or could not be handed to the queue. No handler runs again.
  pub program_second_delivery :
      (redis : Redis) (unmarshal : Text → Result Message) (s t u : redis.State) (w : World ops)
      (conn conn' : Conn) (payload : Text) (msg : Message) (b c : Bool)
      → IsQuiet
      → decode_payload unmarshal payload ≡ ok msg
      → is_cmd msg.cmd heartbeat ≡ false
      → redis.set_nx s (cache_key conn.user.bid msg.message_id) msg.message_id ≡ (ok b, t)
      → redis.set_nx t (cache_key conn.user.bid msg.message_id) msg.message_id ≡ (ok c, u)
      → conn'.user.bid ≡ conn.user.bid
      → let first = on_receive_from_frontend redis ops program_table unmarshal s w conn payload in
        on_receive_from_frontend redis ops program_table unmarshal first.1 first.2 conn' payload
        ≡ (some (sentinel message_duplicated), u, first.2)
  program_second_delivery redis unmarshal s t u w conn conn' payload msg b c q d h r r' same =
      second_delivery_ignored redis ops program_table unmarshal s t u w conn conn' payload msg b c d
        h (λ x e. handler-Keeps q msg.cmd x w conn msg e) r r' same

-- The errors that DefaultPushFunc returns are those of the codec and of Conn.Send with a text in
-- front, so they are of a kind that takes a message off the cache only if those are.
pub default_push_func-quiet :
    (marshal : Message → Result Text) (send : Text → Option Fault) (m : Message) (e : Fault)
    → ((x : Fault) → marshal m ≡ err x → need_uncache_message x ≡ false)
    → ((p : Text) (x : Fault) → send p ≡ some x → need_uncache_message x ≡ false)
    → default_push_func marshal send m ≡ some e
    → need_uncache_message e ≡ false
unfolding default_push_func
default_push_func-quiet marshal send m e qm qs h = by_payload (marshal m) refl h
  where
    by_reply :
        (payload : Text) (r : Option Fault)
        → send payload ≡ r
        → sent_reply r ≡ some e
        → need_uncache_message e ≡ false
    by_reply payload none f g = cc
    by_reply payload (some x) f g = unfold need_uncache_message is in ground (arith, qs payload x)

    by_payload :
        (r : Result Text)
        → marshal m ≡ r
        → pushed_payload send r ≡ some e
        → need_uncache_message e ≡ false
    by_payload (err x) f g = unfold need_uncache_message is in ground (arith, qm x)
    by_payload (ok payload) f g = by_reply payload (send payload) refl g
