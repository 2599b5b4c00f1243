-- ===== src/Lifecycle/Cache.antt =====
-- Messages from clients: duplicates, unknown commands and heartbeats.
use synp.Prelude.{
  ℕ, ◌++◌, ◌≡◌, refl, ◌∙◌, ap, ◌↔◌, Bool, true, false, ◌||◌, not, Option, none, some, [], ◌∷◌,
  arith,
}
use synp.Prelude.Text.{
  Text, text_eq, text_eq_refl, decimal, colon, cut_at_colon, decimal-injective, decimal-IsColonFree,
}
use synp.Redis.{Redis}
use synp.SyncMap.{SyncMap}
use synp.Fault.{Fault, sentinel, Result, ok, message_duplicated}
use synp.Message.{Message, CommandType, heartbeat}
use synp.Conn.{Conn}
use synp.Retransmit.{Task}
use synp.Handlers.{World, UMsgHandler}
use synp.Lifecycle.{
  is_cmd, cache_key, need_uncache_message, decode_payload, finished, handled, deduplicated,
  on_receive_from_frontend,
}

-- The cache keys of two messages agree exactly when business and message id do.
pub cache_key_iff : (b c : ℕ) (m n : Text) → (cache_key b m ≡ cache_key c n) ↔ ((b ≡ c) × (m ≡ n))
unfolding cache_key
cache_key_iff b c m n = ((λ e. parts e), (λ e. cc (e.0, e.1)))
  where
    parts : decimal b ++ colon ∷ m ≡ decimal c ++ colon ∷ n → (b ≡ c) × (m ≡ n)
    parts e =
        let cut =
          cut_at_colon (decimal b) (decimal c) m n (decimal-IsColonFree b) (decimal-IsColonFree c)
            e in
        (decimal-injective b c cut.0, cut.1)

-- A payload is accepted exactly when the codec reads it and it is a heartbeat or has a message id.
pub decode_payload_iff :
    (unmarshal : Text → Result Message) (payload : Text) (msg : Message)
    → (decode_payload unmarshal payload ≡ ok msg) ↔ (
        (unmarshal payload ≡ ok msg)
        × ((is_cmd msg.cmd heartbeat || not (text_eq msg.message_id [])) ≡ true))
unfolding decode_payload
decode_payload_iff unmarshal payload msg = ((λ h. ground arith), (λ h. ground arith))

-- The error is not of the kinds that take a message off the cache.
abbrev pub Keeps : Option Fault → Type 0
Keeps o = (e : Fault) → o ≡ some e → need_uncache_message e ≡ false

abbrev pub Table : SyncMap Task → Type 0
Table ops = CommandType → Option (UMsgHandler ops)

-- No handler of the message's command returns such an error for it.
abbrev pub Kept : (ops : SyncMap Task) → Table ops → World ops → Conn → Message → Type 0
Kept ops table w conn msg =
    (h : UMsgHandler ops) → table msg.cmd ≡ some h → Keeps (h.handle w conn msg).0

module _ (redis : Redis) (ops : SyncMap Task) where
  open redis use {State, exists, set_nx, set_nx-ok}

  finished-state :
      (s : State) (biz_id : ℕ) (msg : Message) (r : Option Fault × World ops)
      → Keeps r.0
      → finished redis ops s biz_id msg r ≡ (r.0, s, r.1)
  finished-state s biz_id msg (none, w) k = refl
  finished-state s biz_id msg (some e, w) k = rw (k e refl)

  handled-state :
      (s : State) (w : World ops) (conn : Conn) (msg : Message) (o : Option (UMsgHandler ops))
      → ((h : UMsgHandler ops) → o ≡ some h → Keeps (h.handle w conn msg).0)
      → (handled redis ops s w conn msg o).1 ≡ s
  handled-state s w conn msg none k = refl
  handled-state s w conn msg (some h) k =
      ap (λ r. r.1) (finished-state s conn.user.bid msg (h.handle w conn msg) (k h refl))

  deduplicated-state :
      (table : Table ops) (w : World ops) (conn : Conn) (msg : Message) (b : Bool) (s : State)
      → Kept ops table w conn msg
      → (deduplicated redis ops table w conn msg (ok b, s)).1 ≡ s
  deduplicated-state table w conn msg true s k = handled-state s w conn msg (table msg.cmd) k
  deduplicated-state table w conn msg false s k = refl

  receive-eq :
      (table : Table ops) (unmarshal : Text → Result Message) (s t : State) (w : World ops)
      (conn : Conn) (payload : Text) (msg : Message) (b : Bool)
      → decode_payload unmarshal payload ≡ ok msg
      → is_cmd msg.cmd heartbeat ≡ false
      → set_nx s (cache_key conn.user.bid msg.message_id) msg.message_id ≡ (ok b, t)
      → on_receive_from_frontend redis ops table unmarshal s w conn payload
        ≡ deduplicated redis ops table w conn msg (ok b, t)
  unfolding on_receive_from_frontend
  receive-eq table unmarshal s t w conn payload msg b d c r = simp (d, c, r)

  -- A message that Redis has a key for is refused as a duplicate, and nothing else happens.
  receive_again :
      (table : Table ops) (unmarshal : Text → Result Message) (s t : State) (w : World ops)
      (conn : Conn) (payload : Text) (msg : Message) (b : Bool)
      → decode_payload unmarshal payload ≡ ok msg
      → is_cmd msg.cmd heartbeat ≡ false
      → exists s (cache_key conn.user.bid msg.message_id) ≡ true
      → set_nx s (cache_key conn.user.bid msg.message_id) msg.message_id ≡ (ok b, t)
      → on_receive_from_frontend redis ops table unmarshal s w conn payload
        ≡ (some (sentinel message_duplicated), t, w)
  receive_again table unmarshal s t w conn payload msg b d c there r =
      let refused : b ≡ false =
        ground (arith, set_nx-ok s t (cache_key conn.user.bid msg.message_id) msg.message_id b r) in
      receive-eq table unmarshal s t w conn payload msg b d c r
      ∙ ap (λ b'. deduplicated redis ops table w conn msg (ok b', t)) refused

  -- A message that is no heartbeat is sent twice in one business, from any connections, and Redis
  -- answers both times. Whatever became of the first delivery, as long as its handler returned no
  -- error of the two kinds that take it off the cache: the second one is refused as a duplicate,
  -- and no handler runs.
  pub second_delivery_ignored :
      (table : Table ops) (unmarshal : Text → Result Message) (s t u : State) (w : World ops)
      (conn conn' : Conn) (payload : Text) (msg : Message) (b c : Bool)
      → decode_payload unmarshal payload ≡ ok msg
      → is_cmd msg.cmd heartbeat ≡ false
      → Kept ops table w conn msg
      → set_nx s (cache_key conn.user.bid msg.message_id) msg.message_id ≡ (ok b, t)
      → set_nx t (cache_key conn.user.bid msg.message_id) msg.message_id ≡ (ok c, u)
      → conn'.user.bid ≡ conn.user.bid
      → let first = on_receive_from_frontend redis ops table unmarshal s w conn payload in
        on_receive_from_frontend redis ops table unmarshal first.1 first.2 conn' payload
        ≡ (some (sentinel message_duplicated), u, first.2)
  second_delivery_ignored table unmarshal s t u w conn conn' payload msg b c d h k r r' same =
      let key = cache_key conn.user.bid msg.message_id in
      let first = receive-eq table unmarshal s t w conn payload msg b d h r in
      let stays : (on_receive_from_frontend redis ops table unmarshal s w conn payload).1 ≡ t =
        ap (λ r. r.1) first ∙ deduplicated-state table w conn msg b t k in
      rw stays (
        receive_again table unmarshal t u _ conn' payload msg c d h
          (rw same (ground (arith, (set_nx-ok s t key msg.message_id b r).1 key, text_eq_refl key)))
          (rw same r'))

  -- A heartbeat goes to its handler every time: Redis is neither asked nor changed.
  pub heartbeat_uncached :
      (table : Table ops) (unmarshal : Text → Result Message) (s : State) (w : World ops)
      (conn : Conn) (payload : Text) (msg : Message) (h : UMsgHandler ops)
      → unmarshal payload ≡ ok msg
      → is_cmd msg.cmd heartbeat ≡ true
      → table msg.cmd ≡ some h
      → on_receive_from_frontend redis ops table unmarshal s w conn payload
        ≡ ((h.handle w conn msg).0, s, (h.handle w conn msg).1)
  unfolding on_receive_from_frontend
  heartbeat_uncached table unmarshal s w conn payload msg h d c e =
      simp (d, c, e) (finish (h.handle w conn msg))
    where
      finish :
          (r : Option Fault × World ops) → finished redis ops s conn.user.bid msg r ≡ (r.0, s, r.1)
      finish (none, w') = refl
      finish (some x, w') = ground (arith, c)
