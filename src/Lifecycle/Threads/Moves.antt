-- ===== src/Lifecycle/Threads/Moves.antt =====
-- What each move does to the deliveries of messages with one key.
use synp.Prelude.{
  ℕ, ◌+◌, ◌≤◌, ◌≡◌, refl, Bool, true, false, Option, none, some, List, [], ◌∷◌, arith, Bool-cases,
  inl, inr, if◌then◌else◌,
}
use synp.Prelude.Text.{Text, text_eq, text_eq_iff}
use synp.Redis.{Redis}
use synp.SyncMap.{SyncMap}
use synp.Fault.{Fault, Result, ok, err}
use synp.Message.{Message, CommandType, heartbeat}
use synp.Conn.{Conn}
use synp.Retransmit.{Task}
use synp.Lifecycle.{
  is_cmd, cache_key, need_uncache_message, cache_message_of, uncache_message_of, uncached,
}
use synp.Lifecycle.Threads.{
  Pc, idle, caching, handling, uncaching, Handled, received, cached, returned, Shared, handled_one,
}

-- What a command of Redis that fails may have done: SETNX removes no key, and DEL no other one.
pub record Lasting (redis : Redis) : Type 0 where
  pub set_nx-keeps :
      (s t : redis.State) (k v j : Text) (r : Result Bool)
      → redis.set_nx s k v ≡ (r, t)
      → redis.exists s j ≡ true
      → redis.exists t j ≡ true
  pub del-keeps :
      (s t : redis.State) (k j : Text) (r : Option Fault)
      → redis.del s k ≡ (r, t)
      → text_eq k j ≡ false
      → redis.exists s j ≡ true
      → redis.exists t j ≡ true

module _ (k : Text) where
  -- The message is no heartbeat, and its cache key is `k`.
  abbrev pub has_key : Conn → Message → Bool
  has_key conn msg =
      if is_cmd msg.cmd heartbeat then false else text_eq (cache_key conn.user.bid msg.message_id) k

  abbrev pub counts : Conn → Message → ℕ
  counts conn msg = if has_key conn msg then 1 else 0

  -- A goroutine that has set the key, and has not left the message.
  abbrev pub holds : Pc → ℕ
  holds (handling conn msg) = counts conn msg
  holds (uncaching conn msg) = counts conn msg
  holds _ = 0

  abbrev pub lets_go : Option Fault → Bool
  lets_go none = false
  lets_go (some e) = need_uncache_message e

  -- How many messages with the key were handled for good: their handler returned no error of the kinds
  -- that take a message off the cache.
  abbrev pub settled : List Handled → ℕ
  settled [] = 0
  settled (h ∷ hs) = (if lets_go h.outcome then 0 else counts h.conn h.msg) + settled hs

module _ (redis : Redis) (lasting : Lasting redis) (ops : SyncMap Task)
    (unmarshal : Text → Result Message) (known : CommandType → Bool) (k : Text) where
  open redis use {State, exists, set_nx, set_nx-ok, del}
  open lasting use {set_nx-keeps, del-keeps}

  abbrev pub Exclusive : Shared redis ops unmarshal known → ℕ → Type 0
  Exclusive m f =
      (settled k m.handled + f ≤ 1) × (1 ≤ settled k m.handled + f → exists m.state k ≡ true)

  abbrev pub Kept :
      Shared redis ops unmarshal known → Pc → Shared redis ops unmarshal known × Pc → Type 0
  Kept m pc (m', pc') =
      (f f' : ℕ)
      → f' + holds k pc ≡ f + holds k pc'
      → holds k pc ≤ f
      → Exclusive m f
      → Exclusive m' f'

  set_nx-Kept :
      (m : Shared redis ops unmarshal known) (conn : Conn) (msg : Message) (r : Result Bool)
      (t : State)
      → is_cmd msg.cmd heartbeat ≡ false
      → set_nx m.state (cache_key conn.user.bid msg.message_id) msg.message_id ≡ (r, t)
      → Kept m (caching conn msg) (record m { state = t }, cached conn msg r)
  set_nx-Kept m conn msg (err e) t n q = λ f f' x o v.
      let keeps =
        set_nx-keeps m.state t (cache_key conn.user.bid msg.message_id) msg.message_id k (err e)
          q in
      (omega (arith, v, x), λ l. keeps (v.1 (omega (arith, l, x))))
  set_nx-Kept m conn msg (ok false) t n q = λ f f' x o v.
      let keeps =
        set_nx-keeps m.state t (cache_key conn.user.bid msg.message_id) msg.message_id k (ok false)
          q in
      (omega (arith, v, x), λ l. keeps (v.1 (omega (arith, l, x))))
  set_nx-Kept m conn msg (ok true) t n q = λ f f' x o v.
      let key = cache_key conn.user.bid msg.message_id in
      let done = set_nx-ok m.state t key msg.message_id true q in
      let at = done.1 k in
      (ground (arith, v, x, n, done.0, text_eq_iff key k), λ l. ground (arith, v, x, n, l, at))

  -- A move that changes neither Redis nor what was handled, and holds no more.
  stays :
      (m : Shared redis ops unmarshal known) (pc pc' : Pc)
      → holds k pc' ≤ holds k pc
      → Kept m pc (m, pc')
  stays m pc pc' h f f' x o v = (omega (arith, v, x, h), λ l. v.1 (omega (arith, l, x, h)))

  pub received-stays :
      (m : Shared redis ops unmarshal known) (conn : Conn) (r : Result Message)
      → Kept m idle (m, received conn r)
  received-stays m conn (err e) = stays m idle idle (omega arith)
  received-stays m conn (ok msg) = stays m idle (caching conn msg) (omega arith)

  pub caching-Kept :
      (m : Shared redis ops unmarshal known) (conn : Conn) (msg : Message)
      → let r = cache_message_of redis ops m.state conn.user.bid msg in
        Kept m (caching conn msg) (record m { state = r.1 }, cached conn msg r.0)
  unfolding cache_message_of
  caching-Kept m conn msg = elim (Bool-cases (is_cmd msg.cmd heartbeat)) [
    | inl y ↦ rw y (λ f f' x o v. (ground (arith, v, x, y), λ l. v.1 (ground (arith, l, x, y))))
    | inr n ↦
        let r = set_nx m.state (cache_key conn.user.bid msg.message_id) msg.message_id in
        rw n (set_nx-Kept m conn msg r.0 r.1 n refl)
  ]

  returned-holds :
      (conn : Conn) (msg : Message) (outcome : Option Fault)
      → holds k (returned conn msg outcome) ≡ (if lets_go k outcome then counts k conn msg else 0)
  unfolding returned
  returned-holds conn msg none = refl
  returned-holds conn msg (some e) = ground arith

  handled-Kept :
      (m : Shared redis ops unmarshal known) (conn : Conn) (msg : Message) (outcome : Option Fault)
      → Kept m (handling conn msg) (handled_one redis ops unmarshal known conn msg outcome m)
  handled-Kept m conn msg outcome f f' x o v =
      let left = returned-holds conn msg outcome in
      elim (Bool-cases (lets_go k outcome)) [
        | inl y ↦ (ground (arith, v.0, x, o, left, y), λ l. v.1 (ground (arith, l, x, o, left, y)))
        | inr n ↦ (ground (arith, v.0, x, o, left, n), λ l. v.1 (ground (arith, l, x, o, left, n)))
      ]

  pub handling-Kept :
      (m : Shared redis ops unmarshal known) (conn : Conn) (msg : Message) (outcome : Option Fault)
      (b : Bool)
      → Kept m
          (handling conn msg)
          (if b then handled_one redis ops unmarshal known conn msg outcome m else (m, idle))
  handling-Kept m conn msg outcome true = handled-Kept m conn msg outcome
  handling-Kept m conn msg outcome false = stays m (handling conn msg) idle (omega arith)

  del-Kept :
      (m : Shared redis ops unmarshal known) (conn : Conn) (msg : Message) (r : Option Fault)
      (t : State)
      → is_cmd msg.cmd heartbeat ≡ false
      → del m.state (cache_key conn.user.bid msg.message_id) ≡ (r, t)
      → Kept m (uncaching conn msg) (record m { state = t }, idle)
  del-Kept m conn msg r t n q f f' x o v =
      let key = cache_key conn.user.bid msg.message_id in
      elim (Bool-cases (text_eq key k)) [
        | inl y ↦ (ground (arith, v.0, x, o), λ l. ground (arith, v.0, l, x, o, n, y))
        | inr d ↦ (
          ground (arith, v.0, x, o),
          λ l. del-keeps m.state t key k r q d (v.1 (ground (arith, l, x, o, n, d))),
        )
      ]

  uncached-state : (r : Option Fault × State) → (uncached redis ops r).1 ≡ r.1
  uncached-state (none, t) = refl
  uncached-state (some e, t) = refl

  uncache-del :
      (s : State) (conn : Conn) (msg : Message)
      → is_cmd msg.cmd heartbeat ≡ false
      → (uncache_message_of redis ops s conn.user.bid msg).1
        ≡ (del s (cache_key conn.user.bid msg.message_id)).1
  unfolding uncache_message_of
  uncache-del s conn msg n = rw n (uncached-state (del s (cache_key conn.user.bid msg.message_id)))

  uncache-heartbeat :
      (s : State) (conn : Conn) (msg : Message)
      → is_cmd msg.cmd heartbeat ≡ true
      → (uncache_message_of redis ops s conn.user.bid msg).1 ≡ s
  unfolding uncache_message_of
  uncache-heartbeat s conn msg y = rw y refl

  pub uncaching-Kept :
      (m : Shared redis ops unmarshal known) (conn : Conn) (msg : Message)
      → Kept m
          (uncaching conn msg)
          (record m { state = (uncache_message_of redis ops m.state conn.user.bid msg).1 }, idle)
  uncaching-Kept m conn msg = elim (Bool-cases (is_cmd msg.cmd heartbeat)) [
    | inl y ↦
        rw (uncache-heartbeat m.state conn msg y) (stays m (uncaching conn msg) idle (omega arith))
    | inr n ↦
        let r = del m.state (cache_key conn.user.bid msg.message_id) in
        rw (uncache-del m.state conn msg n) (del-Kept m conn msg r.0 r.1 n refl)
  ]
