-- ===== src/Server/Pushed.antt =====
-- A message that the business servers push reaches the retransmission of every device.
use synp.Prelude.{
  ℕ, ◌≡◌, refl, sym, ap, ◌∙◌, true, false, Option, none, some, List, [], ◌∷◌, map, arith, All,
  subst, Bool-cases, inl, inr, ◌==◌,
}
use mathlib.Core.Option.{some-injective}
use synp.Prelude.Text.{Text, text_eq}
use synp.Prelude.Dict.{lookup}
use synp.Redis.{Redis}
use synp.SyncMap.{SyncMap}
use synp.Fault.{Fault, Result, ok}
use synp.Message.{Message}
use synp.Session.{User, conn_key, conn_key_iff}
use synp.Conn.{Conn}
use synp.Conn.Closing.{Runtime}
use synp.ConnManager.{
  DeviceConns, ConnManager, find_conn, find_in, find_user_conn, all_in, find_all, find,
}
use synp.Retransmit.{Task}
use synp.Retransmit.Started.{Has}
use synp.Handlers.{World, Answers, PushMessage, downstream_msg, backend_handle}
use synp.Handlers.Downstream.{backend_handle-Has}
use synp.Lifecycle.{on_receive_from_backend}
use synp.Lifecycle.Registered.{lifecycle_handler}
use synp.Server.{receiver, find_receiver, consume_push_message}

All-lookup :
    (P : Conn → Type 0) (dc : DeviceConns) (d : Text) (c : Conn)
    → All P (map (λ p. p.1) dc)
    → lookup d dc ≡ some c
    → P c
unfolding lookup
All-lookup P [] d c a e = cc
All-lookup P ((j, b) ∷ dc) d c a e = elim (Bool-cases (text_eq j d)) [
  | inl y ↦ subst P (some-injective b c (simp y at e)) a.0
  | inr n ↦ All-lookup P dc d c a.1 (simp n at e)
]

-- A user with a connection is found.
find_all-some :
    (dc : DeviceConns) (d : Text) (c : Conn)
    → lookup d dc ≡ some c
    → find_all dc ≡ (map (λ p. p.1) dc, true)
unfolding lookup find_all
find_all-some [] d c e = cc
find_all-some (p ∷ dc) d c e = ground arith

-- The message is complete: lifecycle.Handler hands it on.
pub record IsComplete (msg : PushMessage) : Type 0 where
  pub has_id : text_eq msg.message_id [] ≡ false
  pub has_biz : (msg.biz_id == 0) ≡ false
  pub has_receiver : (msg.receiver_id == 0) ≡ false

module _ (redis : Redis) (conns : SyncMap DeviceConns) (tasks : SyncMap Task)
    (answers : Answers) where
  open conns use {load}

  backend-eq :
      (cs : List Conn) (msg : PushMessage) (w : World tasks)
      → IsComplete msg
      → on_receive_from_backend tasks answers cs msg w ≡ backend_handle tasks answers cs msg w
  unfolding on_receive_from_backend
  backend-eq cs msg w k = ground (arith, k.has_id, k.has_biz, k.has_receiver)

  consume-manager :
      (topic val : Text) (unmarshal : Text → Result Message) (net_err : Conn → Option Fault)
      (decode : Text → Result PushMessage) (m : ConnManager conns) (s : redis.State)
      (w : World tasks) (objects : ℕ → Runtime) (msg : PushMessage) (cs : List Conn)
      → decode val ≡ ok msg
      → IsComplete msg
      → find_user_conn conns m (receiver conns msg) ≡ (cs, true)
      → (consume_push_message conns
          (lifecycle_handler redis tasks answers topic unmarshal net_err)
          decode
          m
          val
          (s, (w, objects))).1.1.0.manager
        ≡ (backend_handle tasks answers cs msg w).1.manager
  unfolding consume_push_message lifecycle_handler find_receiver
  consume-manager topic val unmarshal net_err decode m s w objects msg cs d k e =
      simp (d, e) (ap (λ r. r.1.manager) (backend-eq cs msg w k))

  -- A pushed message that json reads and that is complete: every connection that the manager has for
  -- its receiver, on whatever device, has a task that will send it until it is acknowledged, also if
  -- sending failed, unless the retransmit manager is closed.
  pub consume_push_message-Has :
      (topic val : Text) (unmarshal : Text → Result Message) (net_err : Conn → Option Fault)
      (decode : Text → Result PushMessage) (m : ConnManager conns) (s : redis.State)
      (w : World tasks) (objects : ℕ → Runtime) (msg : PushMessage) (u : User) (c : Conn)
      → decode val ≡ ok msg
      → IsComplete msg
      → w.manager.closed ≡ false
      → u.bid ≡ msg.biz_id
      → u.uid ≡ msg.receiver_id
      → find_conn conns m u ≡ some c
      → Has tasks
          (consume_push_message conns
            (lifecycle_handler redis tasks answers topic unmarshal net_err)
            decode
            m
            val
            (s, (w, objects))).1.1.0.manager
          (downstream_msg msg)
          c
  consume_push_message-Has topic val unmarshal net_err decode m s w objects msg u c d k o b r f =
      go (load m.conns (conn_key u)) refl (unfold find_conn in f)
    where
      same_key : conn_key u ≡ conn_key (receiver conns msg)
      same_key = (conn_key_iff u (receiver conns msg)).1 (b, r)

      go :
          (e : Option DeviceConns)
          → load m.conns (conn_key u) ≡ e
          → find_in conns e u.device ≡ some c
          → Has tasks
              (consume_push_message conns
                (lifecycle_handler redis tasks answers topic unmarshal net_err)
                decode
                m
                val
                (s, (w, objects))).1.1.0.manager
              (downstream_msg msg)
              c
      go none h l = cc
      go (some dc) h l =
          let cs = map (λ p. p.1) dc in
          let l' : lookup u.device dc ≡ some c = unfold find in l in
          let all_found : find_user_conn conns m (receiver conns msg) ≡ (cs, true) =
            unfold find_user_conn in
            (ap (all_in conns) (ap (load m.conns) (sym same_key) ∙ h)
              ∙ find_all-some dc u.device c l') in
          subst (λ n. Has tasks n (downstream_msg msg) c)
            (sym (
              consume-manager topic val unmarshal net_err decode m s w objects msg cs d k
                all_found))
            (All-lookup
              (Has tasks (backend_handle tasks answers cs msg w).1.manager (downstream_msg msg)) dc
              u.device c (backend_handle-Has tasks answers cs msg w o) l')
