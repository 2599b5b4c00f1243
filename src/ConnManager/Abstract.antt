-- ===== src/ConnManager/Abstract.antt =====
-- The manager against its contract: a function from user and device to a connection, which knows
-- nothing of the textual keys, of the map of maps, or of the counters.
use synp.Prelude.{
  ℕ, ◌≡◌, refl, ap, ◌∙◌, Bool, ◌&&◌, Option, none, some, List, [], ◌∷◌, arith, if◌then◌else◌, ◌==◌,
  ==_iff,
}
use mathlib.Core.Path.{fun_ext}
use synp.Prelude.Text.{text_eq, text_eq_iff}
use synp.SyncMap.{SyncMap}
use synp.Session.{User, conn_key, conn_key_iff}
use synp.Conn.{Conn}
use synp.ConnManager.{
  DeviceConns, ConnManager, find_in, new_conn_manager, new_conn, remove_conn, remove_user_conn,
  find_conn,
}
use synp.ConnManager.Lookup.{
  same_place, made, find-new_conn, find-remove_conn, find-remove_user_conn,
}

-- The calls that change what is found, a new connection with its serial number.
pub data Call : Type 0 where
  connects : User → ℕ → Call
  removes clears : User → Call

-- The places of the connections.
abbrev pub Places : Type 0
Places = User → Option Conn

abbrev pub same_user : User → User → Bool
same_user u v = u.bid == v.bid && u.uid == v.uid

abbrev pub same_device : User → User → Bool
same_device u v = same_user u v && text_eq u.device v.device

-- The same calls, on places.
abbrev pub changed : Call → Places → Places
changed (connects u serial) f v = if same_device u v then some (made u serial) else f v
changed (removes u) f v = if same_device u v then none else f v
changed (clears u) f v = if same_user u v then none else f v

abbrev pub replay : List Call → Places → Places
replay [] f = f
replay (c ∷ cs) f = replay cs (changed c f)

-- The textual keys tell users apart as their numbers do.
key-same_user : (u v : User) → text_eq (conn_key u) (conn_key v) ≡ same_user u v
key-same_user u v = ground (
  arith,
  text_eq_iff (conn_key u) (conn_key v),
  conn_key_iff u v,
  ==_iff u.bid v.bid,
  ==_iff u.uid v.uid,
)

place-same_device : (u v : User) → same_place u v ≡ same_device u v
place-same_device u v = ap (λ b. b && text_eq u.device v.device) (key-same_user u v)

module _ (ops : SyncMap DeviceConns) where
  open ops use {load, load-empty}

  unfoldable pub perform : ConnManager ops → Call → ConnManager ops
  unfolding new_conn remove_conn remove_user_conn
  perform m (connects u serial) = (new_conn ops m u serial).0
  perform m (removes u) = (remove_conn ops m u).0
  perform m (clears u) = (remove_user_conn ops m u).0

  unfoldable pub perform_all : ConnManager ops → List Call → ConnManager ops
  unfolding perform
  perform_all m [] = m
  perform_all m (c ∷ cs) = perform_all (perform m c) cs

  find-perform :
      (m : ConnManager ops) (c : Call) → find_conn ops (perform m c) ≡ changed c (find_conn ops m)
  unfolding perform
  find-perform m (connects u serial) = fun_ext λ v.
      find-new_conn ops m u v serial
      ∙ ap (λ b. if b then some (made u serial) else find_conn ops m v) (place-same_device u v)
  find-perform m (removes u) = fun_ext λ v.
      find-remove_conn ops m u v
      ∙ ap (λ b. if b then none else find_conn ops m v) (place-same_device u v)
  find-perform m (clears u) = fun_ext λ v.
      find-remove_user_conn ops m u v
      ∙ ap (λ b. if b then none else find_conn ops m v) (key-same_user u v)

  find-perform_all :
      (m : ConnManager ops) (cs : List Call)
      → find_conn ops (perform_all m cs) ≡ replay cs (find_conn ops m)
  unfolding perform_all
  find-perform_all m [] = refl
  find-perform_all m (c ∷ cs) =
      find-perform_all (perform m c) cs ∙ ap (replay cs) (find-perform m c)

  -- From a new manager on, after any calls of NewConn, RemoveConn and RemoveUserConn in any order,
  -- FindConn is the function of users that the same calls make of the empty one: NewConn sets one
  -- place, RemoveConn empties it, and RemoveUserConn empties those of all devices of the user; users are
  -- told apart by business and number, and their connections by the device.
  pub perform_all_refines :
      (cs : List Call)
      → find_conn ops (perform_all (new_conn_manager ops) cs) ≡ replay cs (λ u. none)
  perform_all_refines cs =
      find-perform_all (new_conn_manager ops) cs
      ∙ ap (replay cs) (
          fun_ext
            λ u. unfold find_conn in ap (λ o. find_in ops o u.device) (load-empty (conn_key u)))
