-- ===== src/Conn/Defs.antt =====
-- A connection as the other components hold it: an object of its own, with the identity of the user
-- of its session.
use synp.Prelude.{ℕ}
use synp.Prelude.Text.{Text}
use synp.Session.{User}

-- `serial` tells the objects apart that NewConn made; `id` and `user` are what ID() and
-- Session().User() return.
pub record Conn : Type 0 where
  pub serial : ℕ
  pub id : Text
  pub user : User
