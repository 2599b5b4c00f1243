-- ===== src/Server/Protocol.antt =====
-- The order of the calls of handleConn, as a type of the lists of calls that it may make.
use synp.Prelude.{List, [], ◌∷◌, if◌then◌else◌}
use synp.Prelude.Text.{Text}
use synp.Fault.{Fault}
use synp.Server.{
  Step, upgrades, makes, connects, disconnects, removes, closes, closes_net, releases, receives,
  Progress,
}

-- How far a visit is: what it has, and what it has still to give back.
pub data Stage : Type 0 where
  accepted upgraded managed greeted parted removed shut unwired finished : Stage

-- The calls that may come at a stage. Upgrade, NewConn and OnConnect may fail.
pub data Next : Stage → Step → Stage → Type 0 where
  upgrade_ok : Next accepted upgrades upgraded
  upgrade_failed : Next accepted upgrades shut
  make_ok : Next upgraded makes managed
  make_failed : Next upgraded makes shut
  connect_ok : Next managed connects greeted
  connect_failed : Next managed connects parted
  receive : {payload : Text} → Next greeted (receives payload) greeted
  disconnect : Next greeted disconnects parted
  remove : Next parted removes removed
  close : Next removed closes shut
  close_net : Next shut closes_net unwired
  release : Next unwired releases finished

pub data Legal : Stage → List Step → Stage → Type 0 where
  done : {s : Stage} → Legal s [] s
  next :
      {s t u : Stage} {x : Step} {xs : List Step} → Next s x t → Legal t xs u → Legal s (x ∷ xs) u

-- A function that has returned is at the stage `t`, and one that has not is in its loop.
abbrev pub Leads : Stage → Progress → Stage → Type 0
Leads s p t = Legal s p.steps (if p.returned then t else greeted)
