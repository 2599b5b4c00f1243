-- ===== src/Retransmit/Started.antt =====
-- The tasks that Start makes.
use synp.Prelude.{
  ◌≡◌, refl, ◌∙◌, ◌≢◌, false, Option, none, some, List, [], ◌∷◌, arith, if◌then◌else◌, All,
}
use synp.Prelude.Text.{Text, text_eq, text_eq_iff, text_eq_refl}
use synp.SyncMap.{SyncMap}
use synp.Message.{Message}
use synp.Conn.{Conn}
use synp.Retransmit.{Task, Manager, task_key, new_task, stored_new, start_one, start}

module _ (ops : SyncMap Task) where
  open ops use {Map, load, store, load-store}

  abbrev pub Has : Manager ops → Message → Conn → Type 0
  Has m msg c = load m.tasks (task_key c.id msg.message_id) ≢ none

  pub load-stored_new :
      (m : Manager ops) (c : Conn) (msg : Message) (o : Option Task) (k : Text)
      → load m.tasks (task_key c.id msg.message_id) ≡ o
      → load (stored_new ops m (new_task ops c msg) o).tasks k ≡ (elim (load m.tasks k) [
        | some t ↦ some t
        | none ↦
            if text_eq (task_key c.id msg.message_id) k
            then elim o [ none ↦ some (new_task ops c msg) | some t ↦ none ]
            else none
      ])
  load-stored_new m c msg none k e = ground (
    arith,
    load-store m.tasks (task_key c.id msg.message_id) k (new_task ops c msg),
    text_eq_iff (task_key c.id msg.message_id) k,
  )
  load-stored_new m c msg (some t) k e =
      ground (arith, text_eq_iff (task_key c.id msg.message_id) k)

  start_one-Has :
      (m : Manager ops) (c : Conn) (msg : Message)
      → m.closed ≡ false
      → Has (start_one ops m c msg) msg c
  unfolding start_one
  start_one-Has m c msg o = simp o (go (load m.tasks (task_key c.id msg.message_id)) refl)
    where
      go :
          (r : Option Task)
          → load m.tasks (task_key c.id msg.message_id) ≡ r
          → Has (stored_new ops m (new_task ops c msg) r) msg c
      go none e = ground (
        arith,
        load-store m.tasks (task_key c.id msg.message_id) (task_key c.id msg.message_id)
            (new_task ops c msg),
        text_eq_refl (task_key c.id msg.message_id),
      )
      go (some t) e = ground arith

  start_one-keeps :
      (m : Manager ops) (c : Conn) (msg : Message) (k : Text)
      → load m.tasks k ≢ none
      → load (start_one ops m c msg).tasks k ≢ none
  unfolding start_one
  start_one-keeps m c msg k h =
      ground (arith, load-stored_new m c msg (load m.tasks (task_key c.id msg.message_id)) k refl)

  pub start_one-open :
      (m : Manager ops) (c : Conn) (msg : Message) → (start_one ops m c msg).closed ≡ m.closed
  unfolding start_one
  start_one-open m c msg = ground arith

  pub start-keeps :
      (m : Manager ops) (cs : List Conn) (msg : Message) (k : Text)
      → load m.tasks k ≢ none
      → load (start ops m cs msg).tasks k ≢ none
  unfolding start
  start-keeps m [] msg k h = h
  start-keeps m (c ∷ cs) msg k h =
      start-keeps (start_one ops m c msg) cs msg k (start_one-keeps m c msg k h)

  -- Unless the manager is closed, Start leaves a task for the message on each of the connections.
  pub start-Has :
      (m : Manager ops) (cs : List Conn) (msg : Message)
      → m.closed ≡ false
      → All (Has (start ops m cs msg) msg) cs
  unfolding start
  start-Has m [] msg o = tt
  start-Has m (c ∷ cs) msg o = (
    start-keeps (start_one ops m c msg) cs msg (task_key c.id msg.message_id)
        (start_one-Has m c msg o),
    start-Has (start_one ops m c msg) cs msg (start_one-open m c msg ∙ o),
  )
