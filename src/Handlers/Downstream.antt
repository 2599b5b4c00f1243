-- ===== src/Handlers/Downstream.antt =====
-- Messages to the clients, and their acknowledgements.
use synp.Prelude.{
  ◌≡◌, refl, ◌∙◌, ap, false, Option, none, some, List, [], ◌∷◌, ◌++◌, arith, if◌then◌else◌, All,
}
use synp.Prelude.Text.{text_eq_refl}
use synp.SyncMap.{SyncMap}
use synp.Fault.{Fault}
use synp.Message.{Message}
use synp.Conn.{Conn}
use synp.Retransmit.{Task, task_key, stop_task, run, ran_found}
use synp.Retransmit.Counts.{IsValid, stop_task-IsValid}
use synp.Retransmit.History.{Call, perform_all}
use synp.Retransmit.Absent.{Unstarted, perform_all-IsAbsent}
use synp.Retransmit.Started.{Has, start-Has}
use synp.Retransmit.Tasks.{load-stop_task}
use synp.Handlers.{
  World, Answers, PushMessage, pushed, touched, effect, push_each, backend_handle, downstream_msg,
  downstream_ack_handler,
}

module _ (ops : SyncMap Task) (answers : Answers) where
  open answers use {push}

  -- The effects of sending to connections with success, the last one first.
  abbrev pub sent_to : List Conn → Message → World ops → World ops
  sent_to [] msg w = w
  sent_to (c ∷ cs) msg w = sent_to cs msg (effect ops (touched c) (effect ops (pushed c msg) w))

  abbrev pub Sends : Message → Conn → Type 0
  Sends msg c = push c msg ≡ none

  push_each-ok :
      (cs : List Conn) (msg : Message) (w : World ops)
      → All (Sends msg) cs
      → push_each ops answers cs msg w ≡ (none, sent_to cs msg w)
  unfolding push_each
  push_each-ok [] msg w h = refl
  push_each-ok (c ∷ cs) msg w h =
      rw (h.0, push_each)
        (push_each-ok cs msg (effect ops (touched c) (effect ops (pushed c msg) w)) h.1)

  push_each-stops :
      (before : List Conn) (bad : Conn) (after : List Conn) (msg : Message) (w : World ops)
      (e : Fault)
      → All (Sends msg) before
      → push bad msg ≡ some e
      → push_each ops answers (before ++ bad ∷ after) msg w
        ≡ (some e, effect ops (pushed bad msg) (sent_to before msg w))
  unfolding push_each
  push_each-stops [] bad after msg w e h f = rw (f, push_each)
  push_each-stops (c ∷ cs) bad after msg w e h f =
      rw (h.0, push_each)
        (push_each-stops cs bad after msg (effect ops (touched c) (effect ops (pushed c msg) w)) e
          h.1 f)

  -- Where every connection takes the message there is no error, and each was sent to and marked as
  -- active, once and in order.
  pub backend_handle-ok :
      (cs : List Conn) (p : PushMessage) (w : World ops)
      → All (Sends (downstream_msg p)) cs
      → ((backend_handle ops answers cs p w).0 ≡ none)
        × ((backend_handle ops answers cs p w).1.effects
            ≡ (sent_to cs (downstream_msg p) w).effects)
  unfolding backend_handle
  backend_handle-ok cs p w h = (
    ap (λ r. r.0) (push_each-ok cs (downstream_msg p) w h),
    ap (λ r. r.1.effects) (push_each-ok cs (downstream_msg p) w h),
  )

  -- At the first connection that fails, its error is returned, and those behind it are not sent to.
  pub backend_handle-stops :
      (before : List Conn) (bad : Conn) (after : List Conn) (p : PushMessage) (w : World ops)
      (e : Fault)
      → All (Sends (downstream_msg p)) before
      → push bad (downstream_msg p) ≡ some e
      → ((backend_handle ops answers (before ++ bad ∷ after) p w).0 ≡ some e)
        × ((backend_handle ops answers (before ++ bad ∷ after) p w).1.effects
            ≡ pushed bad (downstream_msg p) ∷ (sent_to before (downstream_msg p) w).effects)
  unfolding backend_handle
  backend_handle-stops before bad after p w e h f =
      let r = push_each-stops before bad after (downstream_msg p) w e h f in
      (ap (λ r. r.0) r, ap (λ r. r.1.effects) r)

  pub push_each-manager :
      (cs : List Conn) (msg : Message) (w : World ops)
      → (push_each ops answers cs msg w).1.manager ≡ w.manager
  unfolding push_each
  push_each-manager [] msg w = refl
  push_each-manager (c ∷ cs) msg w =
      ground
        (arith, push_each-manager cs msg (effect ops (touched c) (effect ops (pushed c msg) w)))

  -- Whether sending failed or not: every connection, also one that was not sent to, has a task that
  -- will send the message, unless the retransmit manager is closed.
  pub backend_handle-Has :
      (cs : List Conn) (p : PushMessage) (w : World ops)
      → w.manager.closed ≡ false
      → All (Has ops (backend_handle ops answers cs p w).1.manager (downstream_msg p)) cs
  unfolding backend_handle
  backend_handle-Has cs p w o =
      start-Has ops (push_each ops answers cs (downstream_msg p) w).1.manager cs (downstream_msg p)
        (ap (λ m. m.closed) (push_each-manager cs (downstream_msg p) w) ∙ o)

  -- With a manager that satisfies the invariant, after the handler of a client's acknowledgement: whatever
  -- calls of the retransmit manager and fired timers follow, one after another, as long as no Start
  -- is for the same connection and message id, a timer of the task that fires then sends nothing and
  -- changes nothing. Each call and each firing is one step here.
  pub ack_stops :
      (w : World ops) (c : Conn) (msg : Message) (cs : List Call) (outcome : Option Fault)
      → IsValid ops w.manager
      → Unstarted (task_key c.id msg.message_id) cs
      → let m =
          perform_all ops ((downstream_ack_handler ops answers).handle w c msg).1.manager cs in
        run ops m (task_key c.id msg.message_id) outcome ≡ (m, [])
  unfolding downstream_ack_handler run
  ack_stops w c msg cs outcome v u =
      let key = task_key c.id msg.message_id in
      let stopped = stop_task ops w.manager c.id msg.message_id in
      let gone : ops.load stopped.tasks key ≡ none =
        load-stop_task ops w.manager c.id msg.message_id key
        ∙ ap (λ b. if b then none else ops.load w.manager.tasks key) (text_eq_refl key) in
      ap (λ o. ran_found ops (perform_all ops stopped cs) o outcome)
        (perform_all-IsAbsent ops stopped cs key u
          (stop_task-IsValid ops w.manager c.id msg.message_id v) gone)
