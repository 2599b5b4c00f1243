-- ===== src/Retransmit/Absent.antt =====
-- A key under which no task stands: what keeps it so.
use synp.Prelude.{
  ◌≡◌, refl, ◌∙◌, ap, sym, Bool, true, false, Option, none, some, List, [], ◌∷◌, arith, All,
  Bool-cases, inl, inr, if◌then◌else◌,
}
use synp.Prelude.Text.{Text, text_eq, text_eq_iff}
use synp.SyncMap.{SyncMap}
use synp.Fault.{Fault}
use synp.Message.{Message}
use synp.Conn.{Conn}
use synp.Retransmit.{
  Task, Manager, task_key, start_one, start, close, run, ran_found, ran, sent, given_up, counted_up,
  reaches,
}
use synp.Retransmit.Started.{load-stored_new}
use synp.Retransmit.Tasks.{
  load-stop_task, load-stop_and_delete, load-clear_by_conn, load-sweep-none,
}
use synp.Retransmit.Counts.{IsValid}
use synp.Retransmit.History.{
  Call, starts, stops, clears, closes, fires, perform, perform_all, perform-IsValid,
}
use synp.Prelude.Word.{add_one32}

-- None of the calls starts a task under the key.
abbrev pub Unstarted : Text → List Call → Type 0
Unstarted key [] = Unit
Unstarted key (starts conns msg ∷ cs) =
    All (λ (c : Conn). text_eq (task_key c.id msg.message_id) key ≡ false) conns × Unstarted key cs
Unstarted key (stops c d ∷ cs) = Unstarted key cs
Unstarted key (clears c ∷ cs) = Unstarted key cs
Unstarted key (closes ∷ cs) = Unstarted key cs
Unstarted key (fires k outcome ∷ cs) = Unstarted key cs

module _ (ops : SyncMap Task) where
  open ops use {load, store, load-store}

  abbrev pub IsAbsent : Text → Manager ops → Type 0
  IsAbsent key m = load m.tasks key ≡ none

  start_one-IsAbsent :
      (m : Manager ops) (c : Conn) (msg : Message) (key : Text)
      → text_eq (task_key c.id msg.message_id) key ≡ false
      → IsAbsent key m
      → IsAbsent key (start_one ops m c msg)
  unfolding start_one
  start_one-IsAbsent m c msg key h n =
      ground
        (arith, load-stored_new ops m c msg (load m.tasks (task_key c.id msg.message_id)) key refl)

  start-IsAbsent :
      (m : Manager ops) (cs : List Conn) (msg : Message) (key : Text)
      → All (λ (c : Conn). text_eq (task_key c.id msg.message_id) key ≡ false) cs
      → IsAbsent key m
      → IsAbsent key (start ops m cs msg)
  unfolding start
  start-IsAbsent m [] msg key h n = n
  start-IsAbsent m (c ∷ cs) msg key h n =
      start-IsAbsent (start_one ops m c msg) cs msg key h.1 (start_one-IsAbsent m c msg key h.0 n)

  close-IsAbsent : (m : Manager ops) (key : Text) → IsAbsent key m → IsAbsent key (close ops m)
  unfolding close
  close-IsAbsent m key n = elim (Bool-cases m.closed) [
    | inl y ↦ rw y n
    | inr x ↦ rw x (
        load-sweep-none ops (λ (t : Task). true) (record m { closed = true }) (ops.range m.tasks)
          key n)
  ]

  -- A task under another key is sent again, or given up.
  ran-IsAbsent :
      (m : Manager ops) (t : Task) (outcome : Option Fault) (key : Text)
      → text_eq t.key key ≡ false
      → IsAbsent key m
      → IsAbsent key (ran ops m t outcome).0
  ran-IsAbsent m t outcome key h n =
      go (reaches (add_one32 t.retransmit_cnt) m.max_retry_cnt) outcome
    where
      stored_other : (u : Task) → load (store m.tasks t.key u) key ≡ none
      stored_other u =
          load-store m.tasks t.key key u ∙ ap (λ b. if b then some u else load m.tasks key) h ∙ n

      given : IsAbsent key (given_up ops m t)
      given =
          load-stop_and_delete ops (record m { tasks = store m.tasks t.key (counted_up ops t) })
            t.key key
          ∙ ap (λ b. if b then none else load (store m.tasks t.key (counted_up ops t)) key) h
          ∙ stored_other (counted_up ops t)

      go :
          (b : Bool) (o : Option Fault)
          → IsAbsent key (if b then (given_up ops m t, []) else sent ops m t o).0
      go true o = given
      go false none = stored_other (record (counted_up ops t) { armed = true })
      go false (some e) = given

  run-IsAbsent :
      (m : Manager ops) (k : Text) (outcome : Option Fault) (key : Text)
      → IsValid ops m
      → IsAbsent key m
      → IsAbsent key (run ops m k outcome).0
  unfolding run
  run-IsAbsent m k outcome key v n = go (load m.tasks k) refl
    where
      go : (o : Option Task) → load m.tasks k ≡ o → IsAbsent key (ran_found ops m o outcome).0
      go none e = n
      go (some t) e =
          ran-IsAbsent m t outcome key
            (elim (Bool-cases (text_eq t.key key)) [
              | inl y ↦
                  let same : k ≡ key = sym (v.placed k t e).0 ∙ (text_eq_iff t.key key).0 y in
                  absurd (cc (e, n, ap (λ j. load m.tasks j) same))
              | inr x ↦ x
            ])
            n

  perform-IsAbsent :
      (m : Manager ops) (c : Call) (key : Text)
      → Unstarted key (c ∷ [])
      → IsValid ops m
      → IsAbsent key m
      → IsAbsent key (perform ops m c)
  unfolding perform
  perform-IsAbsent m (starts conns msg) key u v n = start-IsAbsent m conns msg key u.0 n
  perform-IsAbsent m (stops c d) key u v n = ground (arith, load-stop_task ops m c d key)
  perform-IsAbsent m (clears c) key u v n = ground (arith, load-clear_by_conn ops m c key)
  perform-IsAbsent m closes key u v n = close-IsAbsent m key n
  perform-IsAbsent m (fires k outcome) key u v n = run-IsAbsent m k outcome key v n

  Unstarted-head :
      (key : Text) (c : Call) (cs : List Call)
      → Unstarted key (c ∷ cs)
      → Unstarted key (c ∷ []) × Unstarted key cs
  Unstarted-head key (starts conns msg) cs u = ((u.0, tt), u.1)
  Unstarted-head key (stops c d) cs u = (tt, u)
  Unstarted-head key (clears c) cs u = (tt, u)
  Unstarted-head key closes cs u = (tt, u)
  Unstarted-head key (fires k outcome) cs u = (tt, u)

  -- Whatever calls follow that do not start a task under the key, none stands there.
  pub perform_all-IsAbsent :
      (m : Manager ops) (cs : List Call) (key : Text)
      → Unstarted key cs
      → IsValid ops m
      → IsAbsent key m
      → IsAbsent key (perform_all ops m cs)
  unfolding perform_all
  perform_all-IsAbsent m [] key u v n = n
  perform_all-IsAbsent m (c ∷ cs) key u v n =
      let w = Unstarted-head key c cs u in
      perform_all-IsAbsent (perform ops m c) cs key w.1 (perform-IsValid ops m c v)
        (perform-IsAbsent m c key w.0 v n)
