-- ===== src/ConnManager/Threads/Apart.antt =====
-- Any interleaving of goroutines, each of which serves one user, against the goroutines of one user alone.
use synp.Prelude.{
  ℕ, ◌≡◌, ◌≢◌, refl, ap, sym, ◌∙◌, subst, false, Option, none, some, List, [], ◌∷◌, if◌then◌else◌,
  ◌==◌, ==_iff, arith, Bool-cases, inl, inr, All,
}
use synp.Prelude.Text.{Text, text_eq, text_eq_iff}
use synp.Prelude.Goroutines.{place, moved, place-moved, place-moved_other}
use synp.SyncMap.{SyncMap}
use synp.Session.{User, conn_key}
use synp.Conn.{Conn}
use synp.ConnManager.{remove, find}
use synp.ConnManager.Abstract.{Call, connects, removes, clears}
use synp.ConnManager.Threads.{
  Then, returns, makes, Place, loading, finding, removing, taking, lowering, measuring, unmapping,
  leaving, shutting, making, welcoming, putting, raising, clearing, forgetting, emptying, dropping,
  Pc, idle, within, begun, resumed, loaded, found, taken, Shared, System, load_or_store, move, turn,
  step, run,
}
use synp.ConnManager.Threads.Frame.{Slice, slice, local, slice-move, slice-move_other}

abbrev pub call_key : Call → Text
call_key (connects u serial) = conn_key u
call_key (removes u) = conn_key u
call_key (clears u) = conn_key u

-- A goroutine that is inside a call for the key, or idle.
abbrev pub Serves : Text → Pc → Type 0
Serves key idle = Unit
Serves key (within u p) = conn_key u ≡ key

abbrev pub ServesAt : Text → Option Pc → Type 0
ServesAt key none = Unit
ServesAt key (some pc) = Serves key pc

resumed-Serves : (u : User) (after : Then) → Serves (conn_key u) (resumed u after)
resumed-Serves u returns = tt
resumed-Serves u (makes n) = refl

loaded-Serves :
    (u : User) (next : ℕ → Place) (absent : Pc) (o : Option ℕ)
    → Serves (conn_key u) absent
    → Serves (conn_key u) (loaded u next absent o)
loaded-Serves u next absent none h = h
loaded-Serves u next absent (some p) h = refl

found-Serves : (u : User) (n : ℕ) (o : Option Conn) → Serves (conn_key u) (found u n o)
found-Serves u n none = refl
found-Serves u n (some c) = refl

taken-Serves :
    (u : User) (after : Then) (p : ℕ) (o : Option Conn) → Serves (conn_key u) (taken u after p o)
taken-Serves u after p none = resumed-Serves u after
taken-Serves u after p (some c) = refl

begun-Serves : (c : Call) → Serves (call_key c) (begun c)
begun-Serves (connects u n) = refl
begun-Serves (removes u) = refl
begun-Serves (clears u) = refl

-- The turns of the goroutines that serve the key.
abbrev pub only : (ℕ → Text) → Text → List (ℕ × Call) → List (ℕ × Call)
only owner k [] = []
only owner k (t ∷ ts) =
    let rest = only owner k ts in if text_eq (owner t.0) k then t ∷ rest else rest

module _ (ops : SyncMap ℕ) where
  open ops use {load}

  move-Serves : (u : User) (p : Place) (m : Shared ops) → Serves (conn_key u) (move ops u p m).1
  unfolding move
  move-Serves u (loading n) m =
      loaded-Serves u (finding n) (within u (making n)) (load m.conns (conn_key u)) refl
  move-Serves u (finding n p) m = found-Serves u n (find (m.cells (conn_key u) p) u.device)
  move-Serves u (removing after) m =
      loaded-Serves u (taking after) (resumed u after) (load m.conns (conn_key u))
        (resumed-Serves u after)
  move-Serves u (taking after p) m =
      taken-Serves u after p (remove (m.cells (conn_key u) p) u.device).1
  move-Serves u (lowering after p c) m = refl
  move-Serves u (measuring after p c) m = refl
  move-Serves u (unmapping after c) m = refl
  move-Serves u (leaving after c) m = refl
  move-Serves u (shutting after c) m = resumed-Serves u after
  move-Serves u (making n) m = go (load m.conns (conn_key u))
    where
      go : (o : Option ℕ) → Serves (conn_key u) (load_or_store ops m u n o).1
      go none = refl
      go (some p) = refl
  move-Serves u (welcoming n p) m = refl
  move-Serves u (putting n p) m = refl
  move-Serves u raising m = tt
  move-Serves u clearing m = loaded-Serves u forgetting idle (load m.conns (conn_key u)) tt
  move-Serves u (forgetting p) m = refl
  move-Serves u (emptying p) m = refl
  move-Serves u (dropping cnt) m = tt

  abbrev pub seen : Text → Shared ops × Pc → Slice × Pc
  seen k r = (slice ops k r.0, r.1)

  module _ (owner : ℕ → Text) where
    -- Each goroutine that is inside a call is so for the key that it serves.
    abbrev pub IsServed : System ops → Type 0
    IsServed s = (i : ℕ) → ServesAt (owner i) (place s.pcs i)

    -- Two systems that agree on one key and on the goroutines that serve it.
    abbrev pub Agrees : Text → System ops → System ops → Type 0
    Agrees k s r =
        (slice ops k s.mem ≡ slice ops k r.mem)
        × ((i : ℕ) → owner i ≡ k → place s.pcs i ≡ place r.pcs i)

    moved-IsServed :
        (s : System ops) (m : Shared ops) (i : ℕ) (pc pc' : Pc)
        → place s.pcs i ≡ some pc
        → Serves (owner i) pc'
        → IsServed s
        → IsServed (record { mem = m; pcs = moved s.pcs i pc' })
    moved-IsServed s m i pc pc' e h v = λ j. elim (Bool-cases (i == j)) [
      | inl y ↦
          let same : i ≡ j = (==_iff i j).0 y in
          subst (λ x. ServesAt (owner x) (place (moved s.pcs i pc') x)) same
            (rw (place-moved s.pcs i pc pc' e) h)
      | inr n ↦ rw (place-moved_other s.pcs i j pc' (ground (arith, n, ==_iff i j))) (v j)
    ]

    pub turn-IsServed :
        (i : ℕ) (c : Call) (s : System ops) (o : Option Pc)
        → place s.pcs i ≡ o
        → call_key c ≡ owner i
        → IsServed s
        → IsServed (turn ops i c s o)
    turn-IsServed i c s none e h v = v
    turn-IsServed i c s (some idle) e h v =
        moved-IsServed s s.mem i idle (begun c) e
          (subst (λ k. Serves k (begun c)) h (begun-Serves c)) v
    turn-IsServed i c s (some (within u p)) e h v =
        let key : conn_key u ≡ owner i = subst (ServesAt (owner i)) e (v i) in
        moved-IsServed s (move ops u p s.mem).0 i (within u p) (move ops u p s.mem).1 e
          (subst (λ k. Serves k (move ops u p s.mem).1) key (move-Serves u p s.mem)) v

    apart : (i j : ℕ) (k : Text) → text_eq (owner i) k ≡ false → owner j ≡ k → i ≢ j
    apart i j k h own = ground (arith, h, own, text_eq_iff (owner i) k, ap owner)

    -- A goroutine of another key takes a turn in one of the two systems.
    pub turn_other-Agrees :
        (i : ℕ) (c : Call) (s r : System ops) (k : Text) (o : Option Pc)
        → place s.pcs i ≡ o
        → text_eq (owner i) k ≡ false
        → IsServed s
        → Agrees k s r
        → Agrees k (turn ops i c s o) r
    turn_other-Agrees i c s r k none e h v (a, b) = (a, b)
    turn_other-Agrees i c s r k (some idle) e h v (a, b) =
        (a, λ j own. place-moved_other s.pcs i j (begun c) (apart i j k h own) ∙ b j own)
    turn_other-Agrees i c s r k (some (within u p)) e h v (a, b) =
        let key : conn_key u ≡ owner i = subst (ServesAt (owner i)) e (v i) in
        (
          slice-move_other ops u p s.mem k (rw key h) ∙ a,
          λ j own. place-moved_other s.pcs i j (move ops u p s.mem).1 (apart i j k h own) ∙ b j own,
        )

    -- A goroutine of the key goes to the same place in both systems.
    moved-Agrees :
        (i : ℕ) (s r : System ops) (m n : Shared ops) (pc pc' qc' : Pc) (k : Text)
        → place s.pcs i ≡ some pc
        → place r.pcs i ≡ some pc
        → seen k (m, pc') ≡ seen k (n, qc')
        → Agrees k s r
        → Agrees k
            (record { mem = m; pcs = moved s.pcs i pc' })
            (record { mem = n; pcs = moved r.pcs i qc' })
    moved-Agrees i s r m n pc pc' qc' k e g eq (a, b) = (
      ap (λ x. x.0) eq,
      λ j own. elim (Bool-cases (i == j)) [
        | inl y ↦
            let same : i ≡ j = (==_iff i j).0 y in
            subst (λ x. place (moved s.pcs i pc') x ≡ place (moved r.pcs i qc') x) same
              (rw (place-moved s.pcs i pc pc' e, place-moved r.pcs i pc qc' g)
                (ap (λ x. some x.1) eq))
        | inr d ↦
            let other : i ≢ j = ground (arith, d, ==_iff i j) in
            rw (place-moved_other s.pcs i j pc' other, place-moved_other r.pcs i j qc' other)
              (b j own)
      ],
    )

    move-same :
        (u : User) (p : Place) (m n : Shared ops)
        → slice ops (conn_key u) m ≡ slice ops (conn_key u) n
        → seen (conn_key u) (move ops u p m) ≡ seen (conn_key u) (move ops u p n)
    move-same u p m n a = slice-move ops u p m ∙ ap (local u p) a ∙ sym (slice-move ops u p n)

    turn_own-Agrees :
        (i : ℕ) (c : Call) (s r : System ops) (k : Text) (o : Option Pc)
        → place s.pcs i ≡ o
        → owner i ≡ k
        → IsServed s
        → Agrees k s r
        → Agrees k (turn ops i c s o) (turn ops i c r o)
    turn_own-Agrees i c s r k none e h v (a, b) = (a, b)
    turn_own-Agrees i c s r k (some idle) e h v (a, b) =
        moved-Agrees i s r s.mem r.mem idle (begun c) (begun c) k e (sym (b i h) ∙ e)
          (ap (λ x. (x, begun c)) a) (a, b)
    turn_own-Agrees i c s r k (some (within u p)) e h v (a, b) =
        let key : conn_key u ≡ k = subst (ServesAt (owner i)) e (v i) ∙ h in
        let same : slice ops (conn_key u) s.mem ≡ slice ops (conn_key u) r.mem =
          subst (λ x. slice ops x s.mem ≡ slice ops x r.mem) (sym key) a in
        moved-Agrees i s r (move ops u p s.mem).0 (move ops u p r.mem).0 (within u p)
          (move ops u p s.mem).1 (move ops u p r.mem).1 k e (sym (b i h) ∙ e)
          (subst (λ x. seen x (move ops u p s.mem) ≡ seen x (move ops u p r.mem)) key
            (move-same u p s.mem r.mem same))
          (a, b)

    run-Agrees :
        (ts : List (ℕ × Call)) (s r : System ops) (k : Text)
        → All (λ t. call_key t.1 ≡ owner t.0) ts
        → IsServed s
        → Agrees k s r
        → Agrees k (run ops ts s) (run ops (only owner k ts) r)
    unfolding run step
    run-Agrees [] s r k h v a = a
    run-Agrees ((i, c) ∷ ts) s r k (h, hs) v a =
        let v' = turn-IsServed i c s (place s.pcs i) refl h v in
        elim (Bool-cases (text_eq (owner i) k)) [
          | inl y ↦
              let own : owner i ≡ k = (text_eq_iff (owner i) k).0 y in
              let both = turn_own-Agrees i c s r k (place s.pcs i) refl own v a in
              rw y (
                run-Agrees ts (step ops (i, c) s) (step ops (i, c) r) k hs v'
                  (subst (λ o. Agrees k (step ops (i, c) s) (turn ops i c r o)) (a.1 i own) both))
          | inr n ↦ rw n (
              run-Agrees ts (step ops (i, c) s) r k hs v'
                (turn_other-Agrees i c s r k (place s.pcs i) refl n v a))
        ]

    -- Each goroutine makes calls for one user, and several may serve the same one. Whatever the
    -- interleaving of their accesses, what the manager holds under the key of a user, which of the
    -- user's connections it has closed and in which order, and where the user's goroutines stand is
    -- what the turns of these goroutines alone, in their order, make of the same state.
    pub users_apart :
        (ts : List (ℕ × Call)) (s : System ops) (k : Text)
        → All (λ t. call_key t.1 ≡ owner t.0) ts
        → IsServed s
        → let r = run ops (only owner k ts) s in
          (slice ops k (run ops ts s).mem ≡ slice ops k r.mem)
          × ((i : ℕ) → owner i ≡ k → place (run ops ts s).pcs i ≡ place r.pcs i)
    users_apart ts s k h v = run-Agrees ts s s k h v (refl, λ i own. refl)
