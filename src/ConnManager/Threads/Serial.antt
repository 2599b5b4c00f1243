-- ===== src/ConnManager/Threads/Serial.antt =====
-- A user whose calls come from one goroutine, among the goroutines of others, against calls in one step.
use synp.Prelude.{
  ℕ, zero, suc, ◌≡◌, refl, ap, sym, ◌∙◌, subst, false, some, List, [], ◌∷◌, if◌then◌else◌, ◌==◌,
  ==_iff, arith, Bool-cases, inl, inr, All,
}
use mathlib.Core.Option.{some-injective}
use synp.Prelude.Text.{Text, text_eq, text_eq_iff}
use synp.Prelude.Goroutines.{place, place-moved}
use synp.SyncMap.{SyncMap}
use synp.Session.{conn_key}
use synp.ConnManager.{DeviceConns, ConnManager}
use synp.ConnManager.Abstract.{Call, connects, removes, clears, perform, perform_all}
use synp.ConnManager.Threads.{Pc, idle, within, begun, System, move, turn, step, run}
use synp.ConnManager.Threads.Frame.{Slice, slice, local, slice-move}
use synp.ConnManager.Threads.Apart.{
  call_key, seen, ServesAt, IsServed, turn-IsServed, turn_other-Agrees,
}
use synp.ConnManager.Threads.Alone.{finish, value}
use synp.ConnManager.Threads.Sequential.{call_user, alone_in_one_step}

-- A turn of the goroutine, seen at its key, and its turns one after another.
abbrev act : Call → Slice × Pc → Slice × Pc
act c (s, idle) = (s, begun c)
act c (s, within u p) = local u p s

abbrev pub acts : List Call → Slice × Pc → Slice × Pc
acts [] x = x
acts (c ∷ cs) x = acts cs (act c x)

-- The calls that the goroutine has begun: those of the turns that find it idle.
abbrev pub begun_calls : List Call → Slice × Pc → List Call
begun_calls [] x = []
begun_calls (c ∷ cs) (s, idle) = c ∷ begun_calls cs (s, begun c)
begun_calls (c ∷ cs) (s, within u p) = begun_calls cs (local u p s)

abbrev pub own : ℕ → List (ℕ × Call) → List Call
own i [] = []
own i (t ∷ ts) = let rest = own i ts in if t.0 == i then t.1 ∷ rest else rest

abbrev advance : Slice × Pc → Slice × Pc
advance (s, idle) = (s, idle)
advance (s, within u p) = local u p s

finish-suc : (j : ℕ) (pc : Pc) (s : Slice) → finish (suc j) pc s ≡ advance (finish j pc s)
unfolding finish
finish-suc zero idle s = refl
finish-suc zero (within u p) s = refl
finish-suc (suc j) idle s = refl
finish-suc (suc j) (within u p) s = finish-suc j (local u p s).1 (local u p s).0

-- A call comes back with the same result, whenever one looks.
finish_unique :
    (j l : ℕ) (pc : Pc) (s : Slice)
    → (finish j pc s).1 ≡ idle
    → (finish l pc s).1 ≡ idle
    → (finish j pc s).0 ≡ (finish l pc s).0
unfolding finish
finish_unique zero zero pc s a b = refl
finish_unique zero (suc l) idle s a b = refl
finish_unique zero (suc l) (within u p) s a b = cc
finish_unique (suc j) zero idle s a b = refl
finish_unique (suc j) zero (within u p) s a b = cc
finish_unique (suc j) (suc l) idle s a b = refl
finish_unique (suc j) (suc l) (within u p) s a b =
    finish_unique j l (local u p s).1 (local u p s).0 a b

key-user : (c : Call) → call_key c ≡ conn_key (call_user c)
key-user (connects u n) = refl
key-user (removes u) = refl
key-user (clears u) = refl

module _ (atomic : SyncMap DeviceConns) (k : Text) where
  open atomic use {load}

  completed :
      (c : Call) (s s' : Slice) (j : ℕ) (m : ConnManager atomic)
      → call_key c ≡ k
      → value s ≡ load m.conns k
      → finish j (begun c) s ≡ (s', idle)
      → value s' ≡ load (perform atomic m c).conns k
  completed c s s' j m key h e =
      let user : conn_key (call_user c) ≡ k = sym (key-user c) ∙ key in
      let alone = alone_in_one_step atomic c s m (h ∙ ap (load m.conns) (sym user)) in
      ap (λ (x : Slice × Pc). value x.0) (sym e)
      ∙ ap value (finish_unique j 13 (begun c) s (ap (λ (x : Slice × Pc). x.1) e) alone.0)
      ∙ alone.1
      ∙ ap (load (perform atomic m c).conns) user

  -- In the middle of a call, as many moves behind its beginning as `j` says.
  serial_from :
      (cs : List Call) (c : Call) (s s' : Slice) (pc : Pc) (j : ℕ) (m : ConnManager atomic)
      → call_key c ≡ k
      → All (λ c. call_key c ≡ k) cs
      → value s ≡ load m.conns k
      → finish j (begun c) s ≡ (s', pc)
      → (acts cs (s', pc)).1 ≡ idle
      → value (acts cs (s', pc)).0
        ≡ load (perform_all atomic (perform atomic m c) (begun_calls cs (s', pc))).conns k
  unfolding perform_all
  serial_from [] c s s' pc j m key keys h e back =
      completed c s s' j m key h (e ∙ ap (λ q. (s', q)) back)
  serial_from (d ∷ cs) c s s' idle j m key (first, keys) h e back =
      serial_from cs d s' s' (begun d) 0 (perform atomic m c) first keys
        (completed c s s' j m key h e) (unfold finish in refl) back
  serial_from (d ∷ cs) c s s' (within u p) j m key (first, keys) h e back =
      serial_from cs c s (local u p s').0 (local u p s').1 (suc j) m key keys h
        (finish-suc j (begun c) s ∙ ap advance e) back

  serial_idle :
      (cs : List Call) (s : Slice) (m : ConnManager atomic)
      → All (λ c. call_key c ≡ k) cs
      → value s ≡ load m.conns k
      → (acts cs (s, idle)).1 ≡ idle
      → value (acts cs (s, idle)).0 ≡ load (perform_all atomic m (begun_calls cs (s, idle))).conns k
  unfolding perform_all
  serial_idle [] s m keys h back = h
  serial_idle (d ∷ cs) s m (first, keys) h back =
      serial_from cs d s s (begun d) 0 m first keys h (unfold finish in refl) back

module _ (ops : SyncMap ℕ) (owner : ℕ → Text) (i : ℕ) where
  abbrev Seen : System ops → Slice × Pc → Type 0
  Seen s x = (slice ops (owner i) s.mem ≡ x.0) × (place s.pcs i ≡ some x.1)

  own_step :
      (c : Call) (s : System ops) (pc : Pc)
      → IsServed ops owner s
      → place s.pcs i ≡ some pc
      → Seen (turn ops i c s (some pc)) (act c (slice ops (owner i) s.mem, pc))
  own_step c s idle v e = (refl, place-moved s.pcs i idle (begun c) e)
  own_step c s (within u p) v e =
      let key : conn_key u ≡ owner i = subst (ServesAt (owner i)) e (v i) in
      let moves =
        subst (λ k. seen ops k (move ops u p s.mem) ≡ local u p (slice ops k s.mem)) key
          (slice-move ops u p s.mem) in
      (
        ap (λ (x : Slice × Pc). x.0) moves,
        place-moved s.pcs i (within u p) (move ops u p s.mem).1 e
            ∙ ap (λ (x : Slice × Pc). some x.1) moves,
      )

  other_step :
      (only_one : (j : ℕ) → owner j ≡ owner i → j ≡ i) (j : ℕ) (c : Call) (s : System ops) (pc : Pc)
      → (j == i) ≡ false
      → IsServed ops owner s
      → place s.pcs i ≡ some pc
      → Seen (turn ops j c s (place s.pcs j)) (slice ops (owner i) s.mem, pc)
  other_step only_one j c s pc n v e =
      let apart : text_eq (owner j) (owner i) ≡ false =
        ground (arith, n, ==_iff j i, text_eq_iff (owner j) (owner i), only_one j) in
      let agree =
        turn_other-Agrees ops owner j c s s (owner i) (place s.pcs j) refl apart v
          (refl, λ l h. refl) in
      (agree.0, agree.1 i refl ∙ e)

  project :
      (only_one : (j : ℕ) → owner j ≡ owner i → j ≡ i) (ts : List (ℕ × Call)) (s : System ops)
      (pc : Pc)
      → All (λ t. call_key t.1 ≡ owner t.0) ts
      → IsServed ops owner s
      → place s.pcs i ≡ some pc
      → Seen (run ops ts s) (acts (own i ts) (slice ops (owner i) s.mem, pc))
  unfolding run step
  project only_one [] s pc h v e = (refl, e)
  project only_one ((j, c) ∷ ts) s pc (h, hs) v e =
      let v' = turn-IsServed ops owner j c s (place s.pcs j) refl h v in
      elim (Bool-cases (j == i)) [
        | inl y ↦
            let same : j ≡ i = (==_iff j i).0 y in
            let own_turn : turn ops j c s (place s.pcs j) ≡ turn ops i c s (some pc) =
              subst (λ x. turn ops x c s (place s.pcs x) ≡ turn ops i c s (some pc)) (sym same)
                (ap (turn ops i c s) e) in
            let x = act c (slice ops (owner i) s.mem, pc) in
            let at = own_step c s pc v e in
            let rest =
              project only_one ts (turn ops i c s (some pc)) x.1 hs
                (subst (IsServed ops owner) own_turn v') at.1 in
            let seen_here =
              subst (λ z. Seen (run ops ts (turn ops i c s (some pc))) (acts (own i ts) (z, x.1)))
                at.0 rest in
            rw y (subst (λ z. Seen (run ops ts z) (acts (own i ts) x)) (sym own_turn) seen_here)
        | inr n ↦
            let at = other_step only_one j c s pc n v e in
            let rest = project only_one ts (turn ops j c s (place s.pcs j)) pc hs v' at.1 in
            rw (n, sym at.0) rest
      ]

  own-keys :
      (ts : List (ℕ × Call))
      → All (λ t. call_key t.1 ≡ owner t.0) ts
      → All (λ c. call_key c ≡ owner i) (own i ts)
  own-keys [] h = tt
  own-keys ((j, c) ∷ ts) (h, hs) = elim (Bool-cases (j == i)) [
    | inl y ↦ rw y (h ∙ ap owner ((==_iff j i).0 y), own-keys ts hs)
    | inr n ↦ rw n (own-keys ts hs)
  ]

  -- Each goroutine makes calls for one user, and one user's calls come from one goroutine only, which is
  -- idle at first. Whatever the interleaving with the goroutines of other users, whenever his goroutine
  -- is idle again, the manager holds for the user the connections by device that the calls it has
  -- begun make one after another, each in one step, of those that it held at first.
  pub users_serial :
      (atomic : SyncMap DeviceConns) (m : ConnManager atomic) (ts : List (ℕ × Call))
      (s : System ops)
      → ((j : ℕ) → owner j ≡ owner i → j ≡ i)
      → All (λ t. call_key t.1 ≡ owner t.0) ts
      → IsServed ops owner s
      → place s.pcs i ≡ some idle
      → value (slice ops (owner i) s.mem) ≡ atomic.load m.conns (owner i)
      → place (run ops ts s).pcs i ≡ some idle
      → value (slice ops (owner i) (run ops ts s).mem)
        ≡ atomic.load
            (perform_all atomic m (begun_calls (own i ts) (slice ops (owner i) s.mem, idle))).conns
            (owner i)
  users_serial atomic m ts s only_one h v e same back =
      let seen_at = project only_one ts s idle h v e in
      ap value seen_at.0
      ∙ serial_idle atomic (owner i) (own i ts) (slice ops (owner i) s.mem) m (own-keys ts h) same
          (some-injective _ idle (sym seen_at.1 ∙ back))
