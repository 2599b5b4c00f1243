-- ===== src/ConnManager/Threads/Frame.antt =====
-- Goroutines of different users do not meet: what each key of the map holds depends on its own.
use synp.Prelude.{
  ℕ, suc, ◌≡◌, refl, ap, false, ◌&&◌, ◌==◌, Option, none, some, List, ◌∷◌, if◌then◌else◌, length,
}
use synp.Prelude.Text.{Text, text_eq, text_eq_refl}
use synp.SyncMap.{SyncMap}
use synp.Session.{User, conn_key}
use synp.Conn.{Conn}
use synp.ConnManager.{DeviceConns, new_device_conns, add, remove, find, clear}
use synp.ConnManager.Threads.{
  Place, loading, finding, removing, taking, lowering, measuring, unmapping, leaving, shutting,
  making, welcoming, putting, raising, clearing, forgetting, emptying, dropping, Pc, idle, within,
  resumed, new_conn_of, loaded, found, taken, Shared, written, load_or_store, move,
}

-- What belongs to one key.
pub record Slice : Type 0 where
  pub at : Option ℕ
  pub cells : ℕ → DeviceConns
  pub next : ℕ
  pub closed : List Conn

abbrev pub put_in : Slice → ℕ → DeviceConns → Slice
put_in s p dc = record s { cells = λ q. if p == q then dc else s.cells q }

abbrev pub local_store : Slice → User → ℕ → Option ℕ → Slice × Pc
local_store s u serial (some p) = (s, within u (putting serial p))
local_store s u serial none = (
  record (put_in s s.next new_device_conns) { at = some s.next; next = suc s.next },
  within u (welcoming serial s.next),
)

-- A move, seen at its own key.
unfoldable pub local : User → Place → Slice → Slice × Pc
unfolding add remove find clear
local u (loading n) s = (s, loaded u (finding n) (within u (making n)) s.at)
local u (finding n p) s = (s, found u n (find (s.cells p) u.device))
local u (removing after) s = (s, loaded u (taking after) (resumed u after) s.at)
local u (taking after p) s =
    let out = remove (s.cells p) u.device in (put_in s p out.0, taken u after p out.1)
local u (lowering after p c) s = (s, within u (measuring after p c))
local u (measuring after p c) s =
    (s, within u (if length (s.cells p) == 0 then unmapping after c else shutting after c))
local u (unmapping after c) s = (record s { at = none }, within u (leaving after c))
local u (leaving after c) s = (s, within u (shutting after c))
local u (shutting after c) s = (record s { closed = c ∷ s.closed }, resumed u after)
local u (making n) s = local_store s u n s.at
local u (welcoming n p) s = (s, within u (putting n p))
local u (putting n p) s =
    (put_in s p (add (s.cells p) u.device (new_conn_of u n)), within u raising)
local u raising s = (s, idle)
local u clearing s = (s, loaded u forgetting idle s.at)
local u (forgetting p) s = (s, within u (emptying p))
local u (emptying p) s =
    let (dc, cnt) = clear (s.cells p) in (put_in s p dc, within u (dropping cnt))
local u (dropping cnt) s = (s, idle)

module _ (ops : SyncMap ℕ) where
  open ops use {Map, load, store, delete, load-store, load-delete}

  abbrev pub slice : Text → Shared ops → Slice
  slice k m = record {
    at = load m.conns k;
    cells = m.cells k;
    next = m.next_cell k;
    closed = m.closed k;
  }

  slice-written_other :
      (m : Shared ops) (key : Text) (p : ℕ) (dc : DeviceConns) (k : Text)
      → text_eq key k ≡ false
      → slice k (written ops m key p dc) ≡ slice k m
  slice-written_other m key p dc k e =
      ap (λ b. record (slice k m) { cells = λ q. if b && p == q then dc else m.cells k q }) e

  slice-written :
      (m : Shared ops) (key : Text) (p : ℕ) (dc : DeviceConns)
      → slice key (written ops m key p dc) ≡ put_in (slice key m) p dc
  slice-written m key p dc =
      ap (λ b. record (slice key m) { cells = λ q. if b && p == q then dc else m.cells key q })
        (text_eq_refl key)

  -- A move for another key leaves a key as it is.
  pub slice-move_other :
      (u : User) (p : Place) (m : Shared ops) (k : Text)
      → text_eq (conn_key u) k ≡ false
      → slice k (move ops u p m).0 ≡ slice k m
  unfolding move
  slice-move_other u (loading n) m k e = refl
  slice-move_other u (finding n p) m k e = refl
  slice-move_other u (removing after) m k e = refl
  slice-move_other u (taking after p) m k e =
      slice-written_other m (conn_key u) p (remove (m.cells (conn_key u) p) u.device).0 k e
  slice-move_other u (lowering after p c) m k e = refl
  slice-move_other u (measuring after p c) m k e = refl
  slice-move_other u (unmapping after c) m k e = rw (load-delete, e) refl
  slice-move_other u (leaving after c) m k e = refl
  slice-move_other u (shutting after c) m k e = rw e refl
  slice-move_other u (making n) m k e = go (load m.conns (conn_key u))
    where
      go : (o : Option ℕ) → slice k (load_or_store ops m u n o).0 ≡ slice k m
      go none =
          let p = m.next_cell (conn_key u) in
          rw (load-store, e)
            (ap (λ (s : Slice). record s { next = m.next_cell k })
              (slice-written_other m (conn_key u) p new_device_conns k e))
      go (some p) = refl
  slice-move_other u (welcoming n p) m k e = refl
  slice-move_other u (putting n p) m k e =
      slice-written_other m (conn_key u) p (add (m.cells (conn_key u) p) u.device (new_conn_of u n))
        k e
  slice-move_other u raising m k e = refl
  slice-move_other u clearing m k e = refl
  slice-move_other u (forgetting p) m k e = refl
  slice-move_other u (emptying p) m k e =
      slice-written_other m (conn_key u) p (clear (m.cells (conn_key u) p)).0 k e
  slice-move_other u (dropping cnt) m k e = refl

  -- A move for the key is the move seen there.
  pub slice-move :
      (u : User) (p : Place) (m : Shared ops)
      → (slice (conn_key u) (move ops u p m).0, (move ops u p m).1)
        ≡ local u p (slice (conn_key u) m)
  unfolding move local
  slice-move u (loading n) m = refl
  slice-move u (finding n p) m = refl
  slice-move u (removing after) m = refl
  slice-move u (taking after p) m =
      let out = remove (m.cells (conn_key u) p) u.device in
      ap (λ s. (s, taken u after p out.1)) (slice-written m (conn_key u) p out.0)
  slice-move u (lowering after p c) m = refl
  slice-move u (measuring after p c) m = refl
  slice-move u (unmapping after c) m = rw (load-delete, text_eq_refl) refl
  slice-move u (leaving after c) m = refl
  slice-move u (shutting after c) m = rw text_eq_refl refl
  slice-move u (making n) m = go (load m.conns (conn_key u)) refl
    where
      go :
          (o : Option ℕ)
          → load m.conns (conn_key u) ≡ o
          → (slice (conn_key u) (load_or_store ops m u n o).0, (load_or_store ops m u n o).1)
            ≡ local_store (slice (conn_key u) m) u n o
      go none e =
          let p = m.next_cell (conn_key u) in
          rw (load-store, text_eq_refl)
            (ap (λ (s : Slice). (record s { at = some p; next = suc p }, within u (welcoming n p)))
              (slice-written m (conn_key u) p new_device_conns))
      go (some p) e = refl
  slice-move u (welcoming n p) m = refl
  slice-move u (putting n p) m =
      ap (λ s. (s, within u raising))
        (slice-written m (conn_key u) p (add (m.cells (conn_key u) p) u.device (new_conn_of u n)))
  slice-move u raising m = refl
  slice-move u clearing m = refl
  slice-move u (forgetting p) m = refl
  slice-move u (emptying p) m =
      ap (λ s. (s, within u (dropping (clear (m.cells (conn_key u) p)).1)))
        (slice-written m (conn_key u) p (clear (m.cells (conn_key u) p)).0)
  slice-move u (dropping cnt) m = refl
