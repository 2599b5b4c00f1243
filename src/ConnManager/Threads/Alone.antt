-- ===== src/ConnManager/Threads/Alone.antt =====
-- A call that no goroutine of the same user interleaves with, against the same call in one step.
use synp.Prelude.{
  ℕ, zero, suc, ◌≡◌, refl, ap, ◌∙◌, ==_iff, Bool, true, false, ◌==◌, Option, none, some, ◌∷◌,
  if◌then◌else◌, length,
}
use synp.Prelude.Dict.{lookup, without}
use synp.Session.{User}
use synp.Conn.{Conn}
use synp.ConnManager.{DeviceConns, new_device_conns, taken_out, add, remove, find}
use synp.ConnManager.Threads.{
  Then, makes, found, taken, loaded, resumed, Place, finding, removing, taking, lowering, measuring,
  unmapping, shutting, making, Pc, idle, within, new_conn_of,
}
use synp.ConnManager.Threads.Frame.{Slice, put_in, local, local_store}

-- The moves of one goroutine, one after another, until it is idle again.
unfoldable pub finish : ℕ → Pc → Slice → Slice × Pc
unfolding local
finish zero pc s = (s, pc)
finish (suc n) idle s = (s, idle)
finish (suc n) (within u p) s = let r = local u p s in finish n r.1 r.0

-- The connections by device that the key holds.
abbrev pub value_at : Option ℕ → (ℕ → DeviceConns) → Option DeviceConns
value_at none cells = none
value_at (some p) cells = some (cells p)

abbrev pub value : Slice → Option DeviceConns
value s = value_at s.at s.cells

pub next :
    (u : User) (p : Place) (n : ℕ) (s : Slice) (r : Slice × Pc)
    → local u p s ≡ r
    → finish (suc n) (within u p) s ≡ finish n r.1 r.0
unfolding finish
next u p n s r e = ap (λ x. finish n x.1 x.0) e

pub put_in-at : (s : Slice) (p : ℕ) (dc : DeviceConns) → (put_in s p dc).cells p ≡ dc
put_in-at s p dc = rw ((==_iff p p).1 refl) refl

-- The moves that depend on the object.
pub finding_some :
    (u : User) (n p : ℕ) (s : Slice) (old : Conn)
    → lookup u.device (s.cells p) ≡ some old
    → local u (finding n p) s ≡ (s, within u (removing (makes n)))
unfolding local find
finding_some u n p s old e = ap (λ o. (s, found u n o)) e

pub finding_none :
    (u : User) (n p : ℕ) (s : Slice)
    → lookup u.device (s.cells p) ≡ none
    → local u (finding n p) s ≡ (s, within u (making n))
unfolding local find
finding_none u n p s e = ap (λ o. (s, found u n o)) e

pub taking_lem :
    (u : User) (after : Then) (p : ℕ) (s : Slice) (o : Option Conn)
    → lookup u.device (s.cells p) ≡ o
    → local u (taking after p) s ≡ (
      put_in s p (taken_out (s.cells p) u.device o).0,
      taken u after p (taken_out (s.cells p) u.device o).1,
    )
unfolding local remove
taking_lem u after p s o e =
    ap
      (λ x. (
        put_in s p (taken_out (s.cells p) u.device x).0,
        taken u after p (taken_out (s.cells p) u.device x).1,
      ))
      e

measuring_lem :
    (u : User) (after : Then) (p : ℕ) (c : Conn) (s : Slice) (b : Bool)
    → (length (s.cells p) == 0) ≡ b
    → local u (measuring after p c) s
      ≡ (s, within u (if b then unmapping after c else shutting after c))
unfolding local
measuring_lem u after p c s b e =
    ap (λ x. (s, within u (if x then unmapping after c else shutting after c))) e

-- RemoveConn of a connection that is there, when it was the user's last and when it was not.
abbrev pub without_last : Slice → ℕ → DeviceConns → Conn → Slice
without_last s p dc c = record (put_in s p dc) { at = none; closed = c ∷ s.closed }

abbrev pub without_one : Slice → ℕ → DeviceConns → Conn → Slice
without_one s p dc c = record (put_in s p dc) { closed = c ∷ s.closed }

pub remove_last :
    (u : User) (after : Then) (p k : ℕ) (s : Slice) (c : Conn)
    → s.at ≡ some p
    → lookup u.device (s.cells p) ≡ some c
    → (length (without u.device (s.cells p)) == 0) ≡ true
    → finish (suc (suc (suc (suc (suc (suc (suc k))))))) (within u (removing after)) s
      ≡ finish k (resumed u after) (without_last s p (without u.device (s.cells p)) c)
unfolding finish local
remove_last u after p k s c a e l =
    let dc = without u.device (s.cells p) in
    let l' : (length ((put_in s p dc).cells p) == 0) ≡ true = rw put_in-at l in
    next u (removing after) (suc (suc (suc (suc (suc (suc k)))))) s (s, within u (taking after p))
      (ap (λ o. (s, loaded u (taking after) (resumed u after) o)) a)
    ∙ next u (taking after p) (suc (suc (suc (suc (suc k))))) s
        (put_in s p dc, within u (lowering after p c)) (taking_lem u after p s (some c) e)
    ∙ next u (measuring after p c) (suc (suc (suc k))) (put_in s p dc)
        (put_in s p dc, within u (unmapping after c))
        (measuring_lem u after p c (put_in s p dc) true l')

pub remove_one :
    (u : User) (after : Then) (p k : ℕ) (s : Slice) (c : Conn)
    → s.at ≡ some p
    → lookup u.device (s.cells p) ≡ some c
    → (length (without u.device (s.cells p)) == 0) ≡ false
    → finish (suc (suc (suc (suc (suc k))))) (within u (removing after)) s
      ≡ finish k (resumed u after) (without_one s p (without u.device (s.cells p)) c)
unfolding finish local
remove_one u after p k s c a e l =
    let dc = without u.device (s.cells p) in
    let l' : (length ((put_in s p dc).cells p) == 0) ≡ false = rw put_in-at l in
    next u (removing after) (suc (suc (suc (suc k)))) s (s, within u (taking after p))
      (ap (λ o. (s, loaded u (taking after) (resumed u after) o)) a)
    ∙ next u (taking after p) (suc (suc (suc k))) s (put_in s p dc, within u (lowering after p c))
        (taking_lem u after p s (some c) e)
    ∙ next u (measuring after p c) (suc k) (put_in s p dc)
        (put_in s p dc, within u (shutting after c))
        (measuring_lem u after p c (put_in s p dc) false l')

-- storeConn, for a key that has no object and for one that has.
abbrev pub with_more : Slice → ℕ → User → ℕ → Slice
with_more s p u n = put_in s p (add (s.cells p) u.device (new_conn_of u n))

abbrev opened : Slice → Slice
opened s = record (put_in s s.next new_device_conns) { at = some s.next; next = suc s.next }

abbrev pub with_new : Slice → User → ℕ → Slice
with_new s u n = with_more (opened s) s.next u n

pub store_new :
    (u : User) (n k : ℕ) (s : Slice)
    → s.at ≡ none
    → finish (suc (suc (suc (suc k)))) (within u (making n)) s ≡ finish k idle (with_new s u n)
unfolding finish local
store_new u n k s a =
    next u (making n) (suc (suc (suc k))) s (local_store s u n none)
      (ap (λ o. local_store s u n o) a)

pub store_more :
    (u : User) (n k p : ℕ) (s : Slice)
    → s.at ≡ some p
    → finish (suc (suc (suc k))) (within u (making n)) s ≡ finish k idle (with_more s p u n)
unfolding finish local
store_more u n k p s a =
    next u (making n) (suc (suc k)) s (local_store s u n (some p)) (ap (λ o. local_store s u n o) a)

pub finish-idle : (k : ℕ) (s : Slice) → finish k idle s ≡ (s, idle)
unfolding finish
finish-idle zero s = refl
finish-idle (suc k) s = refl

pub value-with_new :
    (s : Slice) (u : User) (n : ℕ)
    → value (with_new s u n) ≡ some (add new_device_conns u.device (new_conn_of u n))
value-with_new s u n =
    let c = new_conn_of u n in
    let here = (opened s).cells s.next in
    ap some (
      put_in-at (opened s) s.next (add here u.device c)
      ∙ ap (λ dc. add dc u.device c) (put_in-at s s.next new_device_conns))

pub value-with_more :
    (s : Slice) (p : ℕ) (u : User) (n : ℕ)
    → s.at ≡ some p
    → value (with_more s p u n) ≡ some (add (s.cells p) u.device (new_conn_of u n))
value-with_more s p u n a =
    rw a (ap some (put_in-at s p (add (s.cells p) u.device (new_conn_of u n))))
