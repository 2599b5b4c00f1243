-- ===== src/ConnManager/Threads/Examples.antt =====
-- Two users, and two devices of one user, in goroutines of their own.
use synp.Prelude.{ℕ, arith, zero, suc, ◌≡◌, refl, false, none, some, List, [], ◌∷◌, ◌++◌}
use synp.Prelude.Text.{Text, text_eq, decimal}
use synp.Prelude.Dict.{lookup, insert, without}
use synp.Prelude.Goroutines.{place}
use synp.SyncMap.{SyncMap, list_map}
use synp.Session.{User, conn_key, conn_key_iff, device_mobile, device_pc}
use synp.ConnManager.{DeviceConns, add, remove, find, new_conn_manager}
use synp.ConnManager.Abstract.{Call, connects, removes, perform_all}
use synp.ConnManager.Threads.{idle, System, move, step, run, new_mem, new_conn_of}
use synp.ConnManager.Threads.Frame.{slice}
use synp.ConnManager.Threads.Apart.{IsServed, only, users_apart}
use synp.ConnManager.Threads.Alone.{value}
use synp.ConnManager.Threads.Serial.{own, begun_calls, users_serial}

abbrev ops : SyncMap ℕ
ops = list_map ℕ

abbrev phone : User
phone = record { bid = 1; uid = 7; device = device_mobile; auto_close = false }

abbrev desk : User
desk = record { bid = 1; uid = 7; device = device_pc; auto_close = false }

abbrev other : User
other = record { bid = 1; uid = 8; device = device_mobile; auto_close = false }

abbrev owner : ℕ → Text
owner zero = conn_key phone
owner (suc i) = conn_key other

abbrev both_idle : System ops
both_idle = record { mem = new_mem ops; pcs = idle ∷ idle ∷ [] }

-- NewConn of the two users, one access of each in turn.
abbrev mixed : List (ℕ × Call)
mixed =
    (0, connects phone 1)
    ∷ (1, connects other 2)
    ∷ (0, connects phone 1)
    ∷ (1, connects other 2)
    ∷ (1, connects other 2)
    ∷ (0, connects phone 1)
    ∷ (1, connects other 2)
    ∷ (0, connects phone 1)
    ∷ (0, connects phone 1)
    ∷ []

both_idle-IsServed : IsServed ops owner both_idle
both_idle-IsServed zero = tt
both_idle-IsServed (suc zero) = tt
both_idle-IsServed (suc (suc i)) = tt

users_apart_example :
    let r = run ops (only owner (conn_key phone) mixed) both_idle in
    (slice ops (conn_key phone) (run ops mixed both_idle).mem ≡ slice ops (conn_key phone) r.mem)
    × ((i : ℕ) → owner i ≡ conn_key phone → place (run ops mixed both_idle).pcs i ≡ place r.pcs i)
users_apart_example =
    users_apart ops owner mixed both_idle (conn_key phone)
      (refl, (refl, (refl, (refl, (refl, (refl, (refl, (refl, (refl, tt))))))))) both_idle-IsServed

abbrev atomic : SyncMap DeviceConns
atomic = list_map DeviceConns

-- The goroutine of the phone comes back.
abbrev mixed_back : List (ℕ × Call)
mixed_back = mixed ++ (0, connects phone 1) ∷ []

only_first : (j : ℕ) → owner j ≡ owner 0 → j ≡ 0
only_first zero h = refl
only_first (suc j) h = absurd (omega (arith, (conn_key_iff other phone).0 h))

phone_back : place (run ops mixed_back both_idle).pcs 0 ≡ some idle
unfolding run step move add insert without lookup text_eq find conn_key decimal
phone_back = refl

users_serial_example :
    value (slice ops (owner 0) (run ops mixed_back both_idle).mem)
    ≡ atomic.load
        (perform_all atomic
          (new_conn_manager atomic)
          (begun_calls (own 0 mixed_back) (slice ops (owner 0) both_idle.mem, idle))).conns
        (owner 0)
unfolding lookup
users_serial_example =
    users_serial ops owner 0 atomic (new_conn_manager atomic) mixed_back both_idle only_first
      (refl, (refl, (refl, (refl, (refl, (refl, (refl, (refl, (refl, (refl, tt))))))))))
      both_idle-IsServed refl refl phone_back

abbrev turns : ℕ → ℕ → Call → List (ℕ × Call)
turns zero i c = []
turns (suc n) i c = (i, c) ∷ turns n i c

abbrev one_user : ℕ → DeviceConns → System ops
one_user conns dc = record {
  mem = record (new_mem ops) {
    conns = ops.store ops.empty (conn_key phone) 0;
    cells = λ k p. dc;
    next_cell = λ k. 1;
    conn_cnt = conns;
    user_cnt = 1;
  };
  pcs = idle ∷ idle ∷ [];
}

-- Two calls of NewConn for the same device that both find none: each stores its connection, the first one
-- is no longer in the map and was not closed, and both are counted.
abbrev after_two : System ops
after_two =
    run ops
      (turns 2 0 (connects phone 1)
        ++ turns 2 1 (connects phone 2)
        ++ turns 4 0 (connects phone 1)
        ++ turns 3 1 (connects phone 2))
      both_idle

first_conn_lost :
    (after_two.mem.conn_cnt ≡ 2)
    × (after_two.mem.cells (conn_key phone) 0 ≡ (device_mobile, new_conn_of phone 2) ∷ [])
    × (after_two.mem.closed (conn_key phone) ≡ [])
    × (after_two.pcs ≡ idle ∷ idle ∷ [])
unfolding run step move add insert without lookup text_eq find conn_key decimal
first_conn_lost = (refl, refl, refl, refl)

-- Two devices of a user go at the same time: both goroutines find the object empty.
abbrev after_both_go : System ops
after_both_go =
    run ops
      (turns 3 0 (removes phone)
        ++ turns 3 1 (removes desk)
        ++ turns 5 0 (removes phone)
        ++ turns 5 1 (removes desk))
      (one_user 2 ((device_mobile, new_conn_of phone 1) ∷ (device_pc, new_conn_of desk 2) ∷ []))

user_counted_twice :
    (after_both_go.mem.user_cnt ≡ 18446744073709551615) × (after_both_go.pcs ≡ idle ∷ idle ∷ [])
unfolding run step move remove insert without lookup text_eq find conn_key decimal
user_counted_twice = (refl, refl)

-- NewConn of another device loads the object before RemoveConn of the last one deletes it from the map.
abbrev after_late_store : System ops
after_late_store =
    run ops
      (turns 3 0 (removes phone)
        ++ turns 3 1 (connects desk 2)
        ++ turns 2 0 (removes phone)
        ++ turns 1 1 (connects desk 2)
        ++ turns 3 0 (removes phone)
        ++ turns 2 1 (connects desk 2))
      (one_user 1 ((device_mobile, new_conn_of phone 1) ∷ []))

new_conn_lost :
    (after_late_store.mem.conn_cnt ≡ 1)
    × (ops.load after_late_store.mem.conns (conn_key phone) ≡ none)
    × (after_late_store.pcs ≡ idle ∷ idle ∷ [])
unfolding run step move remove add insert without lookup text_eq find conn_key decimal
new_conn_lost = (refl, refl, refl)
