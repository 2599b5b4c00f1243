-- ===== src/ConnManager/Examples.antt =====
-- A user with a phone and a desktop.
use synp.Prelude.{List, ◌≡◌, true, false, none, some, [], ◌∷◌}
use synp.Prelude.Text.{text_eq_refl}
use synp.SyncMap.{SyncMap, list_map}
use synp.Session.{User, device_mobile, device_pc, conn_key}
use synp.ConnManager.{DeviceConns, ConnManager, new_conn_manager, new_conn, remove_conn, find_conn}
use synp.ConnManager.Lookup.{made}
use synp.ConnManager.Counts.{IsValid, new_conn_manager-IsValid, new_conn-IsValid}
use synp.ConnManager.Replaced.{with_found, replaced_handler_removes_new}
use synp.ConnManager.Abstract.{Call, connects, removes, replay, perform_all, perform_all_refines}
use synp.ConnManager.History.{perform_all-IsValid}

abbrev ops : SyncMap DeviceConns
ops = list_map DeviceConns

abbrev phone : User
phone = record { bid = 1; uid = 7; device = device_mobile; auto_close = false }

abbrev desk : User
desk = record { bid = 1; uid = 7; device = device_pc; auto_close = false }

abbrev on_phone : ConnManager ops
on_phone = (new_conn ops (new_conn_manager ops) phone 1).0

on_phone-IsValid : IsValid ops on_phone
on_phone-IsValid =
    new_conn-IsValid ops (new_conn_manager ops) phone 1 (new_conn_manager-IsValid ops)

replaced_handler_removes_new_example :
    ((remove_conn ops (new_conn ops on_phone phone 2).0 phone).1 ≡ true)
    × ((remove_conn ops (new_conn ops on_phone phone 2).0 phone).0.closed
        ≡ made phone 2 ∷ with_found (find_conn ops on_phone phone) on_phone.closed)
    × (find_conn ops (remove_conn ops (new_conn ops on_phone phone 2).0 phone).0 phone ≡ none)
replaced_handler_removes_new_example = replaced_handler_removes_new ops on_phone phone 2

-- A manager that holds the phone alone, with its map written out.
abbrev holding : ConnManager ops
holding = record {
  conns = ops.store ops.empty (conn_key phone) ((device_mobile, made phone 1) ∷ []);
  conn_cnt = 1;
  user_cnt = 1;
  closed = [];
}

holding_load : ops.load holding.conns (conn_key phone) ≡ some ((device_mobile, made phone 1) ∷ [])
holding_load = rw (
  ops.load-store ops.empty (conn_key phone) (conn_key phone) ((device_mobile, made phone 1) ∷ []),
  text_eq_refl (conn_key phone),
)

abbrev calls : List Call
calls = connects phone 1 ∷ connects desk 2 ∷ removes phone ∷ connects phone 3 ∷ []

perform_all_refines_example :
    find_conn ops (perform_all ops (new_conn_manager ops) calls) ≡ replay calls (λ u. none)
perform_all_refines_example = perform_all_refines ops calls

perform_all-IsValid_example : IsValid ops (perform_all ops (new_conn_manager ops) calls)
perform_all-IsValid_example = perform_all-IsValid ops calls (tt, (tt, (tt, (tt, tt))))
