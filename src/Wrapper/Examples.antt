-- ===== src/Wrapper/Examples.antt =====
-- Three handlers that count their calls; the second limits the rate.
use synp.Prelude.{ℕ, suc, false, ◌≡◌, ◌↔◌, none, some, [], ◌∷◌, Option, All}
use synp.Prelude.Text.{codes}
use synp.Fault.{Fault, Sentinel, sentinel, error_is, conn_closed}
use synp.Session.{device_mobile}
use synp.Conn.{Conn}
use synp.Wrapper.{Handler, new_handler_wrapper, replies, state_after, some_is, on_connect_lem}

-- A handler that always gives the same answer.
abbrev answering : Option Fault → Handler ℕ
answering e = record {
  on_connect = λ conn s. (e, suc s);
  on_disconnect = λ conn s. (e, suc s);
  on_receive_from_frontend = λ conn payload s. (e, suc s);
  on_receive_from_backend = λ conns msg s. (e, suc s);
}

abbrev silent : Handler ℕ
silent = answering none

abbrev broken : Handler ℕ
broken = answering (some (sentinel conn_closed))

abbrev phone : Conn
phone = record {
  serial = 1;
  id = codes "1:7:mobile";
  user = record { bid = 1; uid = 7; device = device_mobile; auto_close = false };
}

on_connect_lem_example :
    (((new_handler_wrapper (broken ∷ silent ∷ [])).on_connect phone 0).1
      ≡ state_after (λ h. h.on_connect phone) (broken ∷ silent ∷ []) 0)
    × ((((new_handler_wrapper (broken ∷ silent ∷ [])).on_connect phone 0).0 ≡ none)
        ↔ All (λ e. e ≡ none) (replies (λ h. h.on_connect phone) (broken ∷ silent ∷ []) 0))
    × ((t : Sentinel)
        → error_is ((new_handler_wrapper (broken ∷ silent ∷ [])).on_connect phone 0).0 t
          ≡ some_is (replies (λ h. h.on_connect phone) (broken ∷ silent ∷ []) 0) t)
on_connect_lem_example = on_connect_lem (broken ∷ silent ∷ []) phone 0
