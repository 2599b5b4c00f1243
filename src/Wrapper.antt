-- ===== src/Wrapper.antt =====
-- HandlerWrapper of types.go: several handlers of connection events, called one after another.
-- A handler is generic in the state that it works on.
mod Examples
use synp.Prelude.{
  ℕ, ◌≡◌, refl, sym, ◌∙◌, ap, ◌↔◌, Bool, true, false, ◌||◌, Option, none, some, List, [], ◌∷◌, ◌++◌,
  arith, if◌then◌else◌, Bool-cases, inl, inr, All,
}
use synp.Prelude.Text.{Text}
use synp.Fault.{Fault, Sentinel, error_is, append, rate_limited, error_is-append, append-none}
use synp.Conn.{Conn}
use synp.Handlers.{PushMessage}

-- A call of a handler: what it returns, and the state after it.
abbrev pub Action : Type 0 → Type 0
Action S = S → Option Fault × S

pub record Handler (S : Type 0) : Type 0 where
  pub on_connect : Conn → Action S
  pub on_disconnect : Conn → Action S
  pub on_receive_from_frontend : Conn → Text → Action S
  pub on_receive_from_backend : List Conn → PushMessage → Action S

module _ {S : Type 0} where
  -- The loop that calls every handler and collects the errors.
  unfoldable pub each : (Handler S → Action S) → List (Handler S) → Option Fault → Action S
  each call [] err s = (err, s)
  each call (h ∷ hs) err s = each call hs (append err (call h s).0) (call h s).1

  -- The loop of OnReceiveFromFrontend, which ends without an error where a handler limits the rate.
  unfoldable pub each_until_limited :
      (Handler S → Action S) → List (Handler S) → Option Fault → Action S
  each_until_limited call [] err s = (err, s)
  each_until_limited call (h ∷ hs) err s =
      let rest = each_until_limited call hs (append err (call h s).0) (call h s).1 in
      if error_is (call h s).0 rate_limited then (none, (call h s).1) else rest

  unfoldable pub new_handler_wrapper : List (Handler S) → Handler S
  unfolding each each_until_limited
  new_handler_wrapper handlers = record {
    on_connect = λ conn. each (λ h. h.on_connect conn) handlers none;
    on_disconnect = λ conn. each (λ h. h.on_disconnect conn) handlers none;
    on_receive_from_frontend = λ conn payload.
        each_until_limited (λ h. h.on_receive_from_frontend conn payload) handlers none;
    on_receive_from_backend =
        λ conns msg. each (λ h. h.on_receive_from_backend conns msg) handlers none;
  }

  -- What the handlers return when all of them are called in turn, and the state after that.
  abbrev pub replies : (Handler S → Action S) → List (Handler S) → S → List (Option Fault)
  replies call [] s = []
  replies call (h ∷ hs) s = (call h s).0 ∷ replies call hs (call h s).1

  abbrev pub state_after : (Handler S → Action S) → List (Handler S) → S → S
  state_after call [] s = s
  state_after call (h ∷ hs) s = state_after call hs (call h s).1

abbrev pub some_is : List (Option Fault) → Sentinel → Bool
some_is [] t = false
some_is (e ∷ es) t = error_is e t || some_is es t

module _ {S : Type 0} where
  each-state :
      (call : Handler S → Action S) (hs : List (Handler S)) (err : Option Fault) (s : S)
      → (each call hs err s).1 ≡ state_after call hs s
  unfolding each
  each-state call [] err s = refl
  each-state call (h ∷ hs) err s = each-state call hs (append err (call h s).0) (call h s).1

  each-is :
      (call : Handler S → Action S) (hs : List (Handler S)) (err : Option Fault) (s : S)
      (t : Sentinel)
      → error_is (each call hs err s).0 t ≡ (error_is err t || some_is (replies call hs s) t)
  unfolding each
  each-is call [] err s t = ground arith
  each-is call (h ∷ hs) err s t = ground (
    arith,
    each-is call hs (append err (call h s).0) (call h s).1 t,
    error_is-append err (call h s).0 t,
  )

  each-none :
      (call : Handler S → Action S) (hs : List (Handler S)) (err : Option Fault) (s : S)
      → ((each call hs err s).0 ≡ none) ↔ ((err ≡ none) × All (λ e. e ≡ none) (replies call hs s))
  unfolding each
  each-none call [] err s = ((λ h. (h, tt)), (λ h. h.0))
  each-none call (h ∷ hs) err s =
      let rest = each-none call hs (append err (call h s).0) (call h s).1 in
      let both = append-none err (call h s).0 in
      (
        (λ e. let r = rest.0 e in let b = both.0 r.0 in (b.0, (b.1, r.1))),
        (λ e. rest.1 (both.1 (e.0, e.1.0), e.1.1)),
      )

  -- OnConnect of the wrapper calls every handler in order, whatever the others return. It returns no
  -- error exactly when none of them does, and its error is of a kind exactly when one of theirs is.
  pub on_connect_lem :
      (hs : List (Handler S)) (conn : Conn) (s : S)
      → let call : Handler S → Action S = λ h. h.on_connect conn in
        let r = (new_handler_wrapper hs).on_connect conn s in
        (r.1 ≡ state_after call hs s)
        × ((r.0 ≡ none) ↔ (All (λ e. e ≡ none) (replies call hs s)))
        × ((t : Sentinel) → error_is r.0 t ≡ some_is (replies call hs s) t)
  unfolding new_handler_wrapper
  on_connect_lem hs conn s =
      let call : Handler S → Action S = λ h. h.on_connect conn in
      (
        each-state call hs none s,
        ((λ e. ((each-none call hs none s).0 e).1), (λ a. (each-none call hs none s).1 (refl, a))),
        (λ t. unfold error_is in each-is call hs none s t),
      )

  abbrev pub Unlimited : (Handler S → Action S) → List (Handler S) → S → Type 0
  Unlimited call hs s = All (λ e. error_is e rate_limited ≡ false) (replies call hs s)

  limited :
      (call : Handler S → Action S) (before : List (Handler S)) (h : Handler S)
      (after : List (Handler S)) (err : Option Fault) (s : S)
      → Unlimited call before s
      → error_is (call h (state_after call before s)).0 rate_limited ≡ true
      → each_until_limited call (before ++ h ∷ after) err s
        ≡ (none, (call h (state_after call before s)).1)
  unfolding each_until_limited
  limited call [] h after err s u l = rw l
  limited call (g ∷ gs) h after err s u l =
      rw (u.0) (limited call gs h after (append err (call g s).0) (call g s).1 u.1 l)

  -- The first handler that limits the rate ends the event: no error comes out, also none of the
  -- handlers before it, and those behind it are not called.
  pub rate_limited_ends :
      (before : List (Handler S)) (h : Handler S) (after : List (Handler S)) (conn : Conn)
      (payload : Text) (s : S)
      → let call : Handler S → Action S = λ h. h.on_receive_from_frontend conn payload in
        Unlimited call before s
        → error_is (call h (state_after call before s)).0 rate_limited ≡ true
        → (new_handler_wrapper (before ++ h ∷ after)).on_receive_from_frontend conn payload s
          ≡ (none, (call h (state_after call before s)).1)
  unfolding new_handler_wrapper
  rate_limited_ends before h after conn payload s u l =
      limited (λ h. h.on_receive_from_frontend conn payload) before h after none s u l

  unlimited :
      (call : Handler S → Action S) (hs : List (Handler S)) (err : Option Fault) (s : S)
      → Unlimited call hs s
      → each_until_limited call hs err s ≡ each call hs err s
  unfolding each each_until_limited
  unlimited call [] err s u = refl
  unlimited call (h ∷ hs) err s u =
      rw (u.0) (unlimited call hs (append err (call h s).0) (call h s).1 u.1)
