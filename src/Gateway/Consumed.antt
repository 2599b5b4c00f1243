-- ===== src/Gateway/Consumed.antt =====
-- The messages that the loop hands on.
use synp.Prelude.{◌≡◌, refl, ap, ◌∙◌, Bool, true, false, List, [], ◌∷◌}
use mathlib.Core.List.{foldl}
use synp.Prelude.Text.{Text}
use synp.SyncMap.{SyncMap}
use synp.Fault.{Result, ok, err}
use synp.Wrapper.{Action, Handler}
use synp.ConnManager.{DeviceConns, ConnManager}
use synp.Handlers.{PushMessage}
use synp.Mq.{Message}
use synp.Gateway.{Arrival, own_done, caller_done, closed, message, consume}
use synp.Server.{consume_push_message, parsed}

-- The messages before the loop ends.
abbrev pub handed : List Arrival → List Message
handed [] = []
handed (message msg ∷ rest) = msg ∷ handed rest
handed (own_done ∷ rest) = []
handed (caller_done ∷ rest) = []
handed (closed ∷ rest) = []

module _ {S : Type 0} where
  -- The loop calls the function once for each message before its end, in order, whatever the function
  -- returned for the ones before.
  pub consume_lem :
      (f : Message → Action S) (arrivals : List Arrival) (s : S)
      → (consume f arrivals s).0 ≡ foldl (λ t msg. (f msg t).1) s (handed arrivals)
  unfolding consume
  consume_lem f [] s = refl
  consume_lem f (message msg ∷ rest) s = consume_lem f rest (f msg s).1
  consume_lem f (own_done ∷ rest) s = refl
  consume_lem f (caller_done ∷ rest) s = refl
  consume_lem f (closed ∷ rest) s = refl

abbrev pub is_err : {A : Type 0} → Result A → Bool
is_err (ok a) = false
is_err (err e) = true

abbrev pub keep_if : Bool → Message → List Arrival → List Arrival
keep_if true msg rest = rest
keep_if false msg rest = message msg ∷ rest

-- The arrivals without the messages that json does not read.
abbrev pub readable : (Text → Result PushMessage) → List Arrival → List Arrival
readable decode [] = []
readable decode (message msg ∷ rest) = keep_if (is_err (decode msg.val)) msg (readable decode rest)
readable decode (own_done ∷ rest) = own_done ∷ readable decode rest
readable decode (caller_done ∷ rest) = caller_done ∷ readable decode rest
readable decode (closed ∷ rest) = closed ∷ readable decode rest

module _ {S : Type 0} (conns : SyncMap DeviceConns) (handler : Handler S)
    (decode : Text → Result PushMessage) (m : ConnManager conns) where
  -- consumePushMessage as the function of the consumer of pushed messages
  abbrev pub push_consumer : Message → Action S
  push_consumer msg = consume_push_message conns handler decode m msg.val

  kept :
      (msg : Message) (arrivals rest : List Arrival) (s : S) (r : Result PushMessage)
      → decode msg.val ≡ r
      → ((t : S) → consume push_consumer arrivals t ≡ consume push_consumer rest t)
      → consume push_consumer (message msg ∷ arrivals) s
        ≡ consume push_consumer (keep_if (is_err r) msg rest) s
  unfolding consume consume_push_message
  kept msg arrivals rest s (ok p) e ih = ih _
  kept msg arrivals rest s (err x) e ih =
      ih _ ∙ ap (λ r. consume push_consumer rest (parsed conns handler m r s).1) e

  -- A pushed message that json does not read is skipped: the consumer of pushed messages ends in the
  -- state, and in the same way, as if it had never come.
  pub unreadable_skipped :
      (arrivals : List Arrival) (s : S)
      → consume push_consumer arrivals s ≡ consume push_consumer (readable decode arrivals) s
  unfolding consume
  unreadable_skipped [] s = refl
  unreadable_skipped (message msg ∷ rest) s =
      kept msg rest (readable decode rest) s (decode msg.val) refl (λ t. unreadable_skipped rest t)
  unreadable_skipped (own_done ∷ rest) s = refl
  unreadable_skipped (caller_done ∷ rest) s = refl
  unreadable_skipped (closed ∷ rest) s = refl
