-- ===== src/Session/Keys.antt =====
-- User, Device and the keys of internal/pkg/session/types.go.
use synp.Prelude.{ℕ, ◌≡◌, ◌↔◌, Bool, ◌∷◌, ◌++◌}
use synp.Prelude.Text.{
  Text, codes, decimal, colon, cut_at_colon, decimal-injective, decimal-IsColonFree,
}

-- `type Device string`
abbrev pub Device : Type 0
Device = Text

abbrev pub device_mobile : Device
device_mobile = codes "mobile"

abbrev pub device_tablet : Device
device_tablet = codes "tablet"

abbrev pub device_pc : Device
device_pc = codes "pc"

abbrev pub device_unknown : Device
device_unknown = codes "unknown"

pub record User : Type 0 where
  pub bid : ℕ  -- uint64
  pub uid : ℕ  -- uint64
  pub device : Device
  pub auto_close : Bool

-- fmt.Sprintf("%d:%d:%s", u.BID, u.UID, u.Device)
unfoldable pub conn_id : User → Text
conn_id u = decimal u.bid ++ colon ∷ (decimal u.uid ++ colon ∷ u.device)

-- fmt.Sprintf("%d:%d", u.BID, u.UID)
unfoldable pub conn_key : User → Text
conn_key u = decimal u.bid ++ colon ∷ decimal u.uid

-- fmt.Sprintf("synp:session:%d:%d", u.BID, u.UID)
unfoldable pub session_key : User → Text
session_key u = codes "synp:session:" ++ (decimal u.bid ++ colon ∷ decimal u.uid)

two_numbers :
    (a b c d : ℕ)
    → decimal a ++ colon ∷ decimal b ≡ decimal c ++ colon ∷ decimal d
    → (a ≡ c) × (b ≡ d)
two_numbers a b c d e =
    let parts =
      cut_at_colon (decimal a) (decimal c) (decimal b) (decimal d) (decimal-IsColonFree a)
        (decimal-IsColonFree c) e in
    (decimal-injective a c parts.0, decimal-injective b d parts.1)

-- Two users have the same connection key exactly when they are the same user of the same business.
pub conn_key_iff : (u v : User) → (conn_key u ≡ conn_key v) ↔ ((u.bid ≡ v.bid) × (u.uid ≡ v.uid))
unfolding conn_key
conn_key_iff u v = ((λ e. two_numbers u.bid u.uid v.bid v.uid e), (λ e. cc (e.0, e.1)))

-- Two users have the same connection id exactly when business, user and device agree, whatever
-- bytes the device has.
pub conn_id_iff :
    (u v : User)
    → (conn_id u ≡ conn_id v) ↔ ((u.bid ≡ v.bid) × (u.uid ≡ v.uid) × (u.device ≡ v.device))
unfolding conn_id
conn_id_iff u v = ((λ e. three e), (λ e. cc (e.0, e.1, e.2)))
  where
    three : conn_id u ≡ conn_id v → (u.bid ≡ v.bid) × (u.uid ≡ v.uid) × (u.device ≡ v.device)
    three e =
        let outer =
          cut_at_colon (decimal u.bid) (decimal v.bid) _ _ (decimal-IsColonFree u.bid)
            (decimal-IsColonFree v.bid) e in
        let inner =
          cut_at_colon (decimal u.uid) (decimal v.uid) _ _ (decimal-IsColonFree u.uid)
            (decimal-IsColonFree v.uid) outer.1 in
        (decimal-injective _ _ outer.0, decimal-injective _ _ inner.0, inner.1)

-- All devices of a user share one session key, and users that differ have different ones.
pub session_key_iff : (u v : User) → (session_key u ≡ session_key v) ↔ (conn_key u ≡ conn_key v)
unfolding session_key conn_key
session_key_iff u v = ((λ e. cc), (λ e. cc))
