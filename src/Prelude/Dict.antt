-- ===== src/Prelude/Dict.antt =====
-- Go's built-in maps, and what any key-value map is measured by: association lists over text keys.
use Prim.Native.Nat.{ℕ, ◌+◌}
use mathlib.Core.Path.{◌≡◌, refl}
use mathlib.Core.Logic.{inl, inr}
use mathlib.Core.Option.{Option, none, some}
use mathlib.Core.List.{List, [], ◌∷◌}
use native.Mathlib.Omega.{arith}
use synp.Prelude.Tests.{if◌then◌else◌, Bool-cases}
use synp.Prelude.Text.{Text, text_eq, text_eq_iff, text_eq_refl}

abbrev pub Dict : Type 0 → Type 0
Dict V = List (Text × V)

module _ {V : Type 0} where
  -- v, ok := m[k]
  unfoldable pub lookup : Text → Dict V → Option V
  lookup k [] = none
  lookup k ((j, v) ∷ m) = if text_eq j k then some v else lookup k m

  -- delete(m, k)
  unfoldable pub without : Text → Dict V → Dict V
  without k [] = []
  without k ((j, v) ∷ m) = let rest = without k m in if text_eq j k then rest else (j, v) ∷ rest

  -- m[k] = v
  abbrev pub insert : Text → V → Dict V → Dict V
  insert k v m = (k, v) ∷ without k m

  pub lookup-without :
      (k j : Text) (m : Dict V)
      → lookup j (without k m) ≡ (if text_eq k j then none else lookup j m)
  unfolding lookup without
  lookup-without k j [] = ground arith
  lookup-without k j ((i, v) ∷ m) =
      ground (arith, lookup-without k j m, text_eq_iff i k, text_eq_iff i j, text_eq_iff k j)

  pub lookup-insert :
      (k j : Text) (v : V) (m : Dict V)
      → lookup j (insert k v m) ≡ (if text_eq k j then some v else lookup j m)
  unfolding lookup
  lookup-insert k j v m = ground (arith, lookup-without k j m)

  -- No key stands twice.
  unfoldable pub IsDistinct : Dict V → Type 0
  IsDistinct [] = Unit
  IsDistinct ((k, v) ∷ m) = (lookup k m ≡ none) × IsDistinct m

  pub without-missing : (k : Text) (m : Dict V) → lookup k m ≡ none → without k m ≡ m
  unfolding lookup without
  without-missing k [] h = refl
  without-missing k ((j, v) ∷ m) h = ground (arith, without-missing k m)

  pub without-IsDistinct : (k : Text) (m : Dict V) → IsDistinct m → IsDistinct (without k m)
  unfolding without IsDistinct
  without-IsDistinct k [] d = tt
  without-IsDistinct k ((j, v) ∷ m) d =
      ground
        (arith, without-IsDistinct k m d.1, lookup-without k j m, text_eq_iff k j, text_eq_iff j k)

  pub insert-IsDistinct : (k : Text) (v : V) (m : Dict V) → IsDistinct m → IsDistinct (insert k v m)
  unfolding IsDistinct
  insert-IsDistinct k v m d =
      (ground (arith, lookup-without k k m, text_eq_refl k), without-IsDistinct k m d)

  -- The sum of a measure over the values.
  abbrev pub total : (V → ℕ) → Dict V → ℕ
  total f [] = 0
  total f ((k, v) ∷ m) = f v + total f m

  pub total-without :
      (f : V → ℕ) (k : Text) (v : V) (m : Dict V)
      → IsDistinct m
      → lookup k m ≡ some v
      → total f m ≡ f v + total f (without k m)
  unfolding lookup without IsDistinct
  total-without f k v [] d h = cc
  total-without f k v ((j, w) ∷ m) d h = elim (Bool-cases (text_eq j k)) [
    | inl e ↦
        let missing : lookup k m ≡ none = rw (← (text_eq_iff j k).0 e) d.0 in
        rw (e, without-missing k m missing) (ground arith)
    | inr e ↦ rw e (omega (arith, total-without f k v m d.1 (ground arith)))
  ]

  pub total-ext :
      (f : V → ℕ) (l m : Dict V)
      → IsDistinct l
      → IsDistinct m
      → ((k : Text) → lookup k l ≡ lookup k m)
      → total f l ≡ total f m
  unfolding lookup IsDistinct
  total-ext f [] [] dl dm h = refl
  total-ext f [] ((k, v) ∷ m) dl dm h = ground (arith, h k, text_eq_refl k)
  total-ext f ((k, v) ∷ l) m dl dm h = omega (
    arith,
    total-without f k v m dm (ground (arith, h k, text_eq_refl k)),
    total-ext f l (without k m) dl.1 (without-IsDistinct k m dm)
        (λ j. ground (arith, h j, lookup-without k j m, text_eq_iff k j)),
  )

pub nil-IsDistinct : (V : Type 0) → IsDistinct {V = V} []
unfolding IsDistinct
nil-IsDistinct V = tt

pub lookup-nil : (V : Type 0) (k : Text) → lookup {V = V} k [] ≡ none
unfolding lookup
lookup-nil V k = refl
