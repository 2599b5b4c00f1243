-- ===== src/Prelude/Goroutines.antt =====
-- Goroutines that are interleaved: where each of them stands, and sums over all of them.
use Prim.Native.Nat.{ℕ, zero, suc, ◌+◌, ◌≤◌}
use mathlib.Core.Path.{◌≡◌, refl, ap}
use mathlib.Core.Logic.{◌≢◌}
use mathlib.Core.Option.{Option, none, some}
use mathlib.Core.List.{List, [], ◌∷◌}
use native.Mathlib.Omega.{arith}

module _ {ℓ} {A : Type ℓ} where
  -- The place of a goroutine, and its move to another one; there is none behind the end of the list.
  abbrev pub place : List A → ℕ → Option A
  place [] i = none
  place (p ∷ ps) zero = some p
  place (p ∷ ps) (suc i) = place ps i

  abbrev pub moved : List A → ℕ → A → List A
  moved [] i q = []
  moved (p ∷ ps) zero q = q ∷ ps
  moved (p ∷ ps) (suc i) q = p ∷ moved ps i q

  -- The sum of a weight over the goroutines.
  abbrev pub total : (A → ℕ) → List A → ℕ
  total w [] = 0
  total w (p ∷ ps) = w p + total w ps

  pub total-moved :
      (w : A → ℕ) (ps : List A) (i : ℕ) (p q : A)
      → place ps i ≡ some p
      → total w (moved ps i q) + w p ≡ total w ps + w q
  total-moved w [] i p q h = cc
  total-moved w (r ∷ ps) zero p q h = ground (arith, h)
  total-moved w (r ∷ ps) (suc i) p q h = omega (arith, total-moved w ps i p q h)

  pub place-le : (w : A → ℕ) (ps : List A) (i : ℕ) (p : A) → place ps i ≡ some p → w p ≤ total w ps
  place-le w [] i p h = cc
  place-le w (r ∷ ps) zero p h = ground (arith, h)
  place-le w (r ∷ ps) (suc i) p h = omega (arith, place-le w ps i p h)

  -- Where goroutines stand after one has moved.
  pub place-moved :
      (ps : List A) (i : ℕ) (p q : A) → place ps i ≡ some p → place (moved ps i q) i ≡ some q
  place-moved [] i p q h = cc
  place-moved (r ∷ ps) zero p q h = refl
  place-moved (r ∷ ps) (suc i) p q h = place-moved ps i p q h

  pub place-moved_other :
      (ps : List A) (i j : ℕ) (q : A) → i ≢ j → place (moved ps i q) j ≡ place ps j
  place-moved_other [] i j q d = refl
  place-moved_other (r ∷ ps) zero zero q d = absurd (d refl)
  place-moved_other (r ∷ ps) zero (suc j) q d = refl
  place-moved_other (r ∷ ps) (suc i) zero q d = refl
  place-moved_other (r ∷ ps) (suc i) (suc j) q d = place-moved_other ps i j q (λ e. d (ap suc e))
