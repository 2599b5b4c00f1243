-- ===== src/Prelude/Text.antt =====
-- Go strings as lists of bytes, `%d` of fmt.Sprintf, and texts joined by colons.
use Prim.Native.Nat.{ℕ, zero, suc, ◌+◌, ◌-◌, ◌*◌, ◌/◌, ◌%◌, ◌<◌}
use Prim.Native.Char.{code}
use Prim.Native.String.{String}
use mathlib.Core.Path.{◌≡◌, refl, ap, sym, ◌∙◌}
use mathlib.Core.Logic.{◌≢◌, ◌↔◌, inl, inr}
use mathlib.Core.Bool.{Bool, true, false, ◌&&◌}
use mathlib.Core.List.{List, [], ◌∷◌, ◌++◌}
use native.Mathlib.Omega.{arith}
use synp.Prelude.Tests.{ltb, ◌==◌, if◌then◌else◌, Bool-cases}
use synp.Prelude.Lists.{All, All-append}

abbrev pub Text : Type 0
Text = List ℕ

-- The bytes of an ASCII literal.
abbrev pub codes : String → Text
codes String.[] = []
codes (String.◌∷◌ c s) = code c ∷ codes s

unfoldable pub text_eq : Text → Text → Bool
text_eq [] [] = true
text_eq [] (y ∷ ys) = false
text_eq (x ∷ xs) [] = false
text_eq (x ∷ xs) (y ∷ ys) = x == y && text_eq xs ys

pub text_eq_iff : (a b : Text) → (text_eq a b ≡ true) ↔ (a ≡ b)
unfolding text_eq
text_eq_iff [] [] = ((λ _. refl), (λ _. refl))
text_eq_iff [] (y ∷ ys) = ((λ h. cc), (λ h. cc))
text_eq_iff (x ∷ xs) [] = ((λ h. cc), (λ h. cc))
text_eq_iff (x ∷ xs) (y ∷ ys) =
    ((λ h. ground (arith, text_eq_iff xs ys)), (λ h. ground (arith, text_eq_iff xs ys)))

pub text_eq_refl : (a : Text) → text_eq a a ≡ true
text_eq_refl a = (text_eq_iff a a).1 refl

-- `%d`: the decimal digits, the most significant first. The fuel bounds the number of digits.
unfoldable pub decimal_fuel : ℕ → ℕ → Text
decimal_fuel zero n = []
decimal_fuel (suc f) n =
    let more = decimal_fuel f (n / 10) ++ (48 + n % 10) ∷ [] in
    if ltb n 10 then (48 + n) ∷ [] else more

unfoldable pub decimal : ℕ → Text
unfolding decimal_fuel
decimal n = decimal_fuel (n + 1) n

-- The number that a text of digits stands for, read after `acc`.
parse_from : ℕ → Text → ℕ
parse_from acc [] = acc
parse_from acc (d ∷ ds) = parse_from (acc * 10 + (d - 48)) ds

parse_from-append :
    (acc : ℕ) (xs : Text) (d : ℕ)
    → parse_from acc (xs ++ d ∷ []) ≡ parse_from acc xs * 10 + (d - 48)
unfolding parse_from
parse_from-append acc [] d = refl
parse_from-append acc (x ∷ xs) d = parse_from-append (acc * 10 + (x - 48)) xs d

parse-decimal_fuel : (f n : ℕ) → n < f → parse_from 0 (decimal_fuel f n) ≡ n
unfolding decimal_fuel
parse-decimal_fuel zero n h = elim h [ ]
parse-decimal_fuel (suc f) n h = elim (Bool-cases (ltb n 10)) [
  | inl small ↦ rw small (unfold parse_from in omega arith)
  | inr large ↦
      rw (large, parse_from-append 0 (decimal_fuel f (n / 10)) (48 + n % 10))
        (ground (arith, parse-decimal_fuel f (n / 10)))
]

-- Different numbers print differently.
pub decimal-injective : (m n : ℕ) → decimal m ≡ decimal n → m ≡ n
unfolding decimal
decimal-injective m n e =
    sym (parse-decimal_fuel (m + 1) m (omega arith))
    ∙ ap (parse_from 0) e
    ∙ parse-decimal_fuel (n + 1) n (omega arith)

abbrev pub colon : ℕ
colon = 58

abbrev pub IsColonFree : Text → Type 0
IsColonFree = All (λ c. c ≢ colon)

decimal_fuel-IsColonFree : (f n : ℕ) → IsColonFree (decimal_fuel f n)
unfolding decimal_fuel
decimal_fuel-IsColonFree zero n = tt
decimal_fuel-IsColonFree (suc f) n = elim (Bool-cases (ltb n 10)) [
  | inl small ↦ rw small (ground arith, tt)
  | inr large ↦ rw large (
      All-append (λ c. c ≢ colon) (decimal_fuel f (n / 10)) _ (decimal_fuel-IsColonFree f (n / 10))
        (omega arith, tt))
]

pub decimal-IsColonFree : (n : ℕ) → IsColonFree (decimal n)
unfolding decimal
decimal-IsColonFree n = decimal_fuel-IsColonFree (n + 1) n

-- A text is cut in one way at its first colon.
pub cut_at_colon :
    (a b x y : Text)
    → IsColonFree a
    → IsColonFree b
    → a ++ colon ∷ x ≡ b ++ colon ∷ y
    → (a ≡ b) × (x ≡ y)
cut_at_colon [] [] x y ha hb e = (refl, cc)
cut_at_colon [] (d ∷ b) x y ha hb e = absurd (hb.0 (cc))
cut_at_colon (c ∷ a) [] x y ha hb e = absurd (ha.0 (cc))
cut_at_colon (c ∷ a) (d ∷ b) x y ha hb e =
    let rest = cut_at_colon a b x y ha.1 hb.1 (cc) in (cc, rest.1)
