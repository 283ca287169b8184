-- ===== src/Base/Lists.antt =====
-- Lists measured by native numbers, and predicates on all their elements.
use Prim.Native.Nat.{ℕ, suc, ◌+◌}
use mathlib.Core.Path.{◌≡◌, refl}
use mathlib.Core.List.{List, [], ◌∷◌, ◌++◌, reverse, reverse-cons}
use native.Mathlib.Omega.{arith}
use mathlib.Core.Path.{ap}

module _ {ℓ} {A : Type ℓ} where
  abbrev pub length : List A → ℕ
  length [] = 0
  length (x ∷ xs) = suc (length xs)

  pub length-append : (xs ys : List A) → length (xs ++ ys) ≡ length xs + length ys
  length-append [] ys = omega arith
  length-append (x ∷ xs) ys = omega (arith, length-append xs ys)

  pub length-reverse : (xs : List A) → length (reverse xs) ≡ length xs
  length-reverse [] = refl
  length-reverse (x ∷ xs) =
      omega (
        arith,
        ap length (reverse-cons x xs),
        length-append (reverse xs) (x ∷ []),
        length-reverse xs,
      )

abbrev pub All {ℓ κ} : {A : Type ℓ} → (A → Type κ) → List A → Type κ
All P [] = Unit
All P (x ∷ xs) = P x × All P xs

-- How often a test holds in a list.
abbrev pub count_if {ℓ} : {A : Type ℓ} → (A → ℕ) → List A → ℕ
count_if w [] = 0
count_if w (x ∷ xs) = w x + count_if w xs

pub count_if-append {ℓ} :
    {A : Type ℓ} (w : A → ℕ) (xs ys : List A)
    → count_if w (xs ++ ys) ≡ count_if w xs + count_if w ys
count_if-append w [] ys = omega arith
count_if-append w (x ∷ xs) ys = omega (arith, count_if-append w xs ys)
