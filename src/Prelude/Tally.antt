-- ===== src/Prelude/Tally.antt =====
-- How many elements of a list pass a test: the view of a list that forgets its order.
use Prim.Native.Nat.{ℕ, ◌+◌, ◌≤◌}
use mathlib.Core.Path.{◌≡◌, refl}
use mathlib.Core.Bool.{Bool, true, not}
use mathlib.Core.List.{List, [], ◌∷◌, ◌++◌}
use native.Mathlib.Omega.{arith}
use effect_pm.Prelude.Tests.{if◌then◌else◌}
use effect_pm.Prelude.Lists.{length, filter}

module _ {ℓ} {A : Type ℓ} where
  abbrev pub tally : (A → Bool) → List A → ℕ
  tally p [] = 0
  tally p (x ∷ xs) = (if p x then 1 else 0) + tally p xs

  pub tally-append : (p : A → Bool) (xs ys : List A) → tally p (xs ++ ys) ≡ tally p xs + tally p ys
  tally-append p [] ys = omega arith
  tally-append p (x ∷ xs) ys = omega (arith, tally-append p xs ys)

  pub tally-filter :
      (p q : A → Bool) (xs : List A)
      → tally p (filter q xs) + tally p (filter (λ x. not (q x)) xs) ≡ tally p xs
  tally-filter p q [] = omega arith
  tally-filter p q (x ∷ xs) = ground (arith, tally-filter p q xs)

  pub tally-le-length : (p : A → Bool) (xs : List A) → tally p xs ≤ length xs
  tally-le-length p [] = omega arith
  tally-le-length p (x ∷ xs) = ground (arith, tally-le-length p xs)

  pub tally-true : (xs : List A) → tally (λ x. true) xs ≡ length xs
  tally-true [] = omega arith
  tally-true (x ∷ xs) = omega (arith, tally-true xs)

  pub length-filter : (p : A → Bool) (xs : List A) → length (filter p xs) ≡ tally p xs
  length-filter p [] = refl
  length-filter p (x ∷ xs) = ground (arith, length-filter p xs)
