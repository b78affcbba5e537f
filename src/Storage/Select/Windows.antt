-- ===== src/Storage/Select/Windows.antt =====
-- What filters and the window of a query (`applyWindow` of src/RuntimeStorage.ts) leave of a list.
use effect_pm.Prelude.{
  ℕ, zero, suc, ◌-◌, ◌≤◌, ◌≡◌, min, refl, Bool, ◌&&◌, Option, none, some, List, [], ◌∷◌, filter,
  take, drop, length, length-take, length-drop, tally, IsSorted, All, arith,
}
use effect_pm.Storage.Select.{skip, at_most}

module _ {A : Type 0} where
  All-take {κ} : (P : A → Type κ) (n : ℕ) (xs : List A) → All P xs → All P (take n xs)
  All-take P zero xs h = tt
  All-take P (suc n) [] h = tt
  All-take P (suc n) (x ∷ xs) h = (h.0, All-take P n xs h.1)

  pub All-drop {κ} : (P : A → Type κ) (n : ℕ) (xs : List A) → All P xs → All P (drop n xs)
  All-drop P zero xs h = h
  All-drop P (suc n) [] h = tt
  All-drop P (suc n) (x ∷ xs) h = All-drop P n xs h.1

  pub All-window {κ} :
      (P : A → Type κ) (limit offset : Option ℕ) (xs : List A)
      → All P xs
      → All P (at_most limit (skip offset xs))
  All-window P none none xs h = h
  All-window P none (some k) xs h = All-drop P k xs h
  All-window P (some n) none xs h = All-take P n xs h
  All-window P (some n) (some k) xs h = All-take P n (drop k xs) (All-drop P k xs h)

  pub take-IsSorted :
      (le : A → A → Bool) (n : ℕ) (xs : List A) → IsSorted le xs → IsSorted le (take n xs)
  take-IsSorted le zero xs s = tt
  take-IsSorted le (suc n) [] s = tt
  take-IsSorted le (suc n) (x ∷ xs) s = (All-take _ n xs s.0, take-IsSorted le n xs s.1)

  drop-IsSorted :
      (le : A → A → Bool) (n : ℕ) (xs : List A) → IsSorted le xs → IsSorted le (drop n xs)
  drop-IsSorted le zero xs s = s
  drop-IsSorted le (suc n) [] s = tt
  drop-IsSorted le (suc n) (x ∷ xs) s = drop-IsSorted le n xs s.1

  pub window-IsSorted :
      (le : A → A → Bool) (limit offset : Option ℕ) (xs : List A)
      → IsSorted le xs
      → IsSorted le (at_most limit (skip offset xs))
  window-IsSorted le none none xs s = s
  window-IsSorted le none (some k) xs s = drop-IsSorted le k xs s
  window-IsSorted le (some n) none xs s = take-IsSorted le n xs s
  window-IsSorted le (some n) (some k) xs s =
      take-IsSorted le n (drop k xs) (drop-IsSorted le k xs s)

  pub tally-filter :
      (p q : A → Bool) (xs : List A) → tally p (filter q xs) ≡ tally (λ x. q x && p x) xs
  tally-filter p q [] = refl
  tally-filter p q (x ∷ xs) = ground (arith, tally-filter p q xs)

  pub tally-filter-le : (p q : A → Bool) (xs : List A) → tally p (filter q xs) ≤ tally p xs
  tally-filter-le p q [] = omega arith
  tally-filter-le p q (x ∷ xs) = ground (arith, tally-filter-le p q xs)

  tally-take-le : (p : A → Bool) (n : ℕ) (xs : List A) → tally p (take n xs) ≤ tally p xs
  tally-take-le p zero xs = omega arith
  tally-take-le p (suc n) [] = omega arith
  tally-take-le p (suc n) (x ∷ xs) = omega (arith, tally-take-le p n xs)

  tally-drop-le : (p : A → Bool) (n : ℕ) (xs : List A) → tally p (drop n xs) ≤ tally p xs
  tally-drop-le p zero xs = omega arith
  tally-drop-le p (suc n) [] = omega arith
  tally-drop-le p (suc n) (x ∷ xs) = omega (arith, tally-drop-le p n xs)

  pub tally-window-le :
      (p : A → Bool) (limit offset : Option ℕ) (xs : List A)
      → tally p (at_most limit (skip offset xs)) ≤ tally p xs
  tally-window-le p none none xs = omega arith
  tally-window-le p none (some k) xs = tally-drop-le p k xs
  tally-window-le p (some n) none xs = tally-take-le p n xs
  tally-window-le p (some n) (some k) xs =
      omega (arith, tally-take-le p n (drop k xs), tally-drop-le p k xs)

-- How many of `n` records a window leaves.
abbrev pub windowed : Option ℕ → Option ℕ → ℕ → ℕ
windowed none none n = n
windowed none (some k) n = n - k
windowed (some m) none n = min m n
windowed (some m) (some k) n = min m (n - k)

pub length-window :
    {A : Type 0} (limit offset : Option ℕ) (xs : List A)
    → length (at_most limit (skip offset xs)) ≡ windowed limit offset (length xs)
length-window none none xs = refl
length-window none (some k) xs = length-drop k xs
length-window (some n) none xs = length-take n xs
length-window (some n) (some k) xs = omega (arith, length-take n (drop k xs), length-drop k xs)
