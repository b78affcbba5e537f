-- ===== src/Prelude/Sort.antt =====
-- A stable sort by a Boolean order: what `Array.prototype.sort` and `ORDER BY` promise.
use mathlib.Core.Path.{◌≡◌, refl, sym, ◌∙◌}
use mathlib.Core.Bool.{Bool, true, false}
use mathlib.Core.Logic.{inl, inr}
use mathlib.Core.List.{List, [], ◌∷◌}
use native.Mathlib.Omega.{arith}
use effect_pm.Prelude.Tests.{if◌then◌else◌, Bool-cases}
use effect_pm.Prelude.Lists.{All, All-filter, filter}
use effect_pm.Prelude.Tally.{tally}

module _ {ℓ} {A : Type ℓ} (le : A → A → Bool) where
  -- `x` stands before every element that is not smaller.
  abbrev pub insert_sorted : A → List A → List A
  insert_sorted x [] = x ∷ []
  insert_sorted x (y ∷ ys) = if le x y then x ∷ y ∷ ys else y ∷ insert_sorted x ys

  abbrev pub sort : List A → List A
  sort [] = []
  sort (x ∷ xs) = insert_sorted x (sort xs)

  abbrev pub IsSorted : List A → Type 0
  IsSorted [] = Unit {0}
  IsSorted (x ∷ xs) = All (λ y. le x y ≡ true) xs × IsSorted xs

  pub tally-insert_sorted :
      (p : A → Bool) (x : A) (xs : List A) → tally p (insert_sorted x xs) ≡ tally p (x ∷ xs)
  tally-insert_sorted p x [] = refl
  tally-insert_sorted p x (y ∷ ys) = ground (arith, tally-insert_sorted p x ys)

  -- Sorting only reorders.
  pub tally-sort : (p : A → Bool) (xs : List A) → tally p (sort xs) ≡ tally p xs
  tally-sort p [] = refl
  tally-sort p (x ∷ xs) = omega (arith, tally-insert_sorted p x (sort xs), tally-sort p xs)

  pub All-insert_sorted {κ} :
      (P : A → Type κ) (x : A) (xs : List A) → P x → All P xs → All P (insert_sorted x xs)
  All-insert_sorted P x [] px h = (px, tt)
  All-insert_sorted P x (y ∷ ys) px h = elim (Bool-cases (le x y)) [
    | inl e ↦ rw e (px, h)
    | inr e ↦ rw e (h.0, All-insert_sorted P x ys px h.1)
  ]

  pub All-sort {κ} : (P : A → Type κ) (xs : List A) → All P xs → All P (sort xs)
  All-sort P [] h = tt
  All-sort P (x ∷ xs) h = All-insert_sorted P x (sort xs) h.0 (All-sort P xs h.1)

  -- The order is total and transitive.
  pub record IsOrder : Type ℓ where
    pub total : (x y : A) → le x y ≡ false → le y x ≡ true
    pub trans : (x y z : A) → le x y ≡ true → le y z ≡ true → le x z ≡ true

  module _ (o : IsOrder) where
    below :
        (x y : A) (ys : List A)
        → le x y ≡ true
        → All (λ z. le y z ≡ true) ys
        → All (λ z. le x z ≡ true) ys
    below x y [] h a = tt
    below x y (z ∷ zs) h a = (o.trans x y z h a.0, below x y zs h a.1)

    insert_sorted-IsSorted : (x : A) (xs : List A) → IsSorted xs → IsSorted (insert_sorted x xs)
    insert_sorted-IsSorted x [] s = (tt, tt)
    insert_sorted-IsSorted x (y ∷ ys) s = elim (Bool-cases (le x y)) [
      | inl e ↦ rw e ((e, below x y ys e s.0), s)
      | inr e ↦ rw e (
        All-insert_sorted (λ z. le y z ≡ true) x ys (o.total x y e) s.0,
        insert_sorted-IsSorted x ys s.1,
      )
    ]

    pub sort-IsSorted : (xs : List A) → IsSorted (sort xs)
    sort-IsSorted [] = tt
    sort-IsSorted (x ∷ xs) = insert_sorted-IsSorted x (sort xs) (sort-IsSorted xs)

  -- `x` goes to the front of what it is not above.
  insert_front : (x : A) (xs : List A) → All (λ z. le x z ≡ true) xs → insert_sorted x xs ≡ x ∷ xs
  insert_front x [] h = refl
  insert_front x (z ∷ zs) h = rw h.0 refl

  module _ (o : IsOrder) (p : A → Bool) where
    filter-insert_sorted :
        (x : A) (xs : List A)
        → IsSorted xs
        → filter p (insert_sorted x xs)
          ≡ (if p x then insert_sorted x (filter p xs) else filter p xs)
    filter-insert_sorted x [] s = refl
    filter-insert_sorted x (y ∷ ys) s = elim (Bool-cases (le x y)) [
      | inl e ↦
          let front =
            insert_front x (filter p (y ∷ ys))
              (All-filter (λ z. le x z ≡ true) p (y ∷ ys) (e, below o x y ys e s.0)) in
          elim (Bool-cases (p x)) [ inl px ↦ rw (e, px) (sym front) | inr px ↦ rw (e, px) ]
      | inr e ↦ ground (arith, e, filter-insert_sorted x ys s.1)
    ]

    -- A stable sort and a filter commute.
    pub filter-sort : (xs : List A) → filter p (sort xs) ≡ sort (filter p xs)
    filter-sort [] = refl
    filter-sort (x ∷ xs) =
        filter-insert_sorted x (sort xs) (sort-IsSorted o xs) ∙ ground (arith, filter-sort xs)

  -- Elements that stand in order already keep their places.
  pub sort_sorted : (xs : List A) → IsSorted xs → sort xs ≡ xs
  sort_sorted [] s = refl
  sort_sorted (x ∷ xs) s = rw (sort_sorted xs s.1) (insert_front x xs s.0)
