-- ===== src/Prelude/Pairs.antt =====
-- Two lists whose elements are related place by place, and what keeps them so.
use Prim.Native.Nat.{ℕ, zero, suc}
use mathlib.Core.Path.{◌≡◌, refl}
use mathlib.Core.Logic.{◌⊎◌, inl, inr}
use mathlib.Core.Bool.{Bool}
use mathlib.Core.Option.{none, some}
use mathlib.Core.List.{List, [], ◌∷◌, ◌++◌}
use effect_pm.Prelude.Tests.{Bool-cases}
use effect_pm.Prelude.Lists.{filter, find, take, drop}
use effect_pm.Prelude.Sort.{insert_sorted, sort}

module _ {A B : Type 0} (R : A → B → Type 0) where
  abbrev pub Pairs : List A → List B → Type 0
  Pairs [] [] = Unit
  Pairs [] (y ∷ ys) = ⊥
  Pairs (x ∷ xs) [] = ⊥
  Pairs (x ∷ xs) (y ∷ ys) = R x y × Pairs xs ys

  pub Pairs-append :
      (xs xs' : List A) (ys ys' : List B)
      → Pairs xs ys
      → Pairs xs' ys'
      → Pairs (xs ++ xs') (ys ++ ys')
  Pairs-append [] xs' [] ys' h h' = h'
  Pairs-append [] xs' (y ∷ ys) ys' h h' = absurd h
  Pairs-append (x ∷ xs) xs' [] ys' h h' = absurd h
  Pairs-append (x ∷ xs) xs' (y ∷ ys) ys' h h' = (h.0, Pairs-append xs xs' ys ys' h.1 h')

  pub Pairs-take : (n : ℕ) (xs : List A) (ys : List B) → Pairs xs ys → Pairs (take n xs) (take n ys)
  Pairs-take zero xs ys h = tt
  Pairs-take (suc n) [] [] h = tt
  Pairs-take (suc n) [] (y ∷ ys) h = absurd h
  Pairs-take (suc n) (x ∷ xs) [] h = absurd h
  Pairs-take (suc n) (x ∷ xs) (y ∷ ys) h = (h.0, Pairs-take n xs ys h.1)

  pub Pairs-drop : (n : ℕ) (xs : List A) (ys : List B) → Pairs xs ys → Pairs (drop n xs) (drop n ys)
  Pairs-drop zero xs ys h = h
  Pairs-drop (suc n) [] [] h = tt
  Pairs-drop (suc n) [] (y ∷ ys) h = absurd h
  Pairs-drop (suc n) (x ∷ xs) [] h = absurd h
  Pairs-drop (suc n) (x ∷ xs) (y ∷ ys) h = Pairs-drop n xs ys h.1

  -- Tests that agree on related elements.
  module _ (p : A → Bool) (q : B → Bool) (agree : (x : A) (y : B) → R x y → q y ≡ p x) where
    pub Pairs-filter : (xs : List A) (ys : List B) → Pairs xs ys → Pairs (filter p xs) (filter q ys)
    Pairs-filter [] [] h = tt
    Pairs-filter [] (y ∷ ys) h = absurd h
    Pairs-filter (x ∷ xs) [] h = absurd h
    Pairs-filter (x ∷ xs) (y ∷ ys) h = rw (agree x y h.0) (elim (Bool-cases (p x)) [
      | inl e ↦ rw e (h.0, Pairs-filter xs ys h.1)
      | inr e ↦ rw e (Pairs-filter xs ys h.1)
    ])

    pub Pairs-find :
        (xs : List A) (ys : List B)
        → Pairs xs ys
        → ((find p xs ≡ none) × (find q ys ≡ none))
          ⊎ ((x : A) × (y : B) × R x y × (find p xs ≡ some x) × (find q ys ≡ some y))
    Pairs-find [] [] h = inl (refl, refl)
    Pairs-find [] (y ∷ ys) h = absurd h
    Pairs-find (x ∷ xs) [] h = absurd h
    Pairs-find (x ∷ xs) (y ∷ ys) h = rw (agree x y h.0) (elim (Bool-cases (p x)) [
      | inl e ↦ rw e (inr (x, y, h.0, refl, refl))
      | inr e ↦ rw e (Pairs-find xs ys h.1)
    ])

  -- Orders that agree on related elements.
  module _ (le : A → A → Bool) (le' : B → B → Bool)
      (agree : (x x' : A) (y y' : B) → R x y → R x' y' → le' y y' ≡ le x x') where
    Pairs-insert_sorted :
        (x : A) (y : B) (xs : List A) (ys : List B)
        → R x y
        → Pairs xs ys
        → Pairs (insert_sorted le x xs) (insert_sorted le' y ys)
    Pairs-insert_sorted x y [] [] r h = (r, tt)
    Pairs-insert_sorted x y [] (y' ∷ ys) r h = absurd h
    Pairs-insert_sorted x y (x' ∷ xs) [] r h = absurd h
    Pairs-insert_sorted x y (x' ∷ xs) (y' ∷ ys) r h =
        rw (agree x x' y y' r h.0) (elim (Bool-cases (le x x')) [
          | inl e ↦ rw e (r, h)
          | inr e ↦ rw e (h.0, Pairs-insert_sorted x y xs ys r h.1)
        ])

    pub Pairs-sort : (xs : List A) (ys : List B) → Pairs xs ys → Pairs (sort le xs) (sort le' ys)
    Pairs-sort [] [] h = tt
    Pairs-sort [] (y ∷ ys) h = absurd h
    Pairs-sort (x ∷ xs) [] h = absurd h
    Pairs-sort (x ∷ xs) (y ∷ ys) h =
        Pairs-insert_sorted x y (sort le xs) (sort le' ys) h.0 (Pairs-sort xs ys h.1)
