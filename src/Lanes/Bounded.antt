-- ===== src/Lanes/Bounded.antt =====
-- `Queue.bounded` of the effect library, which the lane stores call: a parameter of the model.
use effect_pm.Prelude.{ℕ, ◌+◌, ◌≤◌, ◌<◌, ◌≡◌, List, [], ◌∷◌, ◌++◌, Option, none, some, length}

-- A bounded FIFO queue. `none` from an offer means that the offering fiber is suspended.
pub record BoundedQueue (A : Type 0) : Type 1 where
  pub Queue : Type 0
  pub bounded : ℕ → Queue
  pub offer : Queue → A → Option Queue
  pub offer_all : Queue → List A → Option Queue
  pub poll : Queue → Option (A × Queue)
  pub size : Queue → ℕ
  pub contents : Queue → List A
  pub capacity : Queue → ℕ
  pub contents-bounded : (c : ℕ) → contents (bounded c) ≡ []
  pub capacity-bounded : (c : ℕ) → capacity (bounded c) ≡ c
  pub offer_room :
      (q : Queue) (a : A)
      → length (contents q) < capacity q
      → (r : Queue) × (offer q a ≡ some r)
        × (contents r ≡ contents q ++ a ∷ [])
        × (capacity r ≡ capacity q)
  pub offer_full : (q : Queue) (a : A) → capacity q ≤ length (contents q) → offer q a ≡ none
  pub offer_all_room :
      (q : Queue) (xs : List A)
      → length (contents q) + length xs ≤ capacity q
      → (r : Queue) × (offer_all q xs ≡ some r)
        × (contents r ≡ contents q ++ xs)
        × (capacity r ≡ capacity q)
  pub poll_nil : (q : Queue) → contents q ≡ [] → poll q ≡ none
  pub poll_cons :
      (q : Queue) (a : A) (rest : List A)
      → contents q ≡ a ∷ rest
      → (r : Queue) × (poll q ≡ some (a, r)) × (contents r ≡ rest) × (capacity r ≡ capacity q)
  pub size-contents : (q : Queue) → size q ≡ length (contents q)
