-- ===== src/Lanes/Store.antt =====
-- The lane store interface (src/internal/laneStore.ts): operations, and the laws that the queue
-- engine needs of them. `pending` lists what is held; the laws see it through `tally`.
use effect_pm.Prelude.{
  ℕ, ◌+◌, ◌≡◌, Bool, true, not, List, [], Option, none, some, ◌↔◌, ℤ, length, sum, tally, filter,
  if◌then◌else◌,
}

pub record LaneStore (A : Type 0) : Type 1 where
  pub State : Type 0
  -- `none`: the offering fiber is suspended on a full lane.
  pub offer : State → A → ℤ → Option State
  pub poll : State → Option A × State
  pub is_empty : State → Bool
  pub sizes : State → List ℕ
  pub drain : State → Option (List A × State)
  pub extract_matching : State → (A → Bool) → Option (List A × State)
  -- What the store holds, level 0 first.
  pub pending : State → List A
  -- The offers that are not suspended.
  pub HasRoom : State → ℤ → Type 0
  -- What every operation keeps.
  pub IsValid : State → Type 0
  pub offer_room :
      (s : State) (a : A) (level : ℤ)
      → IsValid s
      → HasRoom s level
      → (t : State) × (offer s a level ≡ some t)
  pub offer_tally :
      (s t : State) (a : A) (level : ℤ)
      → IsValid s
      → offer s a level ≡ some t
      → IsValid t
        × ((p : A → Bool) → tally p (pending t) ≡ (if p a then 1 else 0) + tally p (pending s))
  pub poll_some :
      (s t : State) (a : A)
      → IsValid s
      → poll s ≡ (some a, t)
      → IsValid t
        × ((p : A → Bool) → tally p (pending s) ≡ (if p a then 1 else 0) + tally p (pending t))
  pub poll_none :
      (s t : State) → IsValid s → poll s ≡ (none, t) → IsValid t × (pending t ≡ pending s)
  pub sizes_lem : (s : State) → IsValid s → sum (sizes s) ≡ length (pending s)
  pub is_empty_iff : (s : State) → IsValid s → (is_empty s ≡ true) ↔ (pending s ≡ [])
  pub drain_lem :
      (s : State)
      → IsValid s
      → (t : State) × (drain s ≡ some (pending s, t)) × IsValid t × (pending t ≡ [])
  pub extract_lem :
      (s : State) (p : A → Bool)
      → IsValid s
      → (t : State) × (extract_matching s p ≡ some (filter p (pending s), t))
        × IsValid t
        × (pending t ≡ filter (λ a. not (p a)) (pending s))
