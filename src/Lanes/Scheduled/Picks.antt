-- ===== src/Lanes/Scheduled/Picks.antt =====
-- What the scheduled lanes pick and poll (src/internal/levelLaneStoreScheduled.ts).
use effect_pm.Prelude.{
  ℕ, zero, suc, ◌+◌, ◌≤◌, ◌≡◌, ◌⊎◌, refl, ap, subst, Bool, true, ◌||◌, none, some, List, [], ◌∷◌,
  ltb, ◌==◌, if◌then◌else◌, any, All, length, tally, tally-append, List-cases, Bool-cases, inl, inr,
  arith,
}
use effect_pm.Lanes.Bounded.{BoundedQueue}
use effect_pm.Lanes.Priority.Loops.{pending_of}
use effect_pm.Lanes.Scheduled.{
  Fraction, WeightedState, Sched, weighted_state, TakeAlgorithm, strict_descending, weighted,
  custom, highest, effective, takes_over, earliest, pick_strict_descending, pick_weighted,
  weighted_of, served, resolve_pick, forget_level, non_empty_levels, poll_at, ScheduledLanes,
  poll_scheduled,
}

abbrev pub is_level : ℕ → ℕ × ℕ → Bool
is_level level p = p.0 == level

highest_lem :
    (levels : List (ℕ × ℕ)) (best : ℕ)
    → (m : ℕ) × (highest levels (some best) ≡ some m)
      × (best ≤ m)
      × All (λ p. p.0 ≤ m) levels
      × ((m == best || any (is_level m) levels) ≡ true)
highest_lem [] best = (best, refl, omega arith, tt, ground arith)
highest_lem ((level, size) ∷ rest) best = elim (Bool-cases (ltb best level)) [
  | inl e ↦
      let (m, found, above, all, among) = highest_lem rest level in
      (m, ground (arith, found), ground arith, (above, all), ground arith)
  | inr e ↦
      let (m, found, above, all, among) = highest_lem rest best in
      (m, ground (arith, found), above, (ground arith, all), ground arith)
]

earliest_lem :
    (s : WeightedState) (levels : List (ℕ × ℕ)) (best : ℕ) (eff : Fraction)
    → (m : ℕ) × (t : Fraction) × (earliest s levels (some (best, eff)) ≡ some (m, t))
      × ((m == best || any (is_level m) levels) ≡ true)
earliest_lem s [] best eff = (best, eff, refl, ground arith)
earliest_lem s ((level, size) ∷ rest) best eff =
    elim (Bool-cases (takes_over (effective s level) level eff best)) [
      | inl e ↦
          let (m, t, found, among) = earliest_lem s rest level (effective s level) in
          (m, t, rw e found, ground arith)
      | inr e ↦
          let (m, t, found, among) = earliest_lem s rest best eff in
          (m, t, rw e found, ground arith)
    ]

abbrev pub IsBuiltIn : {S : Type 0} → TakeAlgorithm S → Type 0
IsBuiltIn strict_descending = Unit
IsBuiltIn weighted = Unit
IsBuiltIn (custom pick) = ⊥

module _ {S : Type 0} where
  -- Strict descending picks the highest of the levels that hold an item.
  pub pick_strict_descending_lem :
      (p : ℕ × ℕ) (levels : List (ℕ × ℕ)) (state : Sched S)
      → (m : ℕ) × (pick_strict_descending (p ∷ levels) state ≡ some (m, state))
        × All (λ q. q.0 ≤ m) (p ∷ levels)
        × (any (is_level m) (p ∷ levels) ≡ true)
  unfolding pick_strict_descending
  pick_strict_descending_lem (level, size) levels state =
      let (m, found, above, all, among) = highest_lem levels level in
      (m, rw (pick_strict_descending, found) refl, (above, all), ground arith)

  pick_weighted_lem :
      (p : ℕ × ℕ) (levels : List (ℕ × ℕ)) (state : Sched S)
      → (m : ℕ) × (next : Sched S) × (pick_weighted (p ∷ levels) state ≡ some (m, next))
        × (any (is_level m) (p ∷ levels) ≡ true)
  unfolding pick_weighted
  pick_weighted_lem (level, size) levels state =
      let sched = weighted_of state in
      let (m, t, found, among) = earliest_lem sched levels level (effective sched level) in
      (m, weighted_state (served sched m t), rw (pick_weighted, found) refl, ground arith)

  resolve_pick_lem :
      (algorithm : TakeAlgorithm S) (p : ℕ × ℕ) (levels : List (ℕ × ℕ)) (state : Sched S)
      → IsBuiltIn algorithm
      → (m : ℕ) × (next : Sched S) × (resolve_pick algorithm (p ∷ levels) state ≡ some (m, next))
        × (any (is_level m) (p ∷ levels) ≡ true)
  unfolding resolve_pick
  resolve_pick_lem strict_descending p levels state b =
      let (m, found, all, among) = pick_strict_descending_lem p levels state in
      (m, state, found, among)
  resolve_pick_lem weighted p levels state b = pick_weighted_lem p levels state
  resolve_pick_lem (custom pick) p levels state b = absurd b

module _ {A : Type 0} (Q : BoundedQueue A) where
  open Q use {Queue, contents, size, size-contents, poll_nil, poll_cons}

  non_empty_levels_nil :
      (i : ℕ) (qs : List Queue) → non_empty_levels Q i qs ≡ [] → pending_of Q qs ≡ []
  unfolding non_empty_levels
  non_empty_levels_nil i [] h = refl
  non_empty_levels_nil i (q ∷ qs) h = elim (List-cases (contents q)) [
    | inl e ↦ ground (arith, e, size-contents q, ap length e, non_empty_levels_nil (suc i) qs)
    | inr (a, r, e) ↦ ground (arith, size-contents q, ap length e)
  ]

  -- The lane `level`, counted from `i`, yields an item, and the other items stay.
  abbrev Yields : ℕ → ℕ → List Queue → Type 0
  Yields i level qs =
      (j : ℕ) × (level ≡ i + j)
      × (a : A) × (left : ℕ) × (rs : List Queue) × (poll_at Q qs j ≡ some (a, left, rs))
      × ((p : A → Bool)
          → tally p (pending_of Q qs) ≡ (if p a then 1 else 0) + tally p (pending_of Q rs))

  Yields-cons :
      (i level : ℕ) (q : Queue) (qs : List Queue)
      → Yields (suc i) level qs
      → Yields i level (q ∷ qs)
  unfolding poll_at
  Yields-cons i level q qs (j, at, a, left, rs, polled, counts) = (
    suc j,
    omega (arith, at),
    a,
    left,
    q ∷ rs,
    rw (poll_at, polled) refl,
    λ p. omega (
      arith,
      counts p,
      tally-append p (contents q) (pending_of Q qs),
      tally-append p (contents q) (pending_of Q rs),
    ),
  )

  -- A level that counts as non-empty yields an item.
  non_empty_levels-Yields :
      (i level : ℕ) (qs : List Queue)
      → any (is_level level) (non_empty_levels Q i qs) ≡ true
      → Yields i level qs
  unfolding non_empty_levels poll_at
  non_empty_levels-Yields i level [] h = ground arith
  non_empty_levels-Yields i level (q ∷ qs) h = elim (List-cases (contents q)) [
    | inl e ↦
        Yields-cons i level q qs
          (non_empty_levels-Yields (suc i) level qs (ground (arith, size-contents q, ap length e)))
    | inr (a, r, e) ↦ elim (Bool-cases (i == level)) [
      | inl here ↦
          let (t, polled, left, cap) = poll_cons q a r e in
          (
            zero,
            ground arith,
            a,
            size t,
            t ∷ qs,
            rw (poll_at, polled) refl,
            λ p. omega (
              arith,
              tally-append p (contents q) (pending_of Q qs),
              tally-append p (contents t) (pending_of Q qs),
              ap (tally p) e,
              ap (tally p) left,
            ),
          )
      | inr there ↦
          Yields-cons i level q qs (
            non_empty_levels-Yields (suc i) level qs (ground (arith, size-contents q, ap length e)))
    ]
  ]

  module _ {S : Type 0} where
    -- With either built-in algorithm a poll never misses an item: it answers none, and changes
    -- nothing, only when every lane is empty, and else takes exactly one item out.
    pub poll_scheduled_lem :
        (algorithm : TakeAlgorithm S) (s : ScheduledLanes Q S)
        → IsBuiltIn algorithm
        → ((pending_of Q s.lanes.queues ≡ []) × (poll_scheduled Q algorithm s ≡ (none, s)))
          ⊎ ((a : A) × (t : ScheduledLanes Q S) × (poll_scheduled Q algorithm s ≡ (some a, t))
              × ((p : A → Bool)
                  → tally p (pending_of Q s.lanes.queues)
                    ≡ (if p a then 1 else 0) + tally p (pending_of Q t.lanes.queues)))
    unfolding poll_scheduled
    poll_scheduled_lem algorithm s built_in =
        elim (List-cases (non_empty_levels Q 0 s.lanes.queues)) [
          | inl e ↦ inl (non_empty_levels_nil 0 s.lanes.queues e, rw (poll_scheduled, e) refl)
          | inr (p, ps, e) ↦
              let (m, next, picked, among) = resolve_pick_lem algorithm p ps s.sched built_in in
              let (j, at, a, left, rs, polled, counts) =
                non_empty_levels-Yields 0 m s.lanes.queues (rw e among) in
              let same : j ≡ m = omega (arith, at) in
              let polled' : poll_at Q s.lanes.queues m ≡ some (a, left, rs) =
                subst (λ n. poll_at Q s.lanes.queues n ≡ some (a, left, rs)) same polled in
              inr (
                a,
                record {
                  lanes = record s.lanes { queues = rs };
                  sched = if left == 0 then forget_level algorithm m next else next;
                },
                rw (poll_scheduled, e, picked, polled') refl,
                counts,
              )
        ]
