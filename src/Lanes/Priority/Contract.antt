-- ===== src/Lanes/Priority/Contract.antt =====
-- What each operation of the priority lane store does, and the store as a `LaneStore`.
use effect_pm.Prelude.{
  ℕ, zero, suc, ◌+◌, ◌<◌, ◌≡◌, refl, sym, ap, subst, ◌∙◌, ◌↔◌, ◌⊎◌, Bool, true, not, List, [], ◌∷◌,
  ◌++◌, none, some, inl, inr, length, length-append, sum, All, filter, List-cases, Option-cases,
  tally, tally-append, filter-true, filter-false, replicate, ℤ, if◌then◌else◌, arith,
}
use effect_pm.Lanes.Bounded.{BoundedQueue}
use effect_pm.Lanes.Store.{LaneStore}
use effect_pm.Lanes.Levels.{clamp_level, clamp_level-lt, level_count_of, level_count_of-pos}
use effect_pm.Lanes.Priority.{
  Lanes, make, offer, poll, is_empty, sizes, sizes_of, drain, extract_matching, offer_at,
}
use effect_pm.Lanes.Priority.Loops.{
  pending_of, Fits, lanes_of, add_at, RoomAt, poll_lanes_nil, poll_lanes_cons, lanes_empty_iff,
  drain_lanes_lem, offer_at_room, offer_at-RoomAt,
}

module _ {A : Type 0} (Q : BoundedQueue A) where
  open Q use {Queue, contents, capacity, bounded, contents-bounded, capacity-bounded}

  abbrev pub pending : Lanes Q → List A
  pending s = pending_of Q s.queues

  pub record IsValid (s : Lanes Q) : Type 0 where
    pub some_lane : 0 < s.level_count
    pub as_many : length s.queues ≡ s.level_count
    pub fits : All (Fits Q) s.queues

  replicate-Fits :
      (n c : ℕ)
      → All (Fits Q) (replicate n (bounded c))
        × (length (replicate n (bounded c)) ≡ n)
        × (pending_of Q (replicate n (bounded c)) ≡ [])
  replicate-Fits zero c = (tt, refl, refl)
  replicate-Fits (suc n) c =
      let (f, l, e) = replicate-Fits n c in
      ((omega (arith, ap length (contents-bounded c)), f), ap suc l, rw (contents-bounded c) e)

  pub make-IsValid : (n c : ℕ) → IsValid (make Q n c) × (pending (make Q n c) ≡ [])
  unfolding make
  make-IsValid n c =
      let (f, l, e) = replicate-Fits (level_count_of n) c in
      (record { some_lane = level_count_of-pos n; as_many = l; fits = f }, e)

  -- A poll takes the oldest item of the lowest level that holds one, and leaves the rest in order.
  pub poll_lem :
      (s : Lanes Q)
      → IsValid s
      → ((pending s ≡ []) × (poll Q s ≡ (none, s)))
        ⊎ ((a : A) × (t : Lanes Q) × (poll Q s ≡ (some a, t))
            × (pending s ≡ a ∷ pending t)
            × IsValid t
            × (t.level_count ≡ s.level_count))
  unfolding poll
  poll_lem s v = elim (List-cases (pending s)) [
    | inl e ↦ inl (e, rw (poll_lanes_nil Q s.queues e, poll))
    | inr (a, rest, e) ↦
        let (rs, polled, left, fits, len) = poll_lanes_cons Q s.queues a rest v.fits e in
        inr (
          a,
          record s { queues = rs },
          rw (polled, poll),
          e ∙ ap (λ r. a ∷ r) (sym left),
          record { some_lane = v.some_lane; as_many = len ∙ v.as_many; fits = fits },
          refl,
        )
  ]

  sizes_of_lem : (qs : List Queue) → sum (sizes_of Q qs) ≡ length (pending_of Q qs)
  unfolding sizes_of
  sizes_of_lem [] = refl
  sizes_of_lem (q ∷ qs) =
      omega
        (arith, Q.size-contents q, sizes_of_lem qs, length-append (contents q) (pending_of Q qs))

  -- The sizes of the lanes add up to the number of items that are pending.
  pub sizes_lem : (s : Lanes Q) → sum (sizes Q s) ≡ length (pending s)
  unfolding sizes
  sizes_lem s = sizes_of_lem s.queues

  -- The store says that it is empty exactly when no lane holds an item.
  pub is_empty_iff : (s : Lanes Q) → (is_empty Q s ≡ true) ↔ (pending s ≡ [])
  unfolding is_empty
  is_empty_iff s = lanes_empty_iff Q s.queues

  -- On valid lanes the loops of `extractMatching` end with the fuel that they are given. It takes
  -- exactly the matching items, keeps the others in their order and leaves the lanes valid.
  pub extract_matching_lem :
      (s : Lanes Q) (p : A → Bool)
      → IsValid s
      → (t : Lanes Q) × (extract_matching Q s p ≡ some (filter p (pending s), t))
        × IsValid t
        × (pending t ≡ filter (λ a. not (p a)) (pending s))
  unfolding extract_matching
  extract_matching_lem s p v =
      let (rs, taken, left, fits, len) = drain_lanes_lem Q s.queues p [] v.fits in
      (
        record s { queues = rs },
        rw (taken, extract_matching),
        record { some_lane = v.some_lane; as_many = len ∙ v.as_many; fits = fits },
        left,
      )

  -- `drain` takes everything out, level 0 first, and leaves the lanes empty.
  pub drain_lem :
      (s : Lanes Q)
      → IsValid s
      → (t : Lanes Q) × (drain Q s ≡ some (pending s, t)) × IsValid t × (pending t ≡ [])
  unfolding drain
  drain_lem s v =
      let (t, taken, valid, left) = extract_matching_lem s (λ a. true) v in
      (t, rw filter-true at taken, valid, left ∙ filter-false (pending s))

  -- An offer is accepted exactly while its lane has room, and appends the item to that lane only.
  pub offer_lem :
      (s : Lanes Q) (a : A) (level : ℤ)
      → IsValid s
      → RoomAt Q s.queues (clamp_level level s.level_count)
      → (t : Lanes Q) × (offer Q s a level ≡ some t)
        × (lanes_of Q t.queues ≡ add_at Q (lanes_of Q s.queues) (clamp_level level s.level_count) a)
        × IsValid t
        × (t.level_count ≡ s.level_count)
  unfolding offer
  offer_lem s a level v room =
      let (rs, offered, has, fits, len) =
        offer_at_room Q s.queues (clamp_level level s.level_count) a v.fits room in
      (
        record s { queues = rs },
        rw (offered, offer),
        has,
        record { some_lane = v.some_lane; as_many = len ∙ v.as_many; fits = fits },
        refl,
      )

  pub offer-RoomAt :
      (s t : Lanes Q) (a : A) (level : ℤ)
      → offer Q s a level ≡ some t
      → RoomAt Q s.queues (clamp_level level s.level_count)
  unfolding offer
  offer-RoomAt s t a level e =
      elim (Option-cases (offer_at Q s.queues (clamp_level level s.level_count) a)) [
        | inl n ↦ ground arith
        | inr (rs, n) ↦ offer_at-RoomAt Q s.queues rs (clamp_level level s.level_count) a n
      ]

  flat : List (List A) → List A
  flat [] = []
  flat (l ∷ ls) = l ++ flat ls

  flat-lanes_of : (qs : List Queue) → flat (lanes_of Q qs) ≡ pending_of Q qs
  unfolding flat
  flat-lanes_of [] = refl
  flat-lanes_of (q ∷ qs) = ap (λ r. contents q ++ r) (flat-lanes_of qs)

  tally-add_at :
      (p : A → Bool) (ls : List (List A)) (i : ℕ) (a : A)
      → i < length ls
      → tally p (flat (add_at Q ls i a)) ≡ (if p a then 1 else 0) + tally p (flat ls)
  unfolding flat
  tally-add_at p [] i a h = absurd (omega arith)
  tally-add_at p (l ∷ ls) zero a h = omega (
    arith,
    tally-append p (l ++ a ∷ []) (flat ls),
    tally-append p l (flat ls),
    tally-append p l (a ∷ []),
  )
  tally-add_at p (l ∷ ls) (suc i) a h = omega (
    arith,
    tally-append p l (flat (add_at Q ls i a)),
    tally-append p l (flat ls),
    tally-add_at p ls i a (omega arith),
  )

  length-lanes_of : (qs : List Queue) → length (lanes_of Q qs) ≡ length qs
  length-lanes_of [] = refl
  length-lanes_of (q ∷ qs) = ap suc (length-lanes_of qs)

  -- An offer that is not suspended adds its item, once, and no other, whatever the level asked for.
  pub offer_tally :
      (s t : Lanes Q) (a : A) (level : ℤ)
      → IsValid s
      → offer Q s a level ≡ some t
      → IsValid t
        × ((p : A → Bool) → tally p (pending t) ≡ (if p a then 1 else 0) + tally p (pending s))
  offer_tally s t a level v e =
      let i = clamp_level level s.level_count in
      let (u, offered, has, valid, same) = offer_lem s a level v (offer-RoomAt s t a level e) in
      let t_is : u ≡ t = ground arith in
      (
        subst IsValid t_is valid,
        λ p.
            rw (← t_is, ← flat-lanes_of u.queues, has, ← flat-lanes_of s.queues)
              (tally-add_at p (lanes_of Q s.queues) i a (
                omega (
                  arith,
                  length-lanes_of s.queues,
                  v.as_many,
                  clamp_level-lt level s.level_count v.some_lane,
                ))),
      )

  pub poll_some :
      (s t : Lanes Q) (a : A)
      → IsValid s
      → poll Q s ≡ (some a, t)
      → IsValid t
        × ((p : A → Bool) → tally p (pending s) ≡ (if p a then 1 else 0) + tally p (pending t))
  poll_some s t a v e = elim (poll_lem s v) [
    | inl (_, idle) ↦ ground arith
    | inr (b, u, polled, head, valid, _) ↦
        let b_is : b ≡ a = ground arith in
        let u_is : u ≡ t = ground arith in
        (subst IsValid u_is valid, λ p. rw (head, b_is, u_is) refl)
  ]

  pub poll_none :
      (s t : Lanes Q) → IsValid s → poll Q s ≡ (none, t) → IsValid t × (pending t ≡ pending s)
  poll_none s t v e = elim (poll_lem s v) [
    | inl (_, idle) ↦ let t_is : s ≡ t = ground arith in (subst IsValid t_is v, rw t_is refl)
    | inr (b, u, polled, head, valid, same) ↦ ground arith
  ]

  -- An offer to a lane with room, at any level clamped to the lanes, is not suspended.
  pub offer_room :
      (s : Lanes Q) (a : A) (level : ℤ)
      → IsValid s
      → RoomAt Q s.queues (clamp_level level s.level_count)
      → (t : Lanes Q) × (offer Q s a level ≡ some t)
  offer_room s a level v room =
      let (t, offered, has, valid, same) = offer_lem s a level v room in (t, offered)

  -- The store behind the interface that the engine is written against.
  unfoldable pub priority_store : LaneStore A
  priority_store = record {
    State = Lanes Q;
    offer = offer Q;
    poll = poll Q;
    is_empty = is_empty Q;
    sizes = sizes Q;
    drain = drain Q;
    extract_matching = extract_matching Q;
    pending = pending;
    HasRoom = λ s level. RoomAt Q s.queues (clamp_level level s.level_count);
    IsValid = IsValid;
    offer_room = offer_room;
    offer_tally = offer_tally;
    poll_some = poll_some;
    poll_none = poll_none;
    sizes_lem = λ s _. sizes_lem s;
    is_empty_iff = λ s _. is_empty_iff s;
    drain_lem = drain_lem;
    extract_lem = extract_matching_lem;
  }
