-- ===== src/Lanes/Priority/Loops.antt =====
-- The loops of the priority lane store, seen on the contents of the lanes.
use effect_pm.Prelude.{
  ℕ, zero, suc, ◌+◌, ◌≤◌, ◌<◌, ◌≡◌, refl, ap, ◌∙◌, ◌↔◌, Bool, true, not, List, [], ◌∷◌, ◌++◌,
  append-nil, append_assoc, map, Option-cases, none, some, inl, inr, length, All, filter,
  List-cases, Bool-cases, filter-append, length-append, length-filter-le, arith,
}
use effect_pm.Lanes.Bounded.{BoundedQueue}
use effect_pm.Lanes.Priority.{
  poll_lanes, lanes_empty, drain_loop, put_back, drain_lane, drain_lanes, offer_at,
}

module _ {A : Type 0} (Q : BoundedQueue A) where
  open Q use {
    Queue, contents, capacity, size, size-contents, poll_nil, poll_cons, offer_all_room, offer_room,
    offer_full,
  }

  -- Level 0 first, each lane oldest first.
  abbrev pub pending_of : List Queue → List A
  pending_of [] = []
  pending_of (q ∷ qs) = contents q ++ pending_of qs

  abbrev pub Fits : Queue → Type 0
  Fits q = length (contents q) ≤ capacity q

  pub poll_lanes_nil : (qs : List Queue) → pending_of qs ≡ [] → poll_lanes Q qs ≡ none
  unfolding poll_lanes
  poll_lanes_nil [] h = refl
  poll_lanes_nil (q ∷ qs) h = elim (List-cases (contents q)) [
    | inl e ↦ rw (poll_nil q e, poll_lanes) (ground (arith, poll_lanes_nil qs (rw e at h)))
    | inr (x, r, e) ↦ ground arith
  ]

  -- The head of the first lane that holds anything is the head of what is pending.
  pub poll_lanes_cons :
      (qs : List Queue) (a : A) (rest : List A)
      → All Fits qs
      → pending_of qs ≡ a ∷ rest
      → (rs : List Queue) × (poll_lanes Q qs ≡ some (a, rs))
        × (pending_of rs ≡ rest)
        × All Fits rs
        × (length rs ≡ length qs)
  unfolding poll_lanes
  poll_lanes_cons [] a rest f h = ground arith
  poll_lanes_cons (q ∷ qs) a rest f h = elim (List-cases (contents q)) [
    | inl e ↦
        let (rs, polled, left, fits, len) = poll_lanes_cons qs a rest f.1 (rw e at h) in
        (q ∷ rs, rw (poll_nil q e, poll_lanes) (ground arith), rw e left, (f.0, fits), ap suc len)
    | inr (x, r, e) ↦
        let (t, polled, left, cap) = poll_cons q x r e in
        (t ∷ qs, ground arith, ground arith, (ground arith, f.1), refl)
  ]

  pub lanes_empty_iff : (qs : List Queue) → (lanes_empty Q qs ≡ true) ↔ (pending_of qs ≡ [])
  unfolding lanes_empty
  lanes_empty_iff [] = (λ _. refl, λ _. refl)
  lanes_empty_iff (q ∷ qs) = elim (List-cases (contents q)) [
    | inl e ↦ ground (arith, size-contents q, ap length e, lanes_empty_iff qs)
    | inr (x, r, e) ↦ ground (arith, size-contents q, ap length e)
  ]

  -- With more fuel than items the loop of `drainLane` ends, and splits what the lane holds.
  pub drain_loop_lem :
      (fuel : ℕ) (q : Queue) (p : A → Bool) (out kept : List A)
      → length (contents q) < fuel
      → (t : Queue) × (drain_loop Q fuel q p out kept
          ≡ some (out ++ filter p (contents q), kept ++ filter (λ a. not (p a)) (contents q), t))
        × (contents t ≡ [])
        × (capacity t ≡ capacity q)
  unfolding drain_loop
  drain_loop_lem zero q p out kept h = absurd (omega arith)
  drain_loop_lem (suc fuel) q p out kept h = elim (List-cases (contents q)) [
    | inl e ↦ (q, rw (poll_nil q e, drain_loop, e, append-nil out, append-nil kept), e, refl)
    | inr (x, r, e) ↦
        let (t, polled, left, cap) = poll_cons q x r e in
        elim (Bool-cases (p x)) [
          | inl hit ↦
              let (u, ended, none_left, same) =
                drain_loop_lem fuel t p (out ++ x ∷ []) kept (ground (arith, ap length e)) in
              (u, ground (arith, append_assoc out (x ∷ []) (filter p r)), none_left, same ∙ cap)
          | inr miss ↦
              let (u, ended, none_left, same) =
                drain_loop_lem fuel t p out (kept ++ x ∷ []) (ground (arith, ap length e)) in
              (
                u,
                ground (arith, append_assoc kept (x ∷ []) (filter (λ a. not (p a)) r)),
                none_left,
                same ∙ cap,
              )
        ]
  ]

  put_back_lem :
      (q : Queue) (kept : List A)
      → contents q ≡ []
      → length kept ≤ capacity q
      → (t : Queue) × (put_back Q q kept ≡ some t) × (contents t ≡ kept) × (capacity t ≡ capacity q)
  unfolding put_back
  put_back_lem q [] e h = (q, refl, e, refl)
  put_back_lem q (a ∷ kept) e h =
      let (t, put, has, cap) = offer_all_room q (a ∷ kept) (omega (arith, ap length e)) in
      (t, put, ground arith, cap)

  pub drain_lane_lem :
      (q : Queue) (p : A → Bool) (out : List A)
      → Fits q
      → (t : Queue) × (drain_lane Q q p out ≡ some (out ++ filter p (contents q), t))
        × (contents t ≡ filter (λ a. not (p a)) (contents q))
        × (capacity t ≡ capacity q)
  unfolding drain_lane
  drain_lane_lem q p out f =
      let (t, ended, left, cap) =
        drain_loop_lem (size q + 1) q p out [] (omega (arith, size-contents q)) in
      let kept : List A = filter (λ a. not (p a)) (contents q) in
      let (u, put, has, cap') =
        put_back_lem t kept left
          (omega (arith, cap, length-filter-le (λ a. not (p a)) (contents q))) in
      (u, rw (ended, drain_lane, put), has, cap' ∙ cap)

  pub drain_lanes_lem :
      (qs : List Queue) (p : A → Bool) (out : List A)
      → All Fits qs
      → (rs : List Queue) × (drain_lanes Q qs p out ≡ some (out ++ filter p (pending_of qs), rs))
        × (pending_of rs ≡ filter (λ a. not (p a)) (pending_of qs))
        × All Fits rs
        × (length rs ≡ length qs)
  unfolding drain_lanes
  drain_lanes_lem [] p out f = ([], rw append-nil, refl, tt, refl)
  drain_lanes_lem (q ∷ qs) p out f =
      let (t, taken, left, cap) = drain_lane_lem q p out f.0 in
      let (rs, rest, left', fits, len) = drain_lanes_lem qs p (out ++ filter p (contents q)) f.1 in
      (
        t ∷ rs,
        ground (
          arith,
          append_assoc out (filter p (contents q)) (filter p (pending_of qs)),
          filter-append p (contents q) (pending_of qs),
        ),
        rw (filter-append (λ a. not (p a)) (contents q) (pending_of qs), left, left'),
        (
          omega (arith, cap, ap length left, f.0, length-filter-le (λ a. not (p a)) (contents q)),
          fits,
        ),
        ap suc len,
      )

  -- An offer to a lane with room adds the item at that lane's end.
  abbrev pub lanes_of : List Queue → List (List A)
  lanes_of qs = map contents qs

  abbrev pub add_at : List (List A) → ℕ → A → List (List A)
  add_at [] i a = []
  add_at (l ∷ ls) zero a = (l ++ a ∷ []) ∷ ls
  add_at (l ∷ ls) (suc i) a = l ∷ add_at ls i a

  abbrev pub RoomAt : List Queue → ℕ → Type 0
  RoomAt [] i = ⊥
  RoomAt (q ∷ qs) zero = length (contents q) < capacity q
  RoomAt (q ∷ qs) (suc i) = RoomAt qs i

  pub offer_at_room :
      (qs : List Queue) (i : ℕ) (a : A)
      → All Fits qs
      → RoomAt qs i
      → (rs : List Queue) × (offer_at Q qs i a ≡ some rs)
        × (lanes_of rs ≡ add_at (lanes_of qs) i a)
        × All Fits rs
        × (length rs ≡ length qs)
  unfolding offer_at
  offer_at_room [] i a f room = absurd room
  offer_at_room (q ∷ qs) zero a f room =
      let (t, offered, has, cap) = offer_room q a room in
      (
        t ∷ qs,
        ground arith,
        ground arith,
        (omega (arith, cap, ap length has, length-append (contents q) (a ∷ []), room), f.1),
        refl,
      )
  offer_at_room (q ∷ qs) (suc i) a f room =
      let (rs, offered, has, fits, len) = offer_at_room qs i a f.1 room in
      (q ∷ rs, ground arith, ground arith, (f.0, fits), ap suc len)

  -- An offer that is not suspended had room.
  pub offer_at-RoomAt :
      (qs rs : List Queue) (i : ℕ) (a : A) → offer_at Q qs i a ≡ some rs → RoomAt qs i
  unfolding offer_at
  offer_at-RoomAt [] rs i a e = cc
  offer_at-RoomAt (q ∷ qs) rs zero a e = ground (arith, offer_full q a)
  offer_at-RoomAt (q ∷ qs) rs (suc i) a e = elim (Option-cases (offer_at Q qs i a)) [
    | inl n ↦ ground arith
    | inr (ts, n) ↦ offer_at-RoomAt qs ts i a n
  ]
