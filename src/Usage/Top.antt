-- ===== src/Usage/Top.antt =====
-- The busiest endpoints in the snapshot of src/internal/apiUsageRegistry.ts.
use effect_pm.Prelude.{
  length-map, ap, tally-true, ℕ, zero, suc, ◌+◌, ◌≡◌, sym, ◌∙◌, Bool, true, List, [], ◌∷◌, All,
  take, drop, map, length, length-take, sort, IsSorted, IsOrder, sort-IsSorted, tally, tally-sort,
  arith, min,
}
use effect_pm.Storage.Select.Windows.{All-drop, take-IsSorted}
use effect_pm.Usage.{UsageSink, TopEndpoint, top_endpoint, more_requests, snapshot}

abbrev pub endpoints : UsageSink → List TopEndpoint
endpoints s = map top_endpoint s.cumulative_by_endpoint

more_requests-IsOrder : IsOrder more_requests
more_requests-IsOrder = record { total = λ x y h. ground arith; trans = λ x y z h k. ground arith }

tally-take-drop :
    (p : TopEndpoint → Bool) (n : ℕ) (xs : List TopEndpoint)
    → tally p (take n xs) + tally p (drop n xs) ≡ tally p xs
tally-take-drop p zero xs = omega arith
tally-take-drop p (suc n) [] = omega arith
tally-take-drop p (suc n) (x ∷ xs) = omega (arith, tally-take-drop p n xs)

-- In a sorted list every element comes before every later one.
sorted_split :
    (n : ℕ) (xs : List TopEndpoint)
    → IsSorted more_requests xs
    → All (λ t. All (λ r. more_requests t r ≡ true) (drop n xs)) (take n xs)
sorted_split zero xs h = tt
sorted_split (suc n) [] h = tt
sorted_split (suc n) (x ∷ xs) h =
    (All-drop (λ r. more_requests x r ≡ true) n xs h.0, sorted_split n xs h.1)

length_sorted : (xs : List TopEndpoint) → length (sort more_requests xs) ≡ length xs
length_sorted xs =
    sym (tally-true (sort more_requests xs))
    ∙ tally-sort more_requests (λ x. true) xs
    ∙ tally-true xs

-- The snapshot lists at most ten endpoints, all if there are no more, the one with the most requests
-- first. The listed ones and what is left over are together the endpoints of the sink, and each that
-- is listed has at least as many requests as each that is left over.
pub snapshot_lem :
    (s : UsageSink)
    → (length (snapshot s).top_endpoints ≡ min 10 (length s.cumulative_by_endpoint))
      × IsSorted more_requests (snapshot s).top_endpoints
      × ((left : List TopEndpoint) × ((p : TopEndpoint → Bool)
            → tally p (snapshot s).top_endpoints + tally p left ≡ tally p (endpoints s))
          × All (λ t. All (λ r. more_requests t r ≡ true) left) (snapshot s).top_endpoints)
unfolding snapshot
snapshot_lem s =
    let sorted = sort more_requests (endpoints s) in
    let ordered = sort-IsSorted more_requests more_requests-IsOrder (endpoints s) in
    (
      length-take 10 sorted
          ∙ ap (min 10)
              (length_sorted (endpoints s) ∙ length-map top_endpoint s.cumulative_by_endpoint),
      take-IsSorted more_requests 10 sorted ordered,
      (
        drop 10 sorted,
        λ p. tally-take-drop p 10 sorted ∙ tally-sort more_requests p (endpoints s),
        sorted_split 10 sorted ordered,
      ),
    )
