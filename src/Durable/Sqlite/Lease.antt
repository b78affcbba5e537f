-- ===== src/Durable/Sqlite/Lease.antt =====
-- src/storage/sqlite/durableQueue.ts: leases and redelivery.
use effect_pm.Prelude.{
  ℕ, ◌↔◌, ◌∙◌, ◌+◌, ◌≤◌, ◌≡◌, refl, sym, ap, subst, Bool, true, false, not, ◌&&◌, none, some, List,
  [], ◌∷◌, String, filter, tally, tally-sort, tally-true, length-filter, All, All-map, All-sort,
  Option-cases, inl, inr, arith, sort, IsSorted, IsOrder, sort-IsSorted, length,
}
use effect_pm.Durable.Port.{DurableEntry}
use effect_pm.Durable.Sqlite.{
  Row, has_id, of_queue, is_available, is_leased, row_le, row_to_entry, update_where, take, unlock,
  recover, head?,
}
use effect_pm.Durable.Sqlite.Rows.{
  tally-All, tally_of_filter, tally-update_where, tally-filter-le, filter-All,
}

module _ {A : Type 0} where
  head_cons : (xs : List A) (a : A) → head? xs ≡ some a → (rest : List A) × (xs ≡ a ∷ rest)
  head_cons [] a h = cc
  head_cons (x ∷ xs) a h = (xs, ground arith)

  head_none : (xs : List A) → head? xs ≡ none → xs ≡ []
  head_none [] h = refl
  head_none (x ∷ xs) h = cc

  All-tally :
      (p : A → Bool) (xs : List A) → All (λ x. p x ≡ true) xs → tally (λ x. not (p x)) xs ≡ 0
  All-tally p [] h = refl
  All-tally p (x ∷ xs) h = ground (arith, h.0, All-tally p xs h.1)

  -- A test that every element of the sorted part passes is passed by each element of that part.
  All-unsorted :
      (le : A → A → Bool) (p q : A → Bool) (xs : List A)
      → All (λ x. q x ≡ true) (sort le (filter p xs))
      → All (λ x. p x ≡ true → q x ≡ true) xs
  All-unsorted le p q xs h =
      All-map (λ x. (p x && not (q x)) ≡ false) _ xs (λ x n t. ground arith)
        (tally-All (λ x. p x && not (q x)) xs
          (omega (
            arith,
            All-tally q (sort le (filter p xs)) h,
            tally-sort le (λ x. not (q x)) (filter p xs),
            tally_of_filter (λ x. not (q x)) p xs,
          )))

module _ {P : Type 0} where
  abbrev pub leased_until : ℕ → ℕ → Row P → Row P
  leased_until until attempts q = record q { locked_until_ms = some until; attempts = attempts }

  abbrev pub available_rows : List (Row P) → String → ℕ → List (Row P)
  available_rows rows queue_id now = filter (is_available queue_id now) rows

  -- `r` is the row that a lease picks of the table.
  pub record IsNext (rows : List (Row P)) (queue_id : String) (now : ℕ) (r : Row P) : Type 0 where
    pub present : (Q : Row P → Bool) → Q r ≡ true → 1 ≤ tally Q rows
    pub available : is_available queue_id now r ≡ true
    pub least : All (λ q. is_available queue_id now q ≡ true → row_le r q ≡ true) rows

  row_le-IsOrder : IsOrder (row_le {P = P})
  row_le-IsOrder = record { total = λ x y h. ground arith; trans = λ x y z h k. ground arith }

  pub IsNext-row :
      (rows : List (Row P)) (queue_id : String) (now : ℕ) (r : Row P)
      → head? (sort row_le (available_rows rows queue_id now)) ≡ some r
      → IsNext rows queue_id now r
  IsNext-row rows queue_id now r h =
      let available = available_rows rows queue_id now in
      let front = head_cons (sort row_le available) r h in
      let sorted : IsSorted row_le (r ∷ front.0) =
        subst (IsSorted row_le) front.1 (sort-IsSorted row_le row_le-IsOrder available) in
      let passed : All (λ q. is_available queue_id now q ≡ true) (r ∷ front.0) =
        subst (All (λ q. is_available queue_id now q ≡ true)) front.1 (
          All-sort row_le (λ q. is_available queue_id now q ≡ true) available
            (filter-All (is_available queue_id now) rows)) in
      record {
        present = λ Q t. ground (
          arith,
          ap (tally Q) front.1,
          tally-sort row_le Q available,
          tally-filter-le Q (is_available queue_id now) rows,
        );
        available = passed.0;
        least =
            All-unsorted row_le (is_available queue_id now) (row_le r) rows
              (subst (All (λ q. row_le r q ≡ true)) (sym front.1) (ground arith, sorted.0));
      }

  pub take_at_none :
      (rows : List (Row P)) (now : ℕ) (queue_id : String) (lease : ℕ)
      → head? (sort row_le (available_rows rows queue_id now)) ≡ none
      → take rows now queue_id lease ≡ (some none, rows)
  unfolding take
  take_at_none rows now queue_id lease e = rw (take, e) refl

  pub take_at_some :
      (rows : List (Row P)) (now : ℕ) (queue_id : String) (lease : ℕ) (r : Row P)
      → head? (sort row_le (available_rows rows queue_id now)) ≡ some r
      → take rows now queue_id lease ≡ (
        some (some (row_to_entry (record r { attempts = r.attempts + 1 }))),
        update_where (has_id r.id) (leased_until (now + lease) (r.attempts + 1)) rows,
      )
  unfolding take
  take_at_some rows now queue_id lease r e = rw (take, e) refl

  -- A lease that answers an entry hands out the available row of the least rank and, among those,
  -- of the least sequence number, with one more attempt than the row had.
  pub take_least :
      (rows : List (Row P)) (now : ℕ) (queue_id : String) (lease : ℕ) (entry : DurableEntry P)
      → (take rows now queue_id lease).0 ≡ some (some entry)
      → (r : Row P) × IsNext rows queue_id now r
        × (entry ≡ row_to_entry (record r { attempts = r.attempts + 1 }))
        × ((take rows now queue_id lease).1
            ≡ update_where (has_id r.id) (leased_until (now + lease) (r.attempts + 1)) rows)
  take_least rows now queue_id lease entry ok =
      elim (Option-cases (head? (sort row_le (available_rows rows queue_id now)))) [
        | inl e ↦ let at = take_at_none rows now queue_id lease e in cc
        | inr (r, e) ↦
            let at = take_at_some rows now queue_id lease r e in
            (r, IsNext-row rows queue_id now r e, ground arith, ap (λ p. p.1) at)
      ]

  available_count :
      (rows : List (Row P)) (queue_id : String) (now : ℕ)
      → length (sort row_le (available_rows rows queue_id now))
        ≡ tally (is_available queue_id now) rows
  available_count rows queue_id now = ground (
    arith,
    tally-true (sort row_le (available_rows rows queue_id now)),
    tally-sort row_le (λ x. true) (available_rows rows queue_id now),
    tally-true (available_rows rows queue_id now),
    length-filter (is_available queue_id now) rows,
  )

  -- A lease answers no entry exactly when the queue has no available row.
  pub take_none :
      (rows : List (Row P)) (now : ℕ) (queue_id : String) (lease : ℕ)
      → ((take rows now queue_id lease).0 ≡ some none)
        ↔ (tally (is_available queue_id now) rows ≡ 0)
  take_none rows now queue_id lease =
      elim (Option-cases (head? (sort row_le (available_rows rows queue_id now)))) [
        | inl e ↦
            let at = take_at_none rows now queue_id lease e in
            let empty = head_none (sort row_le (available_rows rows queue_id now)) e in
            (
              λ _. omega (arith, available_count rows queue_id now, ap length empty),
              λ _. ap (λ p. p.0) at,
            )
        | inr (r, e) ↦
            let at = take_at_some rows now queue_id lease r e in
            (
              λ n. cc,
              λ n. ground (
                arith,
                available_count rows queue_id now,
                ap length (head_cons (sort row_le (available_rows rows queue_id now)) r e).1,
              ),
            )
      ]

  of_queue-take :
      (rows : List (Row P)) (now : ℕ) (queue_id : String) (lease : ℕ)
      → tally (of_queue queue_id) (take rows now queue_id lease).1 ≡ tally (of_queue queue_id) rows
  of_queue-take rows now queue_id lease =
      elim (Option-cases (head? (sort row_le (available_rows rows queue_id now)))) [
        | inl e ↦
            let at = take_at_none rows now queue_id lease e in
            ap (λ p. tally (of_queue queue_id) p.1) at
        | inr (r, e) ↦
            let at = take_at_some rows now queue_id lease r e in
            ap (λ p. tally (of_queue queue_id) p.1) at
            ∙ tally-update_where (of_queue queue_id) (has_id r.id)
                (leased_until (now + lease) (r.attempts + 1)) rows (λ q. refl)
      ]

  recovered_available :
      (rows : List (Row P)) (queue_id : String) (later : ℕ)
      → tally (is_available queue_id later) (update_where (is_leased queue_id) unlock rows)
        ≡ tally (of_queue queue_id) rows
  recovered_available [] queue_id later = refl
  recovered_available (r ∷ rs) queue_id later =
      ground (arith, recovered_available rs queue_id later, Option-cases r.locked_until_ms)

  -- A lease loses no entry, and after it recovery makes every pending row of the queue available,
  -- the leased one included, at whatever time.
  pub recover-take :
      (rows : List (Row P)) (now later : ℕ) (queue_id : String) (lease : ℕ)
      → tally (is_available queue_id later) (recover (take rows now queue_id lease).1 queue_id).1
        ≡ tally (of_queue queue_id) rows
  unfolding recover
  recover-take rows now later queue_id lease = omega (
    arith,
    recovered_available (take rows now queue_id lease).1 queue_id later,
    of_queue-take rows now queue_id lease,
  )
