-- ===== src/Durable/Sqlite/Invariant.antt =====
-- What every operation of the durable queue keeps of its table.
use effect_pm.Prelude.{
  ℕ, ◌+◌, ◌≤◌, ◌≡◌, refl, Bool, true, not, none, some, List, [], ◌∷◌, String, str_eq_iff, leb, ltb,
  filter, any, find, tally, tally-append, All, All-append, Option-cases, Bool-cases, inl, inr,
  arith, sort,
}
use effect_pm.Durable.Port.{DurableEntryInput, Match, durable_priority_rank}
use effect_pm.Durable.Sqlite.{
  Row, has_id, is_live, of_queue, is_available, is_leased, is_drained, row_le, update_where,
  delete_where, new_row, find_live, escalate, insert_new, offer, take, complete, unlock, fail,
  recover, clear, drain, head?, dead,
}
use effect_pm.Durable.Sqlite.Rows.{
  find-none, any-false, tally-filter-le, All-filter, tally-update_where-le, tally-update_where,
  All-update_where,
}

module _ {P : Type 0} where
  -- Ids and dedup keys of live entries are unique, and the rank column follows the priority.
  pub record IsWellFormed (rows : List (Row P)) : Type 0 where
    pub ids : (id : String) → tally (has_id id) rows ≤ 1
    pub live : (queue_id key : String) → tally (is_live queue_id key) rows ≤ 1
    pub ranks : All (λ r. r.priority_rank ≡ durable_priority_rank r.priority) rows

  delete_where-IsWellFormed :
      (p : Row P → Bool) (rows : List (Row P))
      → IsWellFormed rows
      → IsWellFormed (delete_where p rows)
  delete_where-IsWellFormed p rows v = record {
    ids = λ id. omega (arith, v.ids id, tally-filter-le (has_id id) (λ r. not (p r)) rows);
    live = λ q k. omega (arith, v.live q k, tally-filter-le (is_live q k) (λ r. not (p r)) rows);
    ranks = All-filter _ (λ r. not (p r)) rows v.ranks;
  }

  -- An update that keeps ids and ranks and makes no entry live.
  update_where-IsWellFormed :
      (p : Row P → Bool) (f : Row P → Row P) (rows : List (Row P))
      → ((r : Row P) → (f r).id ≡ r.id)
      → ((q k : String) (r : Row P) → is_live q k (f r) ≡ true → is_live q k r ≡ true)
      → ((r : Row P)
          → r.priority_rank ≡ durable_priority_rank r.priority
          → (f r).priority_rank ≡ durable_priority_rank (f r).priority)
      → IsWellFormed rows
      → IsWellFormed (update_where p f rows)
  update_where-IsWellFormed p f rows same quiet rank v = record {
    ids = λ id.
        omega (arith, v.ids id, tally-update_where (has_id id) p f rows (λ r. rw (same r) refl));
    live =
        λ q k. omega (arith, v.live q k, tally-update_where-le (is_live q k) p f rows (quiet q k));
    ranks = All-update_where _ p f rows (λ r _ h. rank r h) v.ranks;
  }

  -- A new entry is live under its own key only, and no live entry has that key.
  new_live :
      (rows : List (Row P)) (now : ℕ) (entry : DurableEntryInput P) (q k : String)
      → find_live rows entry.queue_id entry.dedup_key ≡ none
      → is_live q k (new_row rows now entry) ≡ true
      → tally (is_live q k) rows ≡ 0
  new_live rows now entry q k absent h = elim (Option-cases entry.dedup_key) [
    | inl n ↦ ground arith
    | inr (j, n) ↦
        let at_queue : entry.queue_id ≡ q = ground (arith, str_eq_iff entry.queue_id q) in
        let at_key : j ≡ k = ground (arith, str_eq_iff j k) in
        rw (← at_queue, ← at_key) (find-none (is_live entry.queue_id j) rows (ground arith))
  ]

  insert_new-IsWellFormed :
      (rows : List (Row P)) (now : ℕ) (entry : DurableEntryInput P)
      → find_live rows entry.queue_id entry.dedup_key ≡ none
      → IsWellFormed rows
      → IsWellFormed (insert_new rows now entry).1
  unfolding insert_new
  insert_new-IsWellFormed rows now entry absent v = elim (Bool-cases (any (has_id entry.id) rows)) [
    | inl taken ↦ rw taken v
    | inr fresh ↦
        let r : Row P = new_row rows now entry in
        rw fresh (record {
          ids = λ id. ground (
            arith,
            v.ids id,
            tally-append (has_id id) rows (r ∷ []),
            any-false (has_id entry.id) rows fresh,
            str_eq_iff entry.id id,
          );
          live = λ q k. ground (
            arith,
            v.live q k,
            tally-append (is_live q k) rows (r ∷ []),
            new_live rows now entry q k absent,
          );
          ranks = All-append _ rows (r ∷ []) v.ranks (refl, tt);
        })
  ]

  pub offer-IsWellFormed :
      (rows : List (Row P)) (now : ℕ) (entry : DurableEntryInput P)
      → IsWellFormed rows
      → IsWellFormed (offer rows now entry).1
  unfolding offer
  offer-IsWellFormed rows now entry v =
      elim (Option-cases (find_live rows entry.queue_id entry.dedup_key)) [
        | inl absent ↦ rw (offer, absent) (insert_new-IsWellFormed rows now entry absent v)
        | inr (live, found) ↦
            elim (Bool-cases (ltb (durable_priority_rank entry.priority) live.priority_rank)) [
              | inl e ↦
                  rw (offer, found, e)
                    (update_where-IsWellFormed (has_id live.id) (escalate entry.priority) rows
                      (λ r. refl) (λ q k r h. h) (λ r h. refl) v)
              | inr e ↦ rw (offer, found, e) v
            ]
      ]

  pub take-IsWellFormed :
      (rows : List (Row P)) (now : ℕ) (queue_id : String) (lease : ℕ)
      → IsWellFormed rows
      → IsWellFormed (take rows now queue_id lease).1
  unfolding take
  take-IsWellFormed rows now queue_id lease v =
      elim (Option-cases (head? (sort row_le (filter (is_available queue_id now) rows)))) [
        | inl e ↦ rw (take, e) v
        | inr (r, e) ↦
            rw (take, e)
              (update_where-IsWellFormed (has_id r.id)
                (λ q. record q { locked_until_ms = some (now + lease); attempts = r.attempts + 1 })
                rows (λ q. refl) (λ q k s h. h) (λ q h. h) v)
      ]

  pub complete-IsWellFormed :
      (rows : List (Row P)) (id : String) → IsWellFormed rows → IsWellFormed (complete rows id).1
  unfolding complete
  complete-IsWellFormed rows id v = delete_where-IsWellFormed (has_id id) rows v

  pub fail-IsWellFormed :
      (rows : List (Row P)) (id : String) (max_attempts : ℕ)
      → IsWellFormed rows
      → IsWellFormed (fail rows id max_attempts).1
  unfolding fail
  fail-IsWellFormed rows id max_attempts v = elim (Option-cases (find (has_id id) rows)) [
    | inl e ↦ rw (fail, e) v
    | inr (r, e) ↦ elim (Bool-cases (leb max_attempts r.attempts)) [
      | inl d ↦
          rw (fail, e, d)
            (update_where-IsWellFormed (has_id id)
              (λ q. record q { status = dead; locked_until_ms = none }) rows (λ q. refl)
              (λ q k s h. ground arith) (λ q h. h) v)
      | inr d ↦
          rw (fail, e, d)
            (update_where-IsWellFormed (has_id id) unlock rows (λ q. refl) (λ q k s h. h) (λ q h. h)
              v)
    ]
  ]

  pub recover-IsWellFormed :
      (rows : List (Row P)) (queue_id : String)
      → IsWellFormed rows
      → IsWellFormed (recover rows queue_id).1
  unfolding recover
  recover-IsWellFormed rows queue_id v =
      update_where-IsWellFormed (is_leased queue_id) unlock rows (λ q. refl) (λ q k s h. h)
        (λ q h. h) v

  pub clear-IsWellFormed :
      (rows : List (Row P)) (queue_id : String)
      → IsWellFormed rows
      → IsWellFormed (clear rows queue_id).1
  unfolding clear
  clear-IsWellFormed rows queue_id v = delete_where-IsWellFormed (of_queue queue_id) rows v

  pub drain-IsWellFormed :
      (rows : List (Row P)) (now : ℕ) (queue_id : String) (match : Match)
      → IsWellFormed rows
      → IsWellFormed (drain rows now queue_id match).1
  unfolding drain
  drain-IsWellFormed rows now queue_id match v =
      delete_where-IsWellFormed (is_drained queue_id now match) rows v

  -- The tables that the operations can reach from the empty one.
  pub data Reachable : List (Row P) → Type 0 where
    installed : Reachable []
    offered :
        (rows : List (Row P)) (now : ℕ) (entry : DurableEntryInput P)
        → Reachable rows
        → Reachable (offer rows now entry).1
    taken :
        (rows : List (Row P)) (now : ℕ) (queue_id : String) (lease : ℕ)
        → Reachable rows
        → Reachable (take rows now queue_id lease).1
    completed :
        (rows : List (Row P)) (id : String) → Reachable rows → Reachable (complete rows id).1
    failed :
        (rows : List (Row P)) (id : String) (max_attempts : ℕ)
        → Reachable rows
        → Reachable (fail rows id max_attempts).1
    recovered :
        (rows : List (Row P)) (queue_id : String)
        → Reachable rows
        → Reachable (recover rows queue_id).1
    cleared :
        (rows : List (Row P)) (queue_id : String)
        → Reachable rows
        → Reachable (clear rows queue_id).1
    drained :
        (rows : List (Row P)) (now : ℕ) (queue_id : String) (match : Match)
        → Reachable rows
        → Reachable (drain rows now queue_id match).1

  -- In every table that the operations reach from the empty one, no id stands twice, at most one
  -- pending entry of a queue has a given dedup key, and the rank column is that of the priority.
  pub Reachable-IsWellFormed : (rows : List (Row P)) → Reachable rows → IsWellFormed rows
  Reachable-IsWellFormed _ installed = record {
    ids = λ id. omega arith;
    live = λ q k. omega arith;
    ranks = tt;
  }
  Reachable-IsWellFormed _ (offered rows now entry s) =
      offer-IsWellFormed rows now entry (Reachable-IsWellFormed rows s)
  Reachable-IsWellFormed _ (taken rows now q lease s) =
      take-IsWellFormed rows now q lease (Reachable-IsWellFormed rows s)
  Reachable-IsWellFormed _ (completed rows id s) =
      complete-IsWellFormed rows id (Reachable-IsWellFormed rows s)
  Reachable-IsWellFormed _ (failed rows id n s) =
      fail-IsWellFormed rows id n (Reachable-IsWellFormed rows s)
  Reachable-IsWellFormed _ (recovered rows q s) =
      recover-IsWellFormed rows q (Reachable-IsWellFormed rows s)
  Reachable-IsWellFormed _ (cleared rows q s) =
      clear-IsWellFormed rows q (Reachable-IsWellFormed rows s)
  Reachable-IsWellFormed _ (drained rows now q m s) =
      drain-IsWellFormed rows now q m (Reachable-IsWellFormed rows s)
