-- ===== src/Durable/Sqlite/Exclusive.antt =====
-- src/storage/sqlite/durableQueue.ts: a leased entry until its lease ends.
use effect_pm.Prelude.{
  ℕ, ◌+◌, ◌≤◌, ◌≡◌, refl, ap, sym, subst, ◌∙◌, Bool, false, not, ◌&&◌, none, some, List, [], ◌∷◌,
  String, str_eq, str_eq_iff, tally, tally-append, any, find, sort, leb, ltb, arith, Bool-cases,
  Option-cases, inl, inr,
}
use effect_pm.Durable.Port.{DurableEntryInput, DurableEntry, Match, durable_priority_rank}
use effect_pm.Durable.Sqlite.{
  Row, has_id, is_pending, of_queue, is_available, is_drained, unlocked, row_le, row_to_entry,
  update_where, delete_where, find_live, new_row, escalate, insert_new, offer, take, complete,
  unlock, fail, clear, drain, dead, head?,
}
use effect_pm.Durable.Sqlite.Rows.{tally-filter-le, tally-update_where}
use effect_pm.Durable.Sqlite.Lease.{
  IsNext, IsNext-row, leased_until, available_rows, take_at_none, take_at_some, take_least,
}

module _ {P : Type 0} where
  -- What the queues of the table can do while an entry is leased until an instant: every operation
  -- but a recovery, with leases up to that instant, and with offers and failures of other ids.
  pub data Between (id : String) (until : ℕ) (first : List (Row P)) : List (Row P) → Type 0 where
    at_first : Between id until first first
    offered :
        (rows : List (Row P)) (now : ℕ) (entry : DurableEntryInput P)
        → str_eq entry.id id ≡ false
        → Between id until first rows
        → Between id until first (offer rows now entry).1
    taken :
        (rows : List (Row P)) (now : ℕ) (queue_id : String) (lease : ℕ)
        → now ≤ until
        → Between id until first rows
        → Between id until first (take rows now queue_id lease).1
    completed :
        (rows : List (Row P)) (other : String)
        → Between id until first rows
        → Between id until first (complete rows other).1
    failed :
        (rows : List (Row P)) (other : String) (max_attempts : ℕ)
        → str_eq other id ≡ false
        → Between id until first rows
        → Between id until first (fail rows other max_attempts).1
    cleared :
        (rows : List (Row P)) (queue_id : String)
        → Between id until first rows
        → Between id until first (clear rows queue_id).1
    drained :
        (rows : List (Row P)) (now : ℕ) (queue_id : String) (match : Match)
        → Between id until first rows
        → Between id until first (drain rows now queue_id match).1

  -- A pending row of the id that some lease up to `until` could pick.
  abbrev is_open : String → ℕ → Row P → Bool
  is_open id until r = has_id id r && (is_pending r.status && unlocked r.locked_until_ms until)

  -- An update of rows with another id.
  update_elsewhere :
      (id other : String) (until : ℕ) (f : Row P → Row P) (rows : List (Row P))
      → str_eq other id ≡ false
      → ((r : Row P) → (f r).id ≡ r.id)
      → tally (is_open id until) (update_where (has_id other) f rows)
        ≡ tally (is_open id until) rows
  update_elsewhere id other until f [] apart same = refl
  update_elsewhere id other until f (r ∷ rs) apart same =
      ground (arith, same r, str_eq_iff r.id other, update_elsewhere id other until f rs apart same)

  leased_away :
      (rows : List (Row P)) (id : String) (until attempts : ℕ)
      → tally (is_open id until) (update_where (has_id id) (leased_until until attempts) rows) ≡ 0
  leased_away [] id until attempts = refl
  leased_away (r ∷ rs) id until attempts = ground (arith, leased_away rs id until attempts)

  available_open :
      (rows : List (Row P)) (id other : String) (until later : ℕ)
      → later ≤ until
      → tally (λ x. has_id id x && is_available other later x) rows ≤ tally (is_open id until) rows
  available_open [] id other until later before = omega arith
  available_open (r ∷ rs) id other until later before =
      ground (arith, available_open rs id other until later before, Option-cases r.locked_until_ms)

  -- A lease that could start in time picks another row.
  not_next :
      (rows : List (Row P)) (id other : String) (until later : ℕ) (r : Row P)
      → IsNext rows other later r
      → later ≤ until
      → tally (is_open id until) rows ≡ 0
      → str_eq r.id id ≡ false
  not_next rows id other until later r next before h = ground (
    arith,
    next.present (λ x. has_id id x && is_available other later x),
    next.available,
    available_open rows id other until later before,
  )

  offer_open :
      (rows : List (Row P)) (now : ℕ) (entry : DurableEntryInput P) (id : String) (until : ℕ)
      → str_eq entry.id id ≡ false
      → tally (is_open id until) rows ≡ 0
      → tally (is_open id until) (offer rows now entry).1 ≡ 0
  unfolding offer insert_new
  offer_open rows now entry id until apart h =
      elim (Option-cases (find_live rows entry.queue_id entry.dedup_key)) [
        | inl e ↦ elim (Bool-cases (any (has_id entry.id) rows)) [
          | inl t ↦ rw (offer, e, t) h
          | inr t ↦
              rw (offer, e, t)
                (ground (
                  arith,
                  h,
                  apart,
                  tally-append (is_open id until) rows (new_row rows now entry ∷ []),
                ))
        ]
        | inr (live, e) ↦
            elim (Bool-cases (ltb (durable_priority_rank entry.priority) live.priority_rank)) [
              | inl t ↦
                  rw (offer, e, t)
                    (tally-update_where (is_open id until) (has_id live.id)
                        (escalate entry.priority) rows (λ r. refl)
                      ∙ h)
              | inr t ↦ rw (offer, e, t) h
            ]
      ]

  take_open :
      (rows : List (Row P)) (now : ℕ) (queue_id : String) (lease : ℕ) (id : String) (until : ℕ)
      → now ≤ until
      → tally (is_open id until) rows ≡ 0
      → tally (is_open id until) (take rows now queue_id lease).1 ≡ 0
  take_open rows now queue_id lease id until before h =
      elim (Option-cases (head? (sort row_le (available_rows rows queue_id now)))) [
        | inl e ↦
            ap (λ p. tally (is_open id until) p.1) (take_at_none rows now queue_id lease e) ∙ h
        | inr (r, e) ↦
            ap (λ p. tally (is_open id until) p.1) (take_at_some rows now queue_id lease r e)
            ∙ update_elsewhere id r.id until (leased_until (now + lease) (r.attempts + 1)) rows
                (not_next rows id queue_id until now r (IsNext-row rows queue_id now r e) before h)
                (λ q. refl)
            ∙ h
      ]

  fail_open :
      (rows : List (Row P)) (other : String) (max_attempts : ℕ) (id : String) (until : ℕ)
      → str_eq other id ≡ false
      → tally (is_open id until) rows ≡ 0
      → tally (is_open id until) (fail rows other max_attempts).1 ≡ 0
  unfolding fail
  fail_open rows other max_attempts id until apart h =
      elim (Option-cases (find (has_id other) rows)) [
        | inl e ↦ rw (fail, e) h
        | inr (r, e) ↦ elim (Bool-cases (leb max_attempts r.attempts)) [
          | inl t ↦
              rw (fail, e, t)
                (update_elsewhere id other until
                    (λ q. record q { status = dead; locked_until_ms = none }) rows apart (λ q. refl)
                  ∙ h)
          | inr t ↦
              rw (fail, e, t) (update_elsewhere id other until unlock rows apart (λ q. refl) ∙ h)
        ]
      ]

  deleted_open :
      (rows : List (Row P)) (p : Row P → Bool) (id : String) (until : ℕ)
      → tally (is_open id until) rows ≡ 0
      → tally (is_open id until) (delete_where p rows) ≡ 0
  deleted_open rows p id until h =
      omega (arith, h, tally-filter-le (is_open id until) (λ r. not (p r)) rows)

  Between_keeps :
      (id : String) (until : ℕ) (first rows : List (Row P))
      → tally (is_open id until) first ≡ 0
      → Between id until first rows
      → tally (is_open id until) rows ≡ 0
  unfolding complete clear drain
  Between_keeps id until first _ h at_first = h
  Between_keeps id until first _ h (offered rows now entry apart b) =
      offer_open rows now entry id until apart (Between_keeps id until first rows h b)
  Between_keeps id until first _ h (taken rows now queue_id lease before b) =
      take_open rows now queue_id lease id until before (Between_keeps id until first rows h b)
  Between_keeps id until first _ h (completed rows other b) =
      deleted_open rows (has_id other) id until (Between_keeps id until first rows h b)
  Between_keeps id until first _ h (failed rows other max_attempts apart b) =
      fail_open rows other max_attempts id until apart (Between_keeps id until first rows h b)
  Between_keeps id until first _ h (cleared rows queue_id b) =
      deleted_open rows (of_queue queue_id) id until (Between_keeps id until first rows h b)
  Between_keeps id until first _ h (drained rows now queue_id match b) =
      deleted_open rows (is_drained queue_id now match) id until
        (Between_keeps id until first rows h b)

  -- After a lease has answered an entry, and whatever offers of other ids, leases not later than its
  -- expiry, completions, failures of other ids, clears and drains of any queues follow, but no
  -- recovery and no failure of the entry itself, no lease of any queue that is not later than the
  -- expiry hands the same id out again.
  pub take_exclusive :
      (rows between : List (Row P)) (now later : ℕ) (queue_id other : String) (lease next_lease : ℕ)
      (entry again : DurableEntry P)
      → (take rows now queue_id lease).0 ≡ some (some entry)
      → Between entry.id (now + lease) (take rows now queue_id lease).1 between
      → later ≤ now + lease
      → (take between later other next_lease).0 ≡ some (some again)
      → str_eq again.id entry.id ≡ false
  unfolding row_to_entry
  take_exclusive rows between now later queue_id other lease next_lease entry again ok steps before
        ok_again =
      let (r, next, is_entry, after) = take_least rows now queue_id lease entry ok in
      let (r', next', is_again, after') =
        take_least between later other next_lease again ok_again in
      let named : r.id ≡ entry.id = sym (ap (λ e. e.id) is_entry) in
      let away : tally (is_open entry.id (now + lease)) (take rows now queue_id lease).1 ≡ 0 =
        subst (λ i. tally (is_open i (now + lease)) (take rows now queue_id lease).1 ≡ 0) named
          (ap (tally (is_open r.id (now + lease))) after
            ∙ leased_away rows r.id (now + lease) (r.attempts + 1)) in
      subst (λ i. str_eq i entry.id ≡ false) (sym (ap (λ e. e.id) is_again))
        (not_next between entry.id other (now + lease) later r' next' before (
          Between_keeps entry.id (now + lease) (take rows now queue_id lease).1 between away steps))
