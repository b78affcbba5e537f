-- ===== src/Storage/Memory/Rows.antt =====
-- The records of src/RuntimeStorage.ts's in-memory adapter as a map from ids.
use effect_pm.Prelude.{
  All-filter, ◌≤◌, ◌≡◌, max, refl, Bool, true, none, some, List, [], ◌∷◌, String, str_eq,
  str_eq_iff, filter, All, tally, sort, All-sort, tally-sort, if◌then◌else◌, arith, Bool-cases, inl,
  inr,
}
use effect_pm.Storage.Record.{RuntimeRecord}
use effect_pm.Storage.Query.{Query, matches_predicate}
use effect_pm.Storage.Select.{Collation, select, ordered, apply_window, goes_before, orders_of}
use effect_pm.Storage.Select.Windows.{tally-filter-le, tally-window-le, All-window}
use effect_pm.Storage.Memory.{has_id, get, set_row, remove_row}

pub str_eq_refl : (s : String) → str_eq s s ≡ true
str_eq_refl s = (str_eq_iff s s).1 refl

module _ {J : Type 0} where
  -- No id stands twice.
  abbrev pub IsKeyed : List (RuntimeRecord J) → Type 0
  IsKeyed rows = (j : String) → tally (has_id j) rows ≤ 1

  pub get_absent :
      (j : String) (rows : List (RuntimeRecord J)) → tally (has_id j) rows ≡ 0 → get j rows ≡ none
  get_absent j [] h = refl
  get_absent j (r ∷ rows) h = ground (arith, get_absent j rows)

  pub get-set_row :
      (r : RuntimeRecord J) (j : String) (rows : List (RuntimeRecord J))
      → get j (set_row r rows) ≡ (if str_eq r.id j then some r else get j rows)
  unfolding set_row
  get-set_row r j [] = refl
  get-set_row r j (s ∷ rows) =
      ground
        (arith, str_eq_iff s.id r.id, str_eq_iff s.id j, str_eq_iff r.id j, get-set_row r j rows)

  pub get-remove_row :
      (id j : String) (rows : List (RuntimeRecord J))
      → get j (remove_row id rows) ≡ (if str_eq id j then none else get j rows)
  get-remove_row id j [] = ground arith
  get-remove_row id j (s ∷ rows) =
      ground
        (arith, str_eq_iff s.id id, str_eq_iff s.id j, str_eq_iff id j, get-remove_row id j rows)

  tally-set_row :
      (r : RuntimeRecord J) (j : String) (rows : List (RuntimeRecord J))
      → tally (has_id j) (set_row r rows)
        ≡ (if str_eq r.id j then max 1 (tally (has_id j) rows) else tally (has_id j) rows)
  unfolding set_row
  tally-set_row r j [] = ground arith
  tally-set_row r j (s ∷ rows) =
      ground
        (arith, str_eq_iff s.id r.id, str_eq_iff s.id j, str_eq_iff r.id j, tally-set_row r j rows)

  pub set_row-IsKeyed :
      (r : RuntimeRecord J) (rows : List (RuntimeRecord J))
      → IsKeyed rows
      → IsKeyed (set_row r rows)
  set_row-IsKeyed r rows k j = ground (arith, tally-set_row r j rows, k j)

  module _ (collate : Collation) (q : Query) where
    pub tally-select-le :
        (p : RuntimeRecord J → Bool) (rows : List (RuntimeRecord J))
        → tally p (select collate q rows) ≤ tally p rows
    unfolding select ordered apply_window
    tally-select-le p rows =
        let kept = filter (matches_predicate q.predicate) rows in
        let sorted = sort (goes_before collate (orders_of q.order_by)) kept in
        omega (
          arith,
          tally-window-le p q.limit q.offset sorted,
          tally-sort (goes_before collate (orders_of q.order_by)) p kept,
          tally-filter-le p (matches_predicate q.predicate) rows,
        )

    pub All-select {κ} :
        (P : RuntimeRecord J → Type κ) (rows : List (RuntimeRecord J))
        → All P rows
        → All P (select collate q rows)
    unfolding select ordered apply_window
    All-select P rows h = All-window P q.limit q.offset _ (
        All-sort (goes_before collate (orders_of q.order_by)) P _
          (All-filter P (matches_predicate q.predicate) rows h))

    pub select-IsKeyed :
        (rows : List (RuntimeRecord J)) → IsKeyed rows → IsKeyed (select collate q rows)
    select-IsKeyed rows k j = omega (arith, k j, tally-select-le (has_id j) rows)

  -- Every record stands under its id.
  abbrev pub AreStored : List (RuntimeRecord J) → List (RuntimeRecord J) → Type 0
  AreStored selected rows = All (λ r. get r.id rows ≡ some r) selected

  stored_apart :
      (s : RuntimeRecord J) (rows selected : List (RuntimeRecord J))
      → tally (has_id s.id) selected ≡ 0
      → AreStored selected rows
      → AreStored selected (s ∷ rows)
  stored_apart s rows [] apart h = tt
  stored_apart s rows (r ∷ selected) apart h = (
    ground (arith, str_eq_iff s.id r.id, str_eq_iff r.id s.id, h.0),
    stored_apart s rows selected (ground arith) h.1,
  )

  pub keyed_stored : (rows : List (RuntimeRecord J)) → IsKeyed rows → AreStored rows rows
  keyed_stored [] k = tt
  keyed_stored (s ∷ rows) k = (
    rw (str_eq_refl s.id),
    stored_apart s rows rows (ground (arith, k s.id, str_eq_refl s.id))
        (keyed_stored rows (λ j. omega (arith, k j))),
  )

  -- A record that is found in a selection is the one that the rows hold.
  pub get_stored :
      (j : String) (r : RuntimeRecord J) (selected rows : List (RuntimeRecord J))
      → AreStored selected rows
      → get j selected ≡ some r
      → get j rows ≡ some r
  get_stored j r [] rows h e = cc
  get_stored j r (s ∷ selected) rows h e = elim (Bool-cases (str_eq s.id j)) [
    | inl same ↦
        let this : some s ≡ some r = rw same at e in
        ground (arith, this, h.0, (str_eq_iff s.id j).0 same)
    | inr other ↦ get_stored j r selected rows h.1 (rw other at e)
  ]
