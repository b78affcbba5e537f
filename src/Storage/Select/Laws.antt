-- ===== src/Storage/Select/Laws.antt =====
-- What a read answers: `selectRuntimeRecords` of src/RuntimeStorage.ts against filter, order and
-- window.
use Prim.Native.Nat.{compare, Ordering}
use effect_pm.Prelude.{
  ℕ, ◌≤◌, ◌≡◌, refl, Bool, true, ◌&&◌, none, List, [], ◌∷◌, filter, length, length-filter, tally,
  tally-sort, tally-true, sort, IsSorted, IsOrder, sort-IsSorted, arith, ap, ◌∙◌,
}
use effect_pm.Storage.Record.{RuntimeRecord, date_field_value, field_value}
use effect_pm.Storage.Query.{
  Query, OrderBy, OrderField, date_field, value_field, Direction, asc, desc, matches_predicate,
}
use effect_pm.Storage.Select.{
  Collation, shown, flip, directed, is_le, or_next, orders_of, compare_by, compare_all, goes_before,
  ordered, apply_window, select,
}
use effect_pm.Storage.Select.Windows.{
  windowed, window-IsSorted, length-window, tally-filter, tally-window-le,
}

-- A comparison that turns with its arguments and whose `≤` is transitive.
pub record IsComparison {ℓ} {A : Type ℓ} (c : A → A → Ordering) : Type ℓ where
  pub turned : (x y : A) → c y x ≡ flip (c x y)
  pub trans : (x y z : A) → is_le (c x y) ≡ true → is_le (c y z) ≡ true → is_le (c x z) ≡ true

pub compare_turned : (m n : ℕ) → compare n m ≡ flip (compare m n)
compare_turned m n = ground arith

pub compare_trans :
    (l m n : ℕ)
    → is_le (compare l m) ≡ true
    → is_le (compare m n) ≡ true
    → is_le (compare l n) ≡ true
compare_trans l m n h k = ground arith

module _ {A : Type 0} where
  directed-IsComparison :
      (d : Direction) (c : A → A → Ordering)
      → IsComparison c
      → IsComparison (λ x y. directed d (c x y))
  directed-IsComparison asc c l = l
  directed-IsComparison desc c l = record {
    turned = λ x y. ground (arith, l.turned x y);
    trans = λ x y z h k. ground (arith, l.turned x y, l.turned y z, l.turned x z, l.trans z y x);
  }

  or_next-IsComparison :
      (c d : A → A → Ordering)
      → IsComparison c
      → IsComparison d
      → IsComparison (λ x y. or_next (c x y) (d x y))
  or_next-IsComparison c d l m = record {
    turned = λ x y. ground (arith, l.turned x y, m.turned x y);
    trans = λ x y z h k. ground (
      arith,
      l.turned x y,
      l.turned y z,
      l.turned x z,
      l.trans x y z,
      l.trans z x y,
      l.trans y z x,
      m.trans x y z,
    );
  }

module _ {J : Type 0} (collate : Collation) (lawful : IsComparison collate) where
  compare_by-IsComparison : (f : OrderField) → IsComparison (compare_by {J = J} collate f)
  unfolding compare_by
  compare_by-IsComparison (date_field f) = record {
    turned = λ x y. compare_turned (date_field_value x f) (date_field_value y f);
    trans =
        λ x y z. compare_trans (date_field_value x f) (date_field_value y f) (date_field_value z f);
  }
  compare_by-IsComparison (value_field f) = record {
    turned = λ x y. lawful.turned (shown (field_value x f)) (shown (field_value y f));
    trans = λ x y z.
        lawful.trans (shown (field_value x f)) (shown (field_value y f)) (shown (field_value z f));
  }

  compare_all-IsComparison : (os : List OrderBy) → IsComparison (compare_all {J = J} collate os)
  unfolding compare_all
  compare_all-IsComparison [] = record { turned = λ x y. refl; trans = λ x y z h k. refl }
  compare_all-IsComparison (o ∷ os) =
      or_next-IsComparison _ _
        (directed-IsComparison o.direction (compare_by collate o.field)
          (compare_by-IsComparison o.field))
        (compare_all-IsComparison os)

  pub goes_before-IsOrder : (os : List OrderBy) → IsOrder (goes_before {J = J} collate os)
  goes_before-IsOrder os =
      let c = compare_all-IsComparison os in
      record { total = λ x y h. ground (arith, c.turned x y); trans = λ x y z. c.trans x y z }

module _ {J : Type 0} (collate : Collation) (lawful : IsComparison collate) (q : Query) where
  -- A read answers matching records of the storage, each as often as it stands there at most, in
  -- the order of the query, and as many as its limit and offset leave of those that match.
  pub select_lem :
      (rows : List (RuntimeRecord J))
      → IsSorted (goes_before collate (orders_of q.order_by)) (select collate q rows)
        × (length (select collate q rows)
            ≡ windowed q.limit q.offset (tally (matches_predicate q.predicate) rows))
        × ((p : RuntimeRecord J → Bool)
            → tally p (select collate q rows)
              ≤ tally (λ r. matches_predicate q.predicate r && p r) rows)
  unfolding select ordered apply_window
  select_lem rows =
      let le = goes_before {J = J} collate (orders_of q.order_by) in
      let kept = filter (matches_predicate q.predicate) rows in
      (
        window-IsSorted le q.limit q.offset (sort le kept)
            (sort-IsSorted le (goes_before-IsOrder collate lawful (orders_of q.order_by)) kept),
        omega (
          arith,
          length-window q.limit q.offset (sort le kept),
          ap (windowed q.limit q.offset) (length_kept rows),
        ),
        λ p. omega (
          arith,
          tally-window-le p q.limit q.offset (sort le kept),
          tally-sort le p kept,
          tally-filter p (matches_predicate q.predicate) rows,
        ),
      )
    where
      length_kept :
          (rows : List (RuntimeRecord J))
          → length (
              sort
                (goes_before collate (orders_of q.order_by))
                (filter (matches_predicate q.predicate) rows))
            ≡ tally (matches_predicate q.predicate) rows
      length_kept rows = omega (
        arith,
        tally-true (
            sort (goes_before collate (orders_of q.order_by))
              (filter (matches_predicate q.predicate) rows)),
        tally-true (filter (matches_predicate q.predicate) rows),
        tally-sort (goes_before collate (orders_of q.order_by)) (λ r. true)
            (filter (matches_predicate q.predicate) rows),
        length-filter (matches_predicate q.predicate) rows,
      )

  -- Without limit and offset, a read answers every matching record, exactly as often as it stands.
  pub select_complete :
      q.limit ≡ none
      → q.offset ≡ none
      → (p : RuntimeRecord J → Bool) (rows : List (RuntimeRecord J))
      → tally p (select collate q rows) ≡ tally (λ r. matches_predicate q.predicate r && p r) rows
  unfolding select ordered apply_window
  select_complete all_of from_first p rows =
      rw (all_of, from_first)
        (tally-sort (goes_before collate (orders_of q.order_by)) p
            (filter (matches_predicate q.predicate) rows)
          ∙ tally-filter p (matches_predicate q.predicate) rows)
