-- ===== src/Storage/Build.antt =====
-- The query language of src/Query.ts: `Where`, `OrderBy`, `Limit`, `Offset` and the assignments of an
-- update. A target is its query here; `source` is what the storage operations are called on.
use effect_pm.Prelude.{ℕ, ◌≡◌, refl, ◌&&◌, Option, none, some, List, [], ◌∷◌, ◌++◌, all, ◌∙◌, arith}
use effect_pm.Storage.Record.{RuntimeRecord}
use effect_pm.Storage.Query.{
  Predicate, nil, cons, and_of, Query, OrderBy, OrderField, Direction, desc, matches,
  matches_predicate,
}

unfoldable pub combine : Option Predicate → Predicate → Predicate
combine none right = right
combine (some left) right = and_of (cons left (cons right nil))

-- `predicates.reduce(combine, undefined)`.
unfoldable pub reduce_combine : Option Predicate → List Predicate → Option Predicate
unfolding combine
reduce_combine left [] = left
reduce_combine left (p ∷ ps) = reduce_combine (some (combine left p)) ps

abbrev pub empty_query : Query
empty_query = record { predicate = none; order_by = none; limit = none; offset = none }

unfoldable pub where_all : List Predicate → Query
unfolding reduce_combine
where_all ps = record empty_query { predicate = reduce_combine none ps }

abbrev pub orders_so_far : Option (List OrderBy) → List OrderBy
orders_so_far none = []
orders_so_far (some os) = os

unfoldable pub with_order : Query → OrderBy → Query
with_order q o = record q { order_by = some (orders_so_far q.order_by ++ o ∷ []) }

abbrev pub or_desc : Option Direction → Direction
or_desc none = desc
or_desc (some d) = d

unfoldable pub order_by : OrderField → Option Direction → Query → Query
unfolding with_order
order_by field direction q = with_order q (record { field = field; direction = or_desc direction })

unfoldable pub with_limit : ℕ → Query → Query
with_limit n q = record q { limit = some n }

unfoldable pub with_offset : ℕ → Query → Query
with_offset n q = record q { offset = some n }

module _ {J : Type 0} where
  reduce_combine_lem :
      (r : RuntimeRecord J) (left : Option Predicate) (ps : List Predicate)
      → matches_predicate (reduce_combine left ps) r
        ≡ (matches_predicate left r && all (matches r) ps)
  unfolding reduce_combine matches_predicate matches
  reduce_combine_lem r none [] = refl
  reduce_combine_lem r (some p) [] = ground arith
  reduce_combine_lem r none (q ∷ ps) = reduce_combine_lem r (some q) ps
  reduce_combine_lem r (some p) (q ∷ ps) =
      reduce_combine_lem r (some (and_of (cons p (cons q nil)))) ps ∙ ground arith

  -- A target with several predicates selects the records that match each of them.
  pub where_all_lem :
      (ps : List Predicate) (r : RuntimeRecord J)
      → matches_predicate (where_all ps).predicate r ≡ all (matches r) ps
  unfolding where_all matches_predicate
  where_all_lem ps r = reduce_combine_lem r none ps
