-- ===== src/Storage/Sqlite/Ties.antt =====
-- How what src/storage/sqlite/service.ts selects may differ from what src/RuntimeStorage.ts does: by the
-- order among records that tie, which in memory is the order of insertion, and by how texts are compared.
use Prim.Native.String.{compare as compare_text}
use effect_pm.Prelude.{
  ◌≡◌, refl, sym, ap, ◌∙◌, List, [], ◌∷◌, String, All, All-filter, filter, arith,
}
use effect_pm.Prelude.Pairs.{Pairs, Pairs-sort}
use effect_pm.Prelude.Reorder.{Reorders, nothing, keep, swap, via, tally-Reorders}
use effect_pm.Storage.Record.{RuntimeRecord}
use effect_pm.Storage.Query.{Query, OrderBy, matches_predicate}
use effect_pm.Storage.Select.{Collation, select, ordered, apply_window, goes_before, orders_of}
use effect_pm.Storage.Memory.{has_id, get}
use effect_pm.Storage.Memory.Rows.{IsKeyed}

module _ {J : Type 0} where
  pub IsKeyed-Reorders :
      {rows rows' : List (RuntimeRecord J)} → Reorders rows rows' → IsKeyed rows → IsKeyed rows'
  IsKeyed-Reorders r k j = ground (arith, tally-Reorders (has_id j) r, k j)

  pub get-Reorders :
      {rows rows' : List (RuntimeRecord J)}
      → Reorders rows rows'
      → IsKeyed rows
      → (j : String) → get j rows ≡ get j rows'
  get-Reorders nothing k j = refl
  get-Reorders (keep x r) k j = ground (arith, get-Reorders r (λ i. ground (arith, k i)) j)
  get-Reorders (swap x y xs) k j = ground (arith, k j)
  get-Reorders (via r s) k j = get-Reorders r k j ∙ get-Reorders s (IsKeyed-Reorders r k) j

  -- On records with `D` the collation orders as the code points of the texts do.
  abbrev pub OrdersAlike : Collation → List OrderBy → (RuntimeRecord J → Type 0) → Type 0
  OrdersAlike collate os D =
      (a b : RuntimeRecord J)
      → D a
      → D b
      → goes_before collate os a b ≡ goes_before compare_text os a b

  module _ (collate : Collation) (q : Query) (D : RuntimeRecord J → Type 0)
      (alike : OrdersAlike collate (orders_of q.order_by) D) where
    abbrev Same : RuntimeRecord J → RuntimeRecord J → Type 0
    Same a b = D a × (a ≡ b)

    Same-refl : (rows : List (RuntimeRecord J)) → All D rows → Pairs Same rows rows
    Same-refl [] h = tt
    Same-refl (r ∷ rows) h = ((h.0, refl), Same-refl rows h.1)

    Same-eq : (rows rows' : List (RuntimeRecord J)) → Pairs Same rows rows' → rows ≡ rows'
    Same-eq [] [] h = refl
    Same-eq [] (r ∷ rows) h = absurd h
    Same-eq (r ∷ rows) [] h = absurd h
    Same-eq (r ∷ rows) (r' ∷ rows') h = cc (h.0.1, Same-eq rows rows' h.1)

    pub select-alike :
        (rows : List (RuntimeRecord J))
        → All D rows
        → select compare_text q rows ≡ select collate q rows
    unfolding select ordered
    select-alike rows h =
        let found = filter (matches_predicate q.predicate) rows in
        ap (apply_window q) (
          sym (
            Same-eq _ _ (
              Pairs-sort Same (goes_before collate (orders_of q.order_by))
                (goes_before compare_text (orders_of q.order_by))
                (λ a b a' b' ha hb.
                  ap (λ w. goes_before compare_text (orders_of q.order_by) w b') (sym ha.1)
                  ∙ ap (goes_before compare_text (orders_of q.order_by) a) (sym hb.1)
                  ∙ sym (alike a b ha.0 hb.0))
                found found
                (Same-refl found (All-filter D (matches_predicate q.predicate) rows h)))))
