-- ===== src/Prelude/Reorder.antt =====
-- Lists with the same elements in another order, by swaps of neighbours.
use mathlib.Core.Path.{◌≡◌, refl, ◌∙◌}
use mathlib.Core.Bool.{Bool}
use mathlib.Core.List.{List, [], ◌∷◌}
use native.Mathlib.Omega.{arith}
use effect_pm.Prelude.Lists.{All}
use effect_pm.Prelude.Tally.{tally}
use effect_pm.Prelude.Pairs.{Pairs}

pub data Reorders {A : Type 0} : List A → List A → Type 0 where
  nothing : Reorders [] []
  keep : (x : A) {xs ys : List A} → Reorders xs ys → Reorders (x ∷ xs) (x ∷ ys)
  swap : (x y : A) (xs : List A) → Reorders (x ∷ y ∷ xs) (y ∷ x ∷ xs)
  via : {xs ys zs : List A} → Reorders xs ys → Reorders ys zs → Reorders xs zs

pub same_order : {A : Type 0} (xs : List A) → Reorders xs xs
same_order [] = nothing
same_order (x ∷ xs) = keep x (same_order xs)

module _ {A : Type 0} where
  pub All-Reorders : (P : A → Type 0) {xs ys : List A} → Reorders xs ys → All P xs → All P ys
  All-Reorders P nothing h = h
  All-Reorders P (keep x r) h = (h.0, All-Reorders P r h.1)
  All-Reorders P (swap x y xs) h = (h.1.0, (h.0, h.1.1))
  All-Reorders P (via r s) h = All-Reorders P s (All-Reorders P r h)

  pub tally-Reorders : (p : A → Bool) {xs ys : List A} → Reorders xs ys → tally p xs ≡ tally p ys
  tally-Reorders p nothing = refl
  tally-Reorders p (keep x r) = omega (arith, tally-Reorders p r)
  tally-Reorders p (swap x y xs) = omega arith
  tally-Reorders p (via r s) = tally-Reorders p r ∙ tally-Reorders p s

-- What stands beside the elements is reordered with them.
pub Pairs-Reorders :
    {A B : Type 0} (R : A → B → Type 0) (xs : List A) {ys ys' : List B}
    → Reorders ys ys'
    → Pairs R xs ys
    → (xs' : List A) × Reorders xs xs' × Pairs R xs' ys'
Pairs-Reorders R [] nothing h = ([], nothing, h)
Pairs-Reorders R (x ∷ xs) nothing h = absurd h
Pairs-Reorders R [] (keep y r) h = absurd h
Pairs-Reorders R (x ∷ xs) (keep y r) h =
    let (xs', s, p) = Pairs-Reorders R xs r h.1 in (x ∷ xs', keep x s, (h.0, p))
Pairs-Reorders R [] (swap y z ys) h = absurd h
Pairs-Reorders R (x ∷ []) (swap y z ys) h = absurd h.1
Pairs-Reorders R (x ∷ w ∷ xs) (swap y z ys) h = (w ∷ x ∷ xs, swap x w xs, (h.1.0, (h.0, h.1.1)))
Pairs-Reorders R xs (via r s) h =
    let (xs', r', h') = Pairs-Reorders R xs r h in
    let (xs'', s', h'') = Pairs-Reorders R xs' s h' in (xs'', via r' s', h'')
