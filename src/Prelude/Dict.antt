-- ===== src/Prelude/Dict.antt =====
-- A `Map` from strings, as a list in the order of insertion: `get` and `set`.
use Prim.Native.String.{String}
use text.Mathlib.Text.{◌==◌ as str_eq}
use text.Mathlib.TextEquality.{eq_iff as str_eq_iff}
use mathlib.Core.Path.{◌≡◌, refl, sym, subst, ◌∙◌}
use native.Mathlib.Omega.{arith}
use mathlib.Core.Bool.{true, false}
use mathlib.Core.Logic.{inl, inr}
use mathlib.Core.Option.{Option, none, some}
use mathlib.Core.List.{List, [], ◌∷◌}
use effect_pm.Prelude.Tests.{if◌then◌else◌, Bool-cases}

abbrev pub Dict : Type 0 → Type 0
Dict V = List (String × V)

str_eq-other : (k i j : String) → ¬ (j ≡ i) → str_eq k i ≡ true → str_eq k j ≡ false
str_eq-other k i j ne e = elim (Bool-cases (str_eq k j)) [
  | inl d ↦ absurd (ne (sym ((str_eq_iff k j).0 d) ∙ (str_eq_iff k i).0 e))
  | inr d ↦ d
]

module _ {V : Type 0} where
  abbrev pub get : String → Dict V → Option V
  get i [] = none
  get i ((k, v) ∷ rest) = if str_eq k i then some v else get i rest

  -- A present key keeps its place, as in JavaScript.
  abbrev pub set : String → V → Dict V → Dict V
  set i v [] = (i, v) ∷ []
  set i v ((k, old) ∷ rest) = if str_eq k i then (k, v) ∷ rest else (k, old) ∷ set i v rest

  -- `o ?? v`.
  abbrev pub or_value : V → Option V → V
  or_value v none = v
  or_value v (some w) = w

  pub get-set : (i : String) (v : V) (d : Dict V) → get i (set i v d) ≡ some v
  get-set i v [] = rw ((str_eq_iff i i).1 refl) refl
  get-set i v ((k, old) ∷ rest) = elim (Bool-cases (str_eq k i)) [
    | inl e ↦ rw e (rw e refl)
    | inr e ↦ rw e (rw e (get-set i v rest))
  ]

  pub get-set_other : (j i : String) (v : V) (d : Dict V) → ¬ (j ≡ i) → get j (set i v d) ≡ get j d
  get-set_other j i v [] ne = elim (Bool-cases (str_eq i j)) [
    | inl e ↦ absurd (ne (sym ((str_eq_iff i j).0 e)))
    | inr e ↦ rw e refl
  ]
  get-set_other j i v ((k, old) ∷ rest) ne = elim (Bool-cases (str_eq k i)) [
    | inl e ↦ let other = str_eq-other k i j ne e in rw (e, other) refl
    | inr e ↦ rw e (elim (Bool-cases (str_eq k j)) [
      | inl d ↦ rw d refl
      | inr d ↦ rw d (get-set_other j i v rest ne)
    ])
  ]

  -- `delete`.
  abbrev pub del : String → Dict V → Dict V
  del i [] = []
  del i ((k, v) ∷ rest) = if str_eq k i then del i rest else (k, v) ∷ del i rest

  pub get-set_if :
      (j i : String) (v : V) (d : Dict V)
      → get j (set i v d) ≡ (if str_eq i j then some v else get j d)
  get-set_if j i v d = elim (Bool-cases (str_eq i j)) [
    | inl e ↦ rw e (subst (λ k. get k (set i v d) ≡ some v) ((str_eq_iff i j).0 e) (get-set i v d))
    | inr e ↦ rw e (get-set_other j i v d (λ q. ground (arith, e, (str_eq_iff i j).1 (sym q))))
  ]

  pub get-del :
      (j i : String) (d : Dict V) → get j (del i d) ≡ (if str_eq i j then none else get j d)
  get-del j i [] = ground arith
  get-del j i ((k, v) ∷ rest) =
      ground (arith, str_eq_iff k i, str_eq_iff k j, str_eq_iff i j, get-del j i rest)
