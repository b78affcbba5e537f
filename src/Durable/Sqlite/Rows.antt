-- ===== src/Durable/Sqlite/Rows.antt =====
-- Counting rows under the statements of the durable queue.
use effect_pm.Prelude.{
  ◌≤◌, ◌≡◌, refl, Bool, true, false, ◌&&◌, none, some, List, [], ◌∷◌, filter, any, find, tally, All,
  All-map, subst, Bool-cases, inl, inr, arith,
}
use effect_pm.Durable.Sqlite.{Row, update_where}

module _ {A : Type 0} where
  pub find-none : (p : A → Bool) (xs : List A) → find p xs ≡ none → tally p xs ≡ 0
  find-none p [] h = refl
  find-none p (x ∷ xs) h = ground (arith, find-none p xs)

  pub find-some :
      (p : A → Bool) (xs : List A) (a : A) → find p xs ≡ some a → (p a ≡ true) × (1 ≤ tally p xs)
  find-some p [] a h = cc
  find-some p (x ∷ xs) a h = ground (arith, find-some p xs a)

  pub find_All {κ} :
      (p : A → Bool) (P : A → Type κ) (xs : List A) (a : A) → find p xs ≡ some a → All P xs → P a
  find_All p P [] a h f = cc
  find_All p P (x ∷ xs) a h f = elim (Bool-cases (p x)) [
    | inl e ↦ let same : x ≡ a = ground arith in rw (← same) f.0
    | inr e ↦ find_All p P xs a (ground arith) f.1
  ]

  pub any-false : (p : A → Bool) (xs : List A) → any p xs ≡ false → tally p xs ≡ 0
  any-false p [] h = refl
  any-false p (x ∷ xs) h = ground (arith, any-false p xs)

  pub tally_of_filter :
      (p q : A → Bool) (xs : List A) → tally p (filter q xs) ≡ tally (λ x. q x && p x) xs
  tally_of_filter p q [] = refl
  tally_of_filter p q (x ∷ xs) = ground (arith, tally_of_filter p q xs)

  pub tally-filter-le : (p q : A → Bool) (xs : List A) → tally p (filter q xs) ≤ tally p xs
  tally-filter-le p q [] = omega arith
  tally-filter-le p q (x ∷ xs) = ground (arith, tally-filter-le p q xs)

  pub filter-All : (q : A → Bool) (xs : List A) → All (λ x. q x ≡ true) (filter q xs)
  filter-All q [] = tt
  filter-All q (x ∷ xs) = elim (Bool-cases (q x)) [
    | inl e ↦ rw e (e, filter-All q xs)
    | inr e ↦ rw e (filter-All q xs)
  ]

  pub All-filter {κ} :
      (P : A → Type κ) (q : A → Bool) (xs : List A) → All P xs → All P (filter q xs)
  All-filter P q [] h = tt
  All-filter P q (x ∷ xs) h = elim (Bool-cases (q x)) [
    | inl e ↦ rw e (h.0, All-filter P q xs h.1)
    | inr e ↦ rw e (All-filter P q xs h.1)
  ]

module _ {P : Type 0} where
  -- An update that turns no row into a counted one.
  pub tally-update_where-le :
      (p w : Row P → Bool) (f : Row P → Row P) (rows : List (Row P))
      → ((r : Row P) → p (f r) ≡ true → p r ≡ true)
      → tally p (update_where w f rows) ≤ tally p rows
  tally-update_where-le p w f [] h = omega arith
  tally-update_where-le p w f (r ∷ rs) h = ground (arith, h r, tally-update_where-le p w f rs h)

  -- An update that leaves the test as it was.
  pub tally-update_where :
      (p w : Row P → Bool) (f : Row P → Row P) (rows : List (Row P))
      → ((r : Row P) → p (f r) ≡ p r)
      → tally p (update_where w f rows) ≡ tally p rows
  tally-update_where p w f [] h = refl
  tally-update_where p w f (r ∷ rs) h = ground (arith, h r, tally-update_where p w f rs h)

  pub All-update_where {κ} :
      (Q : Row P → Type κ) (w : Row P → Bool) (f : Row P → Row P) (rows : List (Row P))
      → ((r : Row P) → w r ≡ true → Q r → Q (f r))
      → All Q rows
      → All Q (update_where w f rows)
  All-update_where Q w f [] h a = tt
  All-update_where Q w f (r ∷ rs) h a = elim (Bool-cases (w r)) [
    | inl e ↦ rw e (h r e a.0, All-update_where Q w f rs h a.1)
    | inr e ↦ rw e (a.0, All-update_where Q w f rs h a.1)
  ]

  -- What an update establishes of the rows that it changes.
  pub update_where-All {κ} :
      (Q : Row P → Type κ) (w : Row P → Bool) (f : Row P → Row P) (rows : List (Row P))
      → ((r : Row P) → w r ≡ true → Q (f r))
      → ((r : Row P) → w r ≡ false → Q r)
      → All Q (update_where w f rows)
  update_where-All Q w f [] hit miss = tt
  update_where-All Q w f (r ∷ rs) hit miss = elim (Bool-cases (w r)) [
    | inl e ↦ rw e (hit r e, update_where-All Q w f rs hit miss)
    | inr e ↦ rw e (miss r e, update_where-All Q w f rs hit miss)
  ]

  -- An update that carries one predicate of the rows to another.
  pub All-update {κ} :
      (Q R : Row P → Type κ) (w : Row P → Bool) (f : Row P → Row P) (rows : List (Row P))
      → ((r : Row P) → w r ≡ true → Q r → R (f r))
      → ((r : Row P) → w r ≡ false → Q r → R r)
      → All Q rows
      → All R (update_where w f rows)
  All-update Q R w f [] hit miss a = tt
  All-update Q R w f (r ∷ rs) hit miss a = elim (Bool-cases (w r)) [
    | inl e ↦ rw e (hit r e a.0, All-update Q R w f rs hit miss a.1)
    | inr e ↦ rw e (miss r e a.0, All-update Q R w f rs hit miss a.1)
  ]

module _ {A : Type 0} where
  pub tally-All : (p : A → Bool) (xs : List A) → tally p xs ≡ 0 → All (λ x. p x ≡ false) xs
  tally-All p [] h = tt
  tally-All p (x ∷ xs) h = (ground arith, tally-All p xs (ground arith))

  -- What holds of the only element that passes the test.
  pub find_only {κ} :
      (p : A → Bool) (Q : A → Type κ) (xs : List A) (a : A)
      → find p xs ≡ some a
      → tally p xs ≤ 1
      → Q a
      → All (λ x. p x ≡ true → Q x) xs
  find_only p Q [] a found one q = tt
  find_only p Q (x ∷ xs) a found one q = elim (Bool-cases (p x)) [
    | inl e ↦
        let same : a ≡ x = ground arith in
        (
          λ _. subst Q same q,
          All-map (λ y. p y ≡ false) (λ y. p y ≡ true → Q y) xs (λ y n t. ground arith)
              (tally-All p xs (ground arith)),
        )
    | inr e ↦ (λ t. ground arith, find_only p Q xs a (ground arith) (ground arith) q)
  ]
