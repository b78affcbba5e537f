-- ===== src/History/Windows.antt =====
-- The last elements of a list, as src/HistoryStore.ts takes them, and the first ones of the opposite
-- order, as src/storage/sqlite/historyStore.ts does.
use effect_pm.Prelude.{
  length-map, ℕ, zero, suc, ◌-◌, ◌≡◌, refl, sym, ap, ◌∙◌, Bool, List, [], ◌∷◌, ◌++◌, ltb, leb,
  length, filter, All, take, drop, map, All-append, map-append, if◌then◌else◌, arith, Bool-cases,
  inl, inr, length-append,
}
use effect_pm.History.{last_of}
use effect_pm.History.Sqlite.{reversed}

module _ {A : Type 0} where
  length-reversed : (xs : List A) → length (reversed xs) ≡ length xs
  length-reversed [] = refl
  length-reversed (x ∷ xs) = omega (arith, length-append (reversed xs) (x ∷ []), length-reversed xs)

  reversed-append : (xs : List A) (x : A) → reversed (xs ++ x ∷ []) ≡ x ∷ reversed xs
  reversed-append [] x = refl
  reversed-append (y ∷ ys) x = ap (λ zs. zs ++ y ∷ []) (reversed-append ys x)

  pub reversed_twice : (xs : List A) → reversed (reversed xs) ≡ xs
  reversed_twice [] = refl
  reversed_twice (x ∷ xs) = reversed-append (reversed xs) x ∙ ap (λ ys. x ∷ ys) (reversed_twice xs)

  take-append :
      (n : ℕ) (xs : List A) (x : A)
      → take n (xs ++ x ∷ []) ≡ (if leb n (length xs) then take n xs else xs ++ x ∷ [])
  take-append zero xs x = ground arith
  take-append (suc zero) [] x = refl
  take-append (suc (suc n)) [] x = ground arith
  take-append (suc n) (y ∷ ys) x = ground (arith, take-append n ys x)

  last_of-drop : (n : ℕ) (xs : List A) → last_of n xs ≡ drop (length xs - n) xs
  last_of-drop n xs = elim (Bool-cases (ltb n (length xs))) [
    | inl e ↦ rw e refl
    | inr e ↦ let zero_left : length xs - n ≡ 0 = ground arith in rw (e, zero_left) refl
  ]

  pub last_of-cons :
      (n : ℕ) (x : A) (xs : List A)
      → last_of n (x ∷ xs) ≡ (if leb n (length xs) then last_of n xs else x ∷ xs)
  last_of-cons n x xs = elim (Bool-cases (leb n (length xs))) [
    | inl e ↦
        let one_more : suc (length xs) - n ≡ suc (length xs - n) = ground arith in
        rw e
          (last_of-drop n (x ∷ xs) ∙ ap (λ k. drop k (x ∷ xs)) one_more ∙ sym (last_of-drop n xs))
    | inr e ↦
        let zero_left : suc (length xs) - n ≡ 0 = ground arith in
        rw e (last_of-drop n (x ∷ xs) ∙ ap (λ k. drop k (x ∷ xs)) zero_left)
  ]

  -- The first ones in the opposite order are the last ones.
  pub take-reversed : (n : ℕ) (xs : List A) → take n (reversed xs) ≡ reversed (last_of n xs)
  take-reversed zero [] = ground arith
  take-reversed (suc n) [] = ground arith
  take-reversed n (x ∷ xs) =
      take-append n (reversed xs) x
      ∙ rw (length-reversed xs, last_of-cons n x xs)
          (elim (Bool-cases (leb n (length xs))) [
            | inl e ↦ rw e (take-reversed n xs)
            | inr e ↦ rw e refl
          ])

  pub All-reversed {κ} : (P : A → Type κ) (xs : List A) → All P xs → All P (reversed xs)
  All-reversed P [] h = tt
  All-reversed P (x ∷ xs) h = All-append P (reversed xs) (x ∷ []) (All-reversed P xs h.1) (h.0, tt)

  pub All-last_of {κ} : (P : A → Type κ) (n : ℕ) (xs : List A) → All P xs → All P (last_of n xs)
  All-last_of P n [] h = ground arith
  All-last_of P n (x ∷ xs) h = rw (last_of-cons n x xs) (elim (Bool-cases (leb n (length xs))) [
    | inl e ↦ rw e (All-last_of P n xs h.1)
    | inr e ↦ rw e h
  ])

module _ {A B : Type 0} (f : A → B) where
  pub reversed-map : (xs : List A) → reversed (map f xs) ≡ map f (reversed xs)
  reversed-map [] = refl
  reversed-map (x ∷ xs) =
      ap (λ ys. ys ++ f x ∷ []) (reversed-map xs) ∙ sym (map-append f (reversed xs) (x ∷ []))

  drop-map : (n : ℕ) (xs : List A) → drop n (map f xs) ≡ map f (drop n xs)
  drop-map zero xs = refl
  drop-map (suc n) [] = refl
  drop-map (suc n) (x ∷ xs) = drop-map n xs

  pub last_of-map : (n : ℕ) (xs : List A) → last_of n (map f xs) ≡ map f (last_of n xs)
  last_of-map n xs =
      last_of-drop n (map f xs)
      ∙ rw (length-map f xs, last_of-drop n xs) (drop-map (length xs - n) xs)

  pub filter-map :
      (p : B → Bool) (xs : List A) → filter p (map f xs) ≡ map f (filter (λ x. p (f x)) xs)
  filter-map p [] = refl
  filter-map p (x ∷ xs) = elim (Bool-cases (p (f x))) [
    | inl e ↦ rw e (ap (λ ys. f x ∷ ys) (filter-map p xs))
    | inr e ↦ rw e (filter-map p xs)
  ]
