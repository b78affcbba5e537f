-- ===== src/Queue/Validate/Batch.antt =====
-- What the validation of a batch answers (src/internal/queueResource.ts).
use effect_pm.Prelude.{
  ℕ, ◌+◌, ◌≡◌, refl, ◌∙◌, List, [], ◌∷◌, ◌++◌, String, append-nil, append_assoc, ap, ◌⊎◌, inl, inr,
}
use effect_pm.Queue.Validate.{
  item_validation, batch_validation, Checked, valid, invalid, Decoded, decoded, refused, decode_all,
  batch_result, validate_items_with_schema,
}

Decoded-cases :
    {T : Type 0} (d : Decoded T)
    → ((v : T) × (d ≡ decoded v)) ⊎ ((message : String) × (d ≡ refused message))
Decoded-cases (decoded v) = inl (v, refl)
Decoded-cases (refused message) = inr (message, refl)

module _ {T : Type 0} (decode : T → Decoded T) where
  -- What the items that decode become, and the others with their places in the batch.
  abbrev pub values_of : List T → List T
  values_of [] = []
  values_of (item ∷ items) = elim (decode item) [
    | decoded value ↦ value ∷ values_of items
    | refused message ↦ values_of items
  ]

  abbrev pub failures_from : ℕ → List T → List (ℕ × String)
  failures_from i [] = []
  failures_from i (item ∷ items) =
      let rest = failures_from (i + 1) items in
      elim (decode item) [ decoded value ↦ rest | refused message ↦ (i, message) ∷ rest ]

  decode_all_lem :
      (i : ℕ) (items values : List T) (failures : List (ℕ × String))
      → decode_all decode i items values failures
        ≡ (values ++ values_of items, failures ++ failures_from i items)
  unfolding decode_all
  decode_all_lem i [] values failures = rw (append-nil values, append-nil failures) refl
  decode_all_lem i (item ∷ items) values failures = elim (Decoded-cases (decode item)) [
    | inl (value, e) ↦
        rw (decode_all, values_of, failures_from, e)
          (decode_all_lem (i + 1) items (values ++ value ∷ []) failures
            ∙ ap (λ vs. (vs, failures ++ failures_from (i + 1) items))
                (append_assoc values (value ∷ []) (values_of items)))
    | inr (message, e) ↦
        rw (decode_all, values_of, failures_from, e)
          (decode_all_lem (i + 1) items values (failures ++ (i, message) ∷ [])
            ∙ ap (λ fs. (values ++ values_of items, fs))
                (append_assoc failures ((i, message) ∷ []) (failures_from (i + 1) items)))
  ]

  -- The answer for a batch as a whole: its decoded values in order, if every item decodes, and
  -- else an error, which for a batch of several items lists exactly those that do not decode, each
  -- with its index and message.
  abbrev pub answer : List T → List (ℕ × String) → Checked T
  answer items [] = valid (values_of items)
  answer (item ∷ []) ((i, message) ∷ failures) = invalid (item_validation message)
  answer [] (f ∷ failures) = invalid (batch_validation (f ∷ failures))
  answer (item ∷ item' ∷ items) (f ∷ failures) = invalid (batch_validation (f ∷ failures))

  batch_answer :
      (item item' : T) (items : List T) (failures : List (ℕ × String))
      → batch_result decode (values_of (item ∷ item' ∷ items), failures)
        ≡ answer (item ∷ item' ∷ items) failures
  batch_answer item item' items [] = refl
  batch_answer item item' items (f ∷ failures) = refl

  -- A batch is accepted with its decoded values in order exactly when every item decodes; else
  -- nothing of it is: a single item answers its own error, and a longer batch one error that lists
  -- the index and the message of each item that does not decode.
  pub validate_items_with_schema_lem :
      (items : List T)
      → validate_items_with_schema decode items ≡ answer items (failures_from 0 items)
  unfolding validate_items_with_schema
  validate_items_with_schema_lem [] = refl
  validate_items_with_schema_lem (item ∷ []) = elim (Decoded-cases (decode item)) [
    | inl (value, e) ↦ rw (validate_items_with_schema, failures_from, e) (rw (values_of, e) refl)
    | inr (message, e) ↦ rw (validate_items_with_schema, failures_from, e) refl
  ]
  validate_items_with_schema_lem (item ∷ item' ∷ items) =
      ap (batch_result decode) (decode_all_lem 0 (item ∷ item' ∷ items) [] [])
      ∙ batch_answer item item' items (failures_from 0 (item ∷ item' ∷ items))
