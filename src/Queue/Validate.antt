-- ===== src/Queue/Validate.antt =====
-- `validateItemsWithSchema` of src/internal/queueResource.ts: a batch is validated as a whole.
pub mod Batch
use effect_pm.Prelude.{
  ℕ, suc, ◌+◌, ◌≡◌, refl, Bool, true, false, Option, none, some, List, [], ◌∷◌, ◌++◌, String,
}

-- The index of each item that does not decode, with the decoder's message.
pub data EnqueueError : Type 0 where
  item_validation : String → EnqueueError
  batch_validation : List (ℕ × String) → EnqueueError

pub data Checked (T : Type 0) : Type 0 where
  valid : List T → Checked T
  invalid : EnqueueError → Checked T

-- What `Schema.decodeUnknownExit` answers.
pub data Decoded (T : Type 0) : Type 0 where
  decoded : T → Decoded T
  refused : String → Decoded T

module _ {T : Type 0} (decode : T → Decoded T) where
  -- The loop over the batch from index `i`, with what it has pushed so far.
  unfoldable pub decode_all : ℕ → List T → List T → List (ℕ × String) → List T × List (ℕ × String)
  decode_all i [] values failures = (values, failures)
  decode_all i (item ∷ items) values failures =
      let (values', failures') = elim (decode item) as (λ _. List T × List (ℕ × String)) [
        | decoded value ↦ (values ++ value ∷ [], failures)
        | refused message ↦ (values, failures ++ (i, message) ∷ [])
      ] in
      decode_all (i + 1) items values' failures'

  abbrev pub batch_result : List T × List (ℕ × String) → Checked T
  batch_result (values, []) = valid values
  batch_result (values, f ∷ failures) = invalid (batch_validation (f ∷ failures))

  unfoldable pub validate_items_with_schema : List T → Checked T
  unfolding decode_all
  validate_items_with_schema (item ∷ []) = elim (decode item) [
    | decoded value ↦ valid (value ∷ [])
    | refused message ↦ invalid (item_validation message)
  ]
  validate_items_with_schema [] = batch_result (decode_all 0 [] [] [])
  validate_items_with_schema (item ∷ item' ∷ items) =
      batch_result (decode_all 0 (item ∷ item' ∷ items) [] [])
