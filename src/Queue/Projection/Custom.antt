-- ===== src/Queue/Projection/Custom.antt =====
-- `buildCustomQueueProjection` of src/internal/queueProjection.ts: the sizes of a custom queue's
-- levels under their names. `show` is JavaScript's `String` on a number. An object is the list of
-- its entries, and its order is not looked at.
use effect_pm.Prelude.{
  ℕ, zero, suc, ◌+◌, ◌≡◌, refl, Bool, false, List, [], ◌∷◌, String, str_eq, ℤ, pos, negsuc, ltb,
  sum, get_elem?, take, drop, any, All, length, map, if◌then◌else◌, arith, ap, ◌∙◌,
}
use effect_pm.Lanes.Levels.{level_count_of}
use effect_pm.Queue.Types.{Phase}
use effect_pm.Queue.Projection.{size_or_zero, is_empty_levels}

-- `labels[level] = name` at an index of the array.
abbrev set_label : List String → ℕ → String → List String
set_label [] level name = []
set_label (l ∷ ls) zero name = name ∷ ls
set_label (l ∷ ls) (suc level) name = l ∷ set_label ls level name

abbrev index_labels : (ℕ → String) → ℕ → ℕ → List String
index_labels show i zero = []
index_labels show i (suc n) = show i ∷ index_labels show (i + 1) n

-- A level out of range names nothing.
abbrev name_levels : List (String × ℤ) → List String → List String
name_levels [] labels = labels
name_levels ((name, pos level) ∷ rest) labels = name_levels rest (set_label labels level name)
name_levels ((name, negsuc level) ∷ rest) labels = name_levels rest labels

unfoldable pub build_level_index_labels : (ℕ → String) → ℕ → List (String × ℤ) → List String
build_level_index_labels show level_count named =
    name_levels named (index_labels show 0 level_count)

-- `out[label] = count`.
abbrev pub assign : String → ℕ → List (String × ℕ) → List (String × ℕ)
assign k n [] = (k, n) ∷ []
assign k n ((j, m) ∷ rest) = if str_eq j k then (j, n) ∷ rest else (j, m) ∷ assign k n rest

-- The loop over the levels, which has one label for each.
abbrev project_levels : List String → List ℕ → List (String × ℕ) → List (String × ℕ)
project_levels [] levels out = out
project_levels (label ∷ labels) levels out =
    let count = size_or_zero (get_elem? levels 0) in
    project_levels labels (drop 1 levels) (if ltb 0 count then assign label count out else out)

unfoldable pub custom_sizes : (ℕ → String) → ℕ → List (String × ℤ) → List ℕ → List (String × ℕ)
unfolding build_level_index_labels level_count_of
custom_sizes show count named levels =
    project_levels (build_level_index_labels show (level_count_of count) named) levels []

unfoldable pub custom_total_pending : ℕ → List ℕ → ℕ
unfolding level_count_of
custom_total_pending count levels = sum (take (level_count_of count) levels)

unfoldable pub custom_is_empty : ℕ → List ℕ → Bool
unfolding level_count_of is_empty_levels
custom_is_empty count levels = is_empty_levels (take (level_count_of count) levels)

pub record CustomQueueStatus : Type 0 where
  pub sizes : List (String × ℕ)
  pub paused : Bool
  pub in_flight : ℕ
  pub completed : ℕ
  pub phase : Phase

unfoldable pub build_custom_status :
    (ℕ → String) → ℕ → List (String × ℤ) → List ℕ → Bool → ℕ → ℕ → Phase → CustomQueueStatus
unfolding custom_sizes
build_custom_status show count named levels paused in_flight completed phase = record {
  sizes = custom_sizes show count named levels;
  paused = paused;
  in_flight = in_flight;
  completed = completed;
  phase = phase;
}

-- No two levels have the same label.
abbrev pub AllDistinct : List String → Type 0
AllDistinct [] = Unit
AllDistinct (l ∷ ls) = All (λ j. str_eq l j ≡ false) ls × AllDistinct ls

abbrev pub has_label : List (String × ℕ) → String → Bool
has_label out k = any (λ p. str_eq p.0 k) out

abbrev pub total_of : List (String × ℕ) → ℕ
total_of out = sum (map (λ p. p.1) out)

total-assign :
    (k : String) (n : ℕ) (out : List (String × ℕ))
    → has_label out k ≡ false
    → total_of (assign k n out) ≡ n + total_of out
total-assign k n [] absent = refl
total-assign k n ((j, m) ∷ rest) absent = ground (arith, total-assign k n rest)

has_label-assign :
    (k j : String) (n : ℕ) (out : List (String × ℕ))
    → str_eq k j ≡ false
    → has_label out j ≡ false
    → has_label (assign k n out) j ≡ false
has_label-assign k j n [] other absent = ground arith
has_label-assign k j n ((i, m) ∷ rest) other absent =
    ground (arith, has_label-assign k j n rest other)

-- The labels still to come are not in the object.
abbrev AreFresh : List String → List (String × ℕ) → Type 0
AreFresh labels out = All (λ k. has_label out k ≡ false) labels

assign-AreFresh :
    (k : String) (n : ℕ) (labels : List String) (out : List (String × ℕ))
    → All (λ j. str_eq k j ≡ false) labels
    → AreFresh labels out
    → AreFresh labels (assign k n out)
assign-AreFresh k n [] out others fresh = tt
assign-AreFresh k n (l ∷ labels) out (other, others) (absent, fresh) =
    (has_label-assign k l n out other absent, assign-AreFresh k n labels out others fresh)

sum-take-nil : (n : ℕ) → sum (take n []) ≡ 0
sum-take-nil zero = refl
sum-take-nil (suc n) = refl

total-project_levels :
    (labels : List String) (levels : List ℕ) (out : List (String × ℕ))
    → AllDistinct labels
    → AreFresh labels out
    → total_of (project_levels labels levels out) ≡ sum (take (length labels) levels) + total_of out
total-project_levels [] levels out distinct fresh = omega arith
total-project_levels (l ∷ labels) [] out (others, distinct) (absent, fresh) =
    omega (arith, total-project_levels labels [] out distinct fresh, sum-take-nil (length labels))
total-project_levels (l ∷ labels) (zero ∷ levels) out (others, distinct) (absent, fresh) =
    omega (arith, total-project_levels labels levels out distinct fresh)
total-project_levels (l ∷ labels) (suc n ∷ levels) out (others, distinct) (absent, fresh) = ground (
  arith,
  total-project_levels labels levels (assign l (suc n) out) distinct
      (assign-AreFresh l (suc n) labels out others fresh),
  total-assign l (suc n) out absent,
)

length-index_labels : (show : ℕ → String) (i n : ℕ) → length (index_labels show i n) ≡ n
length-index_labels show i zero = refl
length-index_labels show i (suc n) = ap suc (length-index_labels show (i + 1) n)

length-set_label :
    (labels : List String) (level : ℕ) (name : String)
    → length (set_label labels level name) ≡ length labels
length-set_label [] level name = refl
length-set_label (l ∷ ls) zero name = refl
length-set_label (l ∷ ls) (suc level) name = ap suc (length-set_label ls level name)

length-name_levels :
    (named : List (String × ℤ)) (labels : List String)
    → length (name_levels named labels) ≡ length labels
length-name_levels [] labels = refl
length-name_levels ((name, pos level) ∷ rest) labels =
    length-name_levels rest (set_label labels level name) ∙ length-set_label labels level name
length-name_levels ((name, negsuc level) ∷ rest) labels = length-name_levels rest labels

nothing_yet : (labels : List String) → AreFresh labels []
nothing_yet [] = tt
nothing_yet (l ∷ labels) = (refl, nothing_yet labels)

-- Where the labels of the levels are distinct, the counts that a custom queue reports by label sum
-- up to the number of items that it reports as pending.
pub custom_sizes_total :
    (show : ℕ → String) (count : ℕ) (named : List (String × ℤ)) (levels : List ℕ)
    → AllDistinct (build_level_index_labels show (level_count_of count) named)
    → total_of (custom_sizes show count named levels) ≡ custom_total_pending count levels
unfolding custom_sizes custom_total_pending build_level_index_labels
custom_sizes_total show count named levels distinct =
    let labels = build_level_index_labels show (level_count_of count) named in
    let long : length labels ≡ level_count_of count =
      length-name_levels named (index_labels show 0 (level_count_of count))
      ∙ length-index_labels show 0 (level_count_of count) in
    omega (
      arith,
      total-project_levels labels levels [] distinct (nothing_yet labels),
      ap (λ n. sum (take n levels)) long,
    )
