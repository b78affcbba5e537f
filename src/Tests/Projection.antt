-- ===== src/Tests/Projection.antt =====
-- The projection of a custom queue of three levels, of which level 1 has a name.
use effect_pm.Prelude.{ℕ, ◌≡◌, refl, zero, suc, [], ◌∷◌, List, String, ℤ, pos}
use effect_pm.Queue.Projection.Custom.{custom_sizes}

abbrev digit : ℕ → String
digit zero = "0"
digit (suc zero) = "1"
digit (suc (suc n)) = "2"

abbrev bulk : List (String × ℤ)
bulk = ("bulk", pos 1) ∷ []

bulk_sizes : custom_sizes digit 3 bulk (4 ∷ 5 ∷ 0 ∷ []) ≡ ("0", 4) ∷ ("bulk", 5) ∷ []
unfolding custom_sizes
bulk_sizes = refl

-- Level 0 has the name that level 1 has by default, and its count is lost.
lost_count : custom_sizes digit 2 (("1", pos 0) ∷ []) (4 ∷ 5 ∷ []) ≡ ("1", 5) ∷ []
unfolding custom_sizes
lost_count = refl
