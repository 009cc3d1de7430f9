-- ===== src/Relationship/Extract/Occurrences.antt =====
-- The specification of the extraction: which texts stand in a value, no deeper than 12 levels and
-- in no list past its first 1000 items.
use sentinel_keyvault.Common.{ℕ, suc, ◌≤◌, ◌<◌, ◌≡◌, ◌⊎◌, Text}
use sentinel_keyvault.Platform.Json.{
  Json, null, bool, number, str, arr, obj, Items, nil, cons, Fields, end, field,
}

unfoldable mutual
  pub Occurs : Text → Json → ℕ → Type 0
  Occurs t null depth = ⊥
  Occurs t (bool b) depth = ⊥
  Occurs t (number n) depth = ⊥
  Occurs t (str value) depth = (depth ≤ 12) × (t ≡ value)
  Occurs t (arr items) depth = (depth ≤ 12) × OccursItems t items 0 (suc depth)
  Occurs t (obj fields) depth = (depth ≤ 12) × OccursFields t fields (suc depth)

  pub OccursItems : Text → Items → ℕ → ℕ → Type 0
  OccursItems t nil index depth = ⊥
  OccursItems t (cons child items) index depth =
      (index < 1000) × (Occurs t child depth ⊎ OccursItems t items (suc index) depth)

  pub OccursFields : Text → Fields → ℕ → Type 0
  OccursFields t end depth = ⊥
  OccursFields t (field key child fields) depth = Occurs t child depth ⊎ OccursFields t fields depth
