-- ===== src/Relationship/Extract.antt =====
-- `ArmReferenceExtractor` of apps/relationship-service/src/sentinel_relationship/extractors.py.
pub mod Occurrences
pub mod Candidates
pub mod Exact
pub mod Unique
mod Tests
use Prim.Native.Nat.{◌/◌, ◌%◌}
use sentinel_keyvault.Common.{
  ℕ, zero, suc, ◌+◌, Bool, true, false, ◌&&◌, not, List, [], ◌∷◌, ◌++◌, Text, codes, text_eq, lower,
  strip, starts_with, ends_with, contains, ltb, if◌then◌else◌,
}
use sentinel_keyvault.Platform.Json.{
  Json, null, bool, number, str, arr, obj, Items, nil, cons, Fields, end, field,
}

-- `confidence` is in thousandths.
pub record EdgeCandidate : Type 0 where
  pub target_resource_id : Text
  pub relationship_type : Text
  pub dependency_strength : Text
  pub confidence : ℕ
  pub evidence_path : Text

-- `supports`
pub supports : Text → Bool
supports resource_type = starts_with resource_type (codes "microsoft.")

-- `value.strip().lower()`
pub normalize : Text → Text
normalize value = lower (strip value)

pub is_reference : Text → Bool
is_reference normalized =
    starts_with normalized (codes "/subscriptions/")
    && (contains normalized (codes "/providers/")
        && not (ends_with normalized (codes "/providers/microsoft.insights/diagnosticsettings")))

-- `candidates[candidate.target_resource_id] = candidate`
pub put_candidate : EdgeCandidate → List EdgeCandidate → List EdgeCandidate
put_candidate c [] = c ∷ []
put_candidate c (d ∷ ds) =
    if text_eq d.target_resource_id c.target_resource_id then c ∷ ds else d ∷ put_candidate c ds

abbrev candidate : Text → Text → EdgeCandidate
candidate normalized path = record {
  target_resource_id = normalized;
  relationship_type = codes "references";
  dependency_strength = codes "hard";
  confidence = 1000;
  evidence_path = path;
}

-- The digits of a list index, with the index itself as fuel.
decimal_from : ℕ → ℕ → Text
decimal_from zero n = (48 + n) ∷ []
decimal_from (suc fuel) n =
    let rest = decimal_from fuel (n / 10) in
    if ltb n 10 then (48 + n) ∷ [] else rest ++ (48 + n % 10) ∷ []

decimal : ℕ → Text
unfolding decimal_from
decimal n = decimal_from n n

-- The case of a text in `visit`.
pub visit_text : Text → Text → List EdgeCandidate → List EdgeCandidate
unfolding put_candidate
visit_text value path candidates =
    if is_reference (normalize value)
    then put_candidate (candidate (normalize value) path) candidates
    else candidates

-- `visit(value, path, depth)`, with `candidates` passed along. `visit_items` is the loop over
-- `enumerate(value[:1000])`, from an index on.
unfoldable mutual
  unfolding visit_text decimal

  pub visit : Json → Text → ℕ → List EdgeCandidate → List EdgeCandidate
  visit null path depth candidates = candidates
  visit (bool b) path depth candidates = candidates
  visit (number n) path depth candidates = candidates
  visit (str value) path depth candidates =
      if ltb 12 depth then candidates else visit_text value path candidates
  visit (arr items) path depth candidates =
      if ltb 12 depth then candidates else visit_items items 0 path (suc depth) candidates
  visit (obj fields) path depth candidates =
      if ltb 12 depth then candidates else visit_fields fields path (suc depth) candidates

  pub visit_items : Items → ℕ → Text → ℕ → List EdgeCandidate → List EdgeCandidate
  visit_items nil index path depth candidates = candidates
  visit_items (cons child items) index path depth candidates =
      if ltb index 1000
      then visit_items items (suc index) path depth
          (visit child (path ++ codes "[" ++ decimal index ++ codes "]") depth candidates)
      else candidates

  pub visit_fields : Fields → Text → ℕ → List EdgeCandidate → List EdgeCandidate
  visit_fields end path depth candidates = candidates
  visit_fields (field key child fields) path depth candidates =
      visit_fields fields path depth (visit child (path ++ codes "." ++ key) depth candidates)

pub extract : Fields → List EdgeCandidate
unfolding visit
extract properties = visit (obj properties) (codes "$") 0 []
