-- ===== src/Relationship/Extract/Unique.antt =====
-- The candidates of an extraction form a dictionary: no target is listed twice.
use sentinel_keyvault.Common.{
  ℕ, suc, ◌≢◌, inl, inr, true, false, List, [], ◌∷◌, Text, codes, text_eq, text_eq→eq, text_eq_refl,
  All, ltb, Bool-cases, if◌then◌else◌, Bool,
}
use sentinel_keyvault.Platform.Json.{
  Json, null, bool, number, str, arr, obj, Items, nil, cons, Fields, end, field,
}
use sentinel_keyvault.Relationship.Extract.{
  EdgeCandidate, put_candidate, visit_text, visit, visit_items, visit_fields, extract, is_reference,
  normalize, candidate,
}
use sentinel_keyvault.Relationship.Extract.Candidates.{IsDict}

put_candidate-ne :
    (c d : EdgeCandidate) (ds : List EdgeCandidate)
    → c.target_resource_id ≢ d.target_resource_id
    → All (λ e. e.target_resource_id ≢ d.target_resource_id) ds
    → All (λ e. e.target_resource_id ≢ d.target_resource_id) (put_candidate c ds)
unfolding put_candidate
put_candidate-ne c d [] n h = (n, tt)
put_candidate-ne c d (e ∷ es) n h =
    elim (Bool-cases (text_eq e.target_resource_id c.target_resource_id)) [
      | inl q ↦ rw q (n, h.1)
      | inr q ↦ rw q (h.0, put_candidate-ne c d es n h.1)
    ]

put_candidate-IsDict :
    (c : EdgeCandidate) (cs : List EdgeCandidate) → IsDict cs → IsDict (put_candidate c cs)
unfolding put_candidate
put_candidate-IsDict c [] h = (tt, tt)
put_candidate-IsDict c (d ∷ ds) h =
    elim (Bool-cases (text_eq d.target_resource_id c.target_resource_id)) [
      | inl q ↦ rw q (rw (← text_eq→eq d.target_resource_id c.target_resource_id q) h.0, h.1)
      | inr q ↦
          let n : c.target_resource_id ≢ d.target_resource_id =
            λ e. cc (q, text_eq_refl d.target_resource_id, e) in
          rw q (put_candidate-ne c d ds n h.0, put_candidate-IsDict c ds h.1)
    ]

if-IsDict :
    (b : Bool) (xs ys : List EdgeCandidate) → IsDict xs → IsDict ys → IsDict (if b then xs else ys)
if-IsDict true xs ys h k = h
if-IsDict false xs ys h k = k

visit_text-IsDict :
    (value path : Text) (cs : List EdgeCandidate) → IsDict cs → IsDict (visit_text value path cs)
unfolding visit_text
visit_text-IsDict value path cs h =
    if-IsDict (is_reference (normalize value)) _ cs
      (put_candidate-IsDict (candidate (normalize value) path) cs h) h

mutual
  unfolding visit visit_items visit_fields

  visit-IsDict :
      (j : Json) (path : Text) (depth : ℕ) (cs : List EdgeCandidate)
      → IsDict cs
      → IsDict (visit j path depth cs)
  visit-IsDict null path depth cs h = h
  visit-IsDict (bool b) path depth cs h = h
  visit-IsDict (number n) path depth cs h = h
  visit-IsDict (str value) path depth cs h =
      if-IsDict (ltb 12 depth) cs _ h (visit_text-IsDict value path cs h)
  visit-IsDict (arr items) path depth cs h =
      if-IsDict (ltb 12 depth) cs _ h (visit_items-IsDict items 0 path (suc depth) cs h)
  visit-IsDict (obj fields) path depth cs h =
      if-IsDict (ltb 12 depth) cs _ h (visit_fields-IsDict fields path (suc depth) cs h)

  visit_items-IsDict :
      (items : Items) (index : ℕ) (path : Text) (depth : ℕ) (cs : List EdgeCandidate)
      → IsDict cs
      → IsDict (visit_items items index path depth cs)
  visit_items-IsDict nil index path depth cs h = h
  visit_items-IsDict (cons child items) index path depth cs h =
      if-IsDict (ltb index 1000) _ cs
        (visit_items-IsDict items (suc index) path depth _ (visit-IsDict child _ depth cs h)) h

  visit_fields-IsDict :
      (fields : Fields) (path : Text) (depth : ℕ) (cs : List EdgeCandidate)
      → IsDict cs
      → IsDict (visit_fields fields path depth cs)
  visit_fields-IsDict end path depth cs h = h
  visit_fields-IsDict (field key child fields) path depth cs h =
      visit_fields-IsDict fields path depth _ (visit-IsDict child _ depth cs h)

-- No two candidates of an extraction have the same target.
pub extract-IsDict : (properties : Fields) → IsDict (extract properties)
unfolding extract
extract-IsDict properties = visit-IsDict (obj properties) (codes "$") 0 [] tt
