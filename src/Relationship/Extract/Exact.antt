-- ===== src/Relationship/Extract/Exact.antt =====
-- What a visit keeps and finds, against the specification in `Occurrences`.
use sentinel_keyvault.Common.{
  ◌↔◌, ℕ, suc, ◌≤◌, ◌<◌, ◌≡◌, inl, inr, true, false, List, [], arith, Text, codes, Has, ltb,
  Bool-cases,
}
use sentinel_keyvault.Platform.Json.{
  Json, null, bool, number, str, arr, obj, Items, nil, cons, Fields, end, field,
}
use sentinel_keyvault.Relationship.Extract.{
  EdgeCandidate, visit, visit_items, visit_fields, extract,
}
use sentinel_keyvault.Relationship.Extract.Occurrences.{Occurs, OccursItems, OccursFields}
use sentinel_keyvault.Relationship.Extract.Candidates.{
  targets, Refers, IsDict, visit-new, visit_text-keeps, visit_text-has,
}
use sentinel_keyvault.Relationship.Extract.Unique.{extract-IsDict}

-- A visit keeps every candidate's key.
mutual
  unfolding visit visit_items visit_fields

  visit-keeps :
      (j : Json) (path : Text) (depth : ℕ) (cs : List EdgeCandidate) (t : Text)
      → Has t (targets cs)
      → Has t (targets (visit j path depth cs))
  visit-keeps null path depth cs t m = m
  visit-keeps (bool b) path depth cs t m = m
  visit-keeps (number n) path depth cs t m = m
  visit-keeps (str value) path depth cs t m = elim (Bool-cases (ltb 12 depth)) [
    | inl deep ↦ rw (deep) m
    | inr ok ↦ rw (ok) (visit_text-keeps value path cs t m)
  ]
  visit-keeps (arr items) path depth cs t m = elim (Bool-cases (ltb 12 depth)) [
    | inl deep ↦ rw (deep) m
    | inr ok ↦ rw (ok) (visit_items-keeps items 0 path (suc depth) cs t m)
  ]
  visit-keeps (obj fields) path depth cs t m = elim (Bool-cases (ltb 12 depth)) [
    | inl deep ↦ rw (deep) m
    | inr ok ↦ rw (ok) (visit_fields-keeps fields path (suc depth) cs t m)
  ]

  visit_items-keeps :
      (items : Items) (index : ℕ) (path : Text) (depth : ℕ) (cs : List EdgeCandidate) (t : Text)
      → Has t (targets cs)
      → Has t (targets (visit_items items index path depth cs))
  visit_items-keeps nil index path depth cs t m = m
  visit_items-keeps (cons child items) index path depth cs t m =
      elim (Bool-cases (ltb index 1000)) [
        | inr past ↦ rw (past) m
        | inl ok ↦
            rw (ok) (
              visit_items-keeps items (suc index) path depth _ t (visit-keeps child _ depth cs t m))
      ]

  visit_fields-keeps :
      (fields : Fields) (path : Text) (depth : ℕ) (cs : List EdgeCandidate) (t : Text)
      → Has t (targets cs)
      → Has t (targets (visit_fields fields path depth cs))
  visit_fields-keeps end path depth cs t m = m
  visit_fields-keeps (field key child fields) path depth cs t m =
      visit_fields-keeps fields path depth _ t (visit-keeps child _ depth cs t m)

shallow : (depth : ℕ) → depth ≤ 12 → ltb 12 depth ≡ false
shallow depth h = ground arith

before : (index : ℕ) → index < 1000 → ltb index 1000 ≡ true
before index h = ground arith

-- A visit finds every reference that occurs.
mutual
  unfolding visit visit_items visit_fields Occurs OccursItems OccursFields

  visit-has :
      (j : Json) (path : Text) (depth : ℕ) (cs : List EdgeCandidate) (s t : Text)
      → Occurs s j depth
      → Refers s t
      → Has t (targets (visit j path depth cs))
  visit-has null path depth cs s t o r = absurd o
  visit-has (bool b) path depth cs s t o r = absurd o
  visit-has (number n) path depth cs s t o r = absurd o
  visit-has (str value) path depth cs s t o r =
      rw (shallow depth o.0) (visit_text-has value path cs t (rw o.1 at r))
  visit-has (arr items) path depth cs s t o r =
      rw (shallow depth o.0) (visit_items-has items 0 path (suc depth) cs s t o.1 r)
  visit-has (obj fields) path depth cs s t o r =
      rw (shallow depth o.0) (visit_fields-has fields path (suc depth) cs s t o.1 r)

  visit_items-has :
      (items : Items) (index : ℕ) (path : Text) (depth : ℕ) (cs : List EdgeCandidate) (s t : Text)
      → OccursItems s items index depth
      → Refers s t
      → Has t (targets (visit_items items index path depth cs))
  visit_items-has nil index path depth cs s t o r = absurd o
  visit_items-has (cons child items) index path depth cs s t o r = rw (before index o.0) (elim o.1 [
    | inl here ↦
        visit_items-keeps items (suc index) path depth _ t (visit-has child _ depth cs s t here r)
    | inr later ↦ visit_items-has items (suc index) path depth _ s t later r
  ])

  visit_fields-has :
      (fields : Fields) (path : Text) (depth : ℕ) (cs : List EdgeCandidate) (s t : Text)
      → OccursFields s fields depth
      → Refers s t
      → Has t (targets (visit_fields fields path depth cs))
  visit_fields-has end path depth cs s t o r = absurd o
  visit_fields-has (field key child fields) path depth cs s t o r = elim o [
    | inl here ↦ visit_fields-keeps fields path depth _ t (visit-has child _ depth cs s t here r)
    | inr later ↦ visit_fields-has fields path depth _ s t later r
  ]

-- The targets of the candidates are exactly the references among the texts of the properties that
-- stand at most 12 levels deep and in no list past its first 1000 items, and no two candidates have
-- the same target.
pub extract_exact :
    (properties : Fields)
    → ((t : Text)
        → Has t (targets (extract properties))
          ↔ ((s : Text) × Occurs s (obj properties) 0 × Refers s t))
      × IsDict (extract properties)
unfolding extract
extract_exact properties = (
  λ t. (
    λ m. elim (visit-new (obj properties) (codes "$") 0 [] t m) [
      | inl none ↦ absurd none
      | inr found ↦ found
    ],
    λ (s, o, r). visit-has (obj properties) (codes "$") 0 [] s t o r,
  ),
  extract-IsDict properties,
)
