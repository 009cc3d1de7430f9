-- ===== src/Relationship/Extract/Candidates.antt =====
-- The dictionary of candidates, and what a visit adds to it.
use sentinel_keyvault.Common.{
  ℕ, suc, ◌≡◌, ◌≢◌, refl, ◌∙◌, inl, inr, ◌⊎◌, true, List, [], ◌∷◌, ◌++◌, map, Text, codes, text_eq,
  text_eq→eq, All, Has, ltb, ltb→lt, ltb-false, Bool-cases,
}
use sentinel_keyvault.Platform.Json.{
  Json, null, bool, number, str, arr, obj, Items, nil, cons, Fields, end, field,
}
use sentinel_keyvault.Relationship.Extract.{
  EdgeCandidate, normalize, is_reference, candidate, put_candidate, visit_text, visit, visit_items,
  visit_fields, decimal,
}
use sentinel_keyvault.Relationship.Extract.Occurrences.{Occurs, OccursItems, OccursFields}

-- The keys of the dictionary of candidates.
abbrev pub targets : List EdgeCandidate → List Text
targets = map (λ c. c.target_resource_id)

-- No key stands twice.
abbrev pub IsDict : List EdgeCandidate → Type 0
IsDict [] = Unit
IsDict (c ∷ cs) = All (λ d. d.target_resource_id ≢ c.target_resource_id) cs × IsDict cs

-- The text is a reference to `t`.
abbrev pub Refers : Text → Text → Type 0
Refers s t = (is_reference (normalize s) ≡ true) × (t ≡ normalize s)

pub put_candidate-keeps :
    (c : EdgeCandidate) (cs : List EdgeCandidate) (t : Text)
    → Has t (targets cs)
    → Has t (targets (put_candidate c cs))
unfolding put_candidate
put_candidate-keeps c [] t m = absurd m
put_candidate-keeps c (d ∷ ds) t m =
    elim (Bool-cases (text_eq d.target_resource_id c.target_resource_id)) [
      | inl e ↦ rw e (elim m [
        | inl p ↦ inl (p ∙ text_eq→eq d.target_resource_id c.target_resource_id e)
        | inr k ↦ inr k
      ])
      | inr e ↦ rw e (elim m [ inl p ↦ inl p | inr k ↦ inr (put_candidate-keeps c ds t k) ])
    ]

pub put_candidate-has :
    (c : EdgeCandidate) (cs : List EdgeCandidate)
    → Has c.target_resource_id (targets (put_candidate c cs))
unfolding put_candidate
put_candidate-has c [] = inl refl
put_candidate-has c (d ∷ ds) =
    elim (Bool-cases (text_eq d.target_resource_id c.target_resource_id)) [
      | inl e ↦ rw e (inl refl)
      | inr e ↦ rw e (inr (put_candidate-has c ds))
    ]

put_candidate-new :
    (c : EdgeCandidate) (cs : List EdgeCandidate) (t : Text)
    → Has t (targets (put_candidate c cs))
    → Has t (targets cs) ⊎ (t ≡ c.target_resource_id)
unfolding put_candidate
put_candidate-new c [] t m = elim m [ inl p ↦ inr p | inr k ↦ absurd k ]
put_candidate-new c (d ∷ ds) t m =
    elim (Bool-cases (text_eq d.target_resource_id c.target_resource_id)) [
      | inl e ↦ elim (rw e at m) [ inl p ↦ inr p | inr k ↦ inl (inr k) ]
      | inr e ↦ elim (rw e at m) [
        | inl p ↦ inl (inl p)
        | inr k ↦ elim (put_candidate-new c ds t k) [ inl a ↦ inl (inr a) | inr b ↦ inr b ]
      ]
    ]

-- A text adds its own reference, if it is one, and keeps the others.
visit_text-new :
    (value path : Text) (cs : List EdgeCandidate) (t : Text)
    → Has t (targets (visit_text value path cs))
    → Has t (targets cs) ⊎ Refers value t
unfolding visit_text
visit_text-new value path cs t m = elim (Bool-cases (is_reference (normalize value))) [
  | inl e ↦ elim (put_candidate-new (candidate (normalize value) path) cs t (rw e at m)) [
    | inl k ↦ inl k
    | inr p ↦ inr (e, p)
  ]
  | inr e ↦ inl (rw e at m)
]

pub visit_text-keeps :
    (value path : Text) (cs : List EdgeCandidate) (t : Text)
    → Has t (targets cs)
    → Has t (targets (visit_text value path cs))
unfolding visit_text
visit_text-keeps value path cs t m = elim (Bool-cases (is_reference (normalize value))) [
  | inl e ↦ rw e (put_candidate-keeps (candidate (normalize value) path) cs t m)
  | inr e ↦ rw e m
]

pub visit_text-has :
    (value path : Text) (cs : List EdgeCandidate) (t : Text)
    → Refers value t
    → Has t (targets (visit_text value path cs))
unfolding visit_text
visit_text-has value path cs t (e, p) =
    rw (e, p) (put_candidate-has (candidate (normalize value) path) cs)

-- What a visit adds.
mutual
  unfolding visit visit_items visit_fields Occurs OccursItems OccursFields

  pub visit-new :
      (j : Json) (path : Text) (depth : ℕ) (cs : List EdgeCandidate) (t : Text)
      → Has t (targets (visit j path depth cs))
      → Has t (targets cs) ⊎ ((s : Text) × Occurs s j depth × Refers s t)
  visit-new null path depth cs t m = inl m
  visit-new (bool b) path depth cs t m = inl m
  visit-new (number n) path depth cs t m = inl m
  visit-new (str value) path depth cs t m = elim (Bool-cases (ltb 12 depth)) [
    | inl deep ↦ inl (rw (deep) at m)
    | inr ok ↦ elim (visit_text-new value path cs t (rw (ok) at m)) [
      | inl k ↦ inl k
      | inr r ↦ inr (value, (ltb-false 12 depth ok, refl), r)
    ]
  ]
  visit-new (arr items) path depth cs t m = elim (Bool-cases (ltb 12 depth)) [
    | inl deep ↦ inl (rw (deep) at m)
    | inr ok ↦ elim (visit_items-new items 0 path (suc depth) cs t (rw (ok) at m)) [
      | inl k ↦ inl k
      | inr (s, o, r) ↦ inr (s, (ltb-false 12 depth ok, o), r)
    ]
  ]
  visit-new (obj fields) path depth cs t m = elim (Bool-cases (ltb 12 depth)) [
    | inl deep ↦ inl (rw (deep) at m)
    | inr ok ↦ elim (visit_fields-new fields path (suc depth) cs t (rw (ok) at m)) [
      | inl k ↦ inl k
      | inr (s, o, r) ↦ inr (s, (ltb-false 12 depth ok, o), r)
    ]
  ]

  visit_items-new :
      (items : Items) (index : ℕ) (path : Text) (depth : ℕ) (cs : List EdgeCandidate) (t : Text)
      → Has t (targets (visit_items items index path depth cs))
      → Has t (targets cs) ⊎ ((s : Text) × OccursItems s items index depth × Refers s t)
  visit_items-new nil index path depth cs t m = inl m
  visit_items-new (cons child items) index path depth cs t m = elim (Bool-cases (ltb index 1000)) [
    | inr past ↦ inl (rw (past) at m)
    | inl ok ↦
        let p = path ++ codes "[" ++ decimal index ++ codes "]" in
        elim (visit_items-new items (suc index) path depth (visit child p depth cs) t
          (rw (ok) at m)) [
            | inr (s, o, r) ↦ inr (s, (ltb→lt index 1000 ok, inr o), r)
            | inl k ↦ elim (visit-new child p depth cs t k) [
              | inl old ↦ inl old
              | inr (s, o, r) ↦ inr (s, (ltb→lt index 1000 ok, inl o), r)
            ]
          ]
  ]

  visit_fields-new :
      (fields : Fields) (path : Text) (depth : ℕ) (cs : List EdgeCandidate) (t : Text)
      → Has t (targets (visit_fields fields path depth cs))
      → Has t (targets cs) ⊎ ((s : Text) × OccursFields s fields depth × Refers s t)
  visit_fields-new end path depth cs t m = inl m
  visit_fields-new (field key child fields) path depth cs t m =
      let p = path ++ codes "." ++ key in
      elim (visit_fields-new fields path depth (visit child p depth cs) t m) [
        | inr (s, o, r) ↦ inr (s, inr o, r)
        | inl k ↦ elim (visit-new child p depth cs t k) [
          | inl old ↦ inl old
          | inr (s, o, r) ↦ inr (s, inl o, r)
        ]
      ]
