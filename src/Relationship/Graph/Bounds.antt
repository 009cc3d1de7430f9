-- ===== src/Relationship/Graph/Bounds.antt =====
-- How many nodes a traversal visits.
use Prim.Native.Nat.{max}
use sentinel_keyvault.Common.{
  ℕ, zero, suc, ◌≤◌, ◌<◌, ◌≡◌, ◌⊎◌, refl, inl, inr, false, ◌||◌, List, [], ◌∷◌, arith, Has,
  Distinct, id_of, leb, length, member, add, union, minus, Has-union_left, Has-union_right,
  union-minus, add_old, length-add-le, Distinct-union, Bool-cases, leb-false,
}
use sentinel_keyvault.Relationship.Models.{Relationship, GraphQuery}
use sentinel_keyvault.Relationship.Queries.{edges_for_frontier}
use sentinel_keyvault.Relationship.Graph.{
  scan, traverse, traversal, allowed, put_edge, add_ends, is_empty,
}
use sentinel_keyvault.Relationship.Graph.Frontier.{touching_end}

-- One of the two ends is known.
abbrev Anchored : List ℕ → Relationship → Type 0
Anchored visited e = Has e.source_resource_id visited ⊎ Has e.target_resource_id visited

union-add : (s t : List ℕ) (x : ℕ) → length (union s (add x t)) ≤ suc (length (union s t))
union-add s t x = elim (Bool-cases (member x t)) [
  | inl e ↦ rw e (omega arith)
  | inr e ↦ rw e (length-add-le x (union s t))
]

union-add_old : (s t : List ℕ) (x : ℕ) → Has x s → length (union s (add x t)) ≤ length (union s t)
union-add_old s t x m = elim (Bool-cases (member x t)) [
  | inl e ↦ rw e (omega arith)
  | inr e ↦ rw e (rw (add_old x (union s t) (Has-union_left x s t m)) (omega arith))
]

union-add_ends :
    (s next : List ℕ) (e : Relationship)
    → Anchored s e
    → length (union s (add_ends e next)) ≤ suc (length (union s next))
union-add_ends s next e (inl m) = omega (
  arith,
  union-add s (add e.source_resource_id next) e.target_resource_id,
  union-add_old s next e.source_resource_id m,
)
union-add_ends s next e (inr m) = omega (
  arith,
  union-add_old s (add e.source_resource_id next) e.target_resource_id m,
  union-add s next e.source_resource_id,
)

module _ (query : GraphQuery) (limit : ℕ) (fits : query.max_nodes ≤ limit) (visited : List ℕ) where
  -- Below the limit when it starts, a scan ends at most at the limit, and below it unless it is
  -- cut short.
  scan_bound :
      (es : List Relationship) (next : List ℕ) (edges : List Relationship)
      → ((e : Relationship) → Has e es → Anchored visited e)
      → length (union visited next) < limit
      → (length (union visited (scan query visited es next edges).next_frontier) ≤ limit)
        × ((scan query visited es next edges).truncated ≡ false
            → length (union visited (scan query visited es next edges).next_frontier) < limit)
  unfolding scan
  scan_bound [] next edges a h = (omega arith, λ t. h)
  scan_bound (e ∷ es) next edges a h = elim (Bool-cases (allowed query.relationship_types e)) [
    | inr no_type ↦ rw (no_type, scan) (scan_bound es next edges (λ f m. a f (inr m)) h)
    | inl ok ↦ elim (Bool-cases (leb query.max_nodes (length (union visited (add_ends e next))))) [
      | inl full ↦
          rw (ok, full, scan)
            (omega (arith, union-add_ends visited next e (a e (inl refl))), λ t. absurd (cc))
      | inr room ↦
          rw (ok, room, scan)
            (scan_bound es (add_ends e next) (put_edge e edges) (λ f m. a f (inr m))
              (omega (arith, leb-false _ _ room)))
    ]
  ]

module _ (rows : List Relationship) (tenant_id : ℕ) (query : GraphQuery) (limit : ℕ)
    (fits : query.max_nodes ≤ limit) where
  abbrev IsSmall : List ℕ → Type 0
  IsSmall s = Distinct id_of s × (length s ≤ limit)

  anchored :
      (frontier visited : List ℕ)
      → ((x : ℕ) → Has x frontier → Has x visited)
      → (e : Relationship) → Has e (edges_for_frontier tenant_id frontier query.direction rows)
      → Anchored visited e
  anchored frontier visited inside e m = elim (touching_end rows tenant_id query frontier e m) [
    | inl a ↦ inl (inside e.source_resource_id a)
    | inr b ↦ inr (inside e.target_resource_id b)
  ]

  traverse-IsSmall :
      (rounds : ℕ) (frontier visited : List ℕ) (edges : List Relationship)
      → Distinct id_of visited
      → length visited < limit
      → ((x : ℕ) → Has x frontier → Has x visited)
      → IsSmall (traverse rows tenant_id query rounds frontier visited edges).visited
  unfolding traverse
  traverse-IsSmall zero frontier visited edges d h inside = (d, omega arith)
  traverse-IsSmall (suc rounds) frontier visited edges d h inside =
      let es = edges_for_frontier tenant_id frontier query.direction rows in
      let found = scan query visited es [] edges in
      let next = minus found.next_frontier visited in
      let same = union-minus visited found.next_frontier in
      let (most, less) =
        scan_bound query limit fits visited es [] edges (anchored frontier visited inside) h in
      let d' = Distinct-union visited next d in
      elim (Bool-cases (found.truncated || is_empty next)) [
        | inl done ↦ rw (done, traverse) (d', rw same most)
        | inr more ↦
            rw (more, traverse)
              (traverse-IsSmall rounds next (union visited next) found.edges d'
                (rw same (less (ground arith))) (λ x m. Has-union_right x visited next m))
      ]

-- A traversal visits at most `max_nodes` distinct nodes, or two if `max_nodes` is smaller: the
-- root and the node whose discovery ends the traversal.
pub traversal_bound :
    (rows : List Relationship) (tenant_id : ℕ) (query : GraphQuery)
    → Distinct id_of (traversal rows tenant_id query).visited
      × (length (traversal rows tenant_id query).visited ≤ max query.max_nodes 2)
unfolding traversal
traversal_bound rows tenant_id query =
    traverse-IsSmall rows tenant_id query (max query.max_nodes 2) (omega arith) query.max_depth
      (query.root_resource_id ∷ []) (query.root_resource_id ∷ []) [] (tt, tt) (omega arith)
      (λ x m. m)
