-- ===== src/Relationship/Graph/Frontier.antt =====
-- One round of the traversal: the edges that touch a frontier, and what `scan` makes of them.
use sentinel_keyvault.Common.{
  ℕ, ◌≡◌, refl, inl, inr, ◌⊎◌, true, false, List, [], ◌∷◌, arith, leb, length, Has, Has-select,
  select-Has, member, union, member→Has, Has→member, Has-add, Has-add_self, add-Has, ==-refl,
  Bool-cases,
}
use sentinel_keyvault.Relationship.Models.{
  Relationship, Direction, upstream, downstream, both, GraphQuery,
}
use sentinel_keyvault.Relationship.Queries.{edges_for_frontier, touches}
use sentinel_keyvault.Relationship.Graph.{scan, put_edge, allowed, add_ends}
use sentinel_keyvault.Relationship.Graph.Walks.{Hops, Usable}

-- `x` is an end of the edge.
abbrev pub IsEnd : Relationship → ℕ → Type 0
IsEnd e x = (x ≡ e.source_resource_id) ⊎ (x ≡ e.target_resource_id)

-- What it means for an edge to touch a frontier, end by end.
abbrev pub FromFrontier : Direction → List ℕ → Relationship → ℕ → Type 0
FromFrontier direction frontier e x =
    Has x frontier ⊎ ((y : ℕ) × Has y frontier × Hops direction e y x)

touches_ends :
    (direction : Direction) (frontier : List ℕ) (e : Relationship) (x : ℕ)
    → touches direction (λ i. member i frontier) e ≡ true
    → IsEnd e x
    → FromFrontier direction frontier e x
touches_ends downstream frontier e x t (inl p) = inl (rw p (member→Has _ frontier t))
touches_ends downstream frontier e x t (inr p) =
    inr (e.source_resource_id, member→Has _ frontier t, (refl, rw p))
touches_ends upstream frontier e x t (inl p) =
    inr (e.target_resource_id, member→Has _ frontier t, (refl, rw p))
touches_ends upstream frontier e x t (inr p) = inl (rw p (member→Has _ frontier t))
touches_ends both frontier e x t p = elim (Bool-cases (member e.source_resource_id frontier)) [
  | inl s ↦ elim p [
    | inl q ↦ inl (rw q (member→Has _ frontier s))
    | inr q ↦ inr (e.source_resource_id, member→Has _ frontier s, inl (refl, rw q))
  ]
  | inr s ↦
      let t' : member e.target_resource_id frontier ≡ true = rw s at t in
      elim p [
        | inl q ↦ inr (e.target_resource_id, member→Has _ frontier t', inr (refl, rw q))
        | inr q ↦ inl (rw q (member→Has _ frontier t'))
      ]
]

touches_anchor :
    (direction : Direction) (frontier : List ℕ) (e : Relationship)
    → touches direction (λ i. member i frontier) e ≡ true
    → Has e.source_resource_id frontier ⊎ Has e.target_resource_id frontier
touches_anchor downstream frontier e t = inl (member→Has _ frontier t)
touches_anchor upstream frontier e t = inr (member→Has _ frontier t)
touches_anchor both frontier e t = elim (Bool-cases (member e.source_resource_id frontier)) [
  | inl s ↦ inl (member→Has _ frontier s)
  | inr s ↦ inr (member→Has _ frontier (rw s at t))
]

touches_hop :
    (direction : Direction) (frontier : List ℕ) (e : Relationship) (x y : ℕ)
    → Has x frontier
    → Hops direction e x y
    → (touches direction (λ i. member i frontier) e ≡ true) × IsEnd e y
touches_hop downstream frontier e x y m (p, q) = (rw p (Has→member x frontier m), inr (rw q))
touches_hop upstream frontier e x y m (p, q) = (rw p (Has→member x frontier m), inl (rw q))
touches_hop both frontier e x y m (inl (p, q)) = (rw (p, Has→member x frontier m), inr (rw q))
touches_hop both frontier e x y m (inr (p, q)) = (
  elim (Bool-cases (member e.source_resource_id frontier)) [
    | inl s ↦ rw s
    | inr s ↦ rw (s, p) (Has→member x frontier m)
  ],
  inl (rw q),
)

module _ (rows : List Relationship) (tenant_id : ℕ) (query : GraphQuery) where
  pub frontier_edge :
      (frontier : List ℕ) (e : Relationship) (x : ℕ)
      → Has e (edges_for_frontier tenant_id frontier query.direction rows)
      → allowed query.relationship_types e ≡ true
      → IsEnd e x
      → Usable rows tenant_id query e × FromFrontier query.direction frontier e x
  unfolding edges_for_frontier
  frontier_edge frontier e x m ok p =
      let (h, t) = select-Has _ rows m in
      (
        (h, ground arith, ground arith, ok),
        touches_ends query.direction frontier e x (ground arith) p,
      )

  -- One end of such an edge lies on the frontier.
  pub touching_end :
      (frontier : List ℕ) (e : Relationship)
      → Has e (edges_for_frontier tenant_id frontier query.direction rows)
      → Has e.source_resource_id frontier ⊎ Has e.target_resource_id frontier
  unfolding edges_for_frontier
  touching_end frontier e m =
      let (h, t) = select-Has _ rows m in touches_anchor query.direction frontier e (ground arith)

  pub frontier_has :
      (frontier : List ℕ) (e : Relationship) (x y : ℕ)
      → Usable rows tenant_id query e
      → Has x frontier
      → Hops query.direction e x y
      → Has e (edges_for_frontier tenant_id frontier query.direction rows) × IsEnd e y
  unfolding edges_for_frontier
  frontier_has frontier e x y (h, t, a, ok) m p =
      let (touch, end) = touches_hop query.direction frontier e x y m p in
      (Has-select _ rows h (ground (arith, t, a, touch, ==-refl tenant_id)), end)

Has-add_ends : (e : Relationship) (next : List ℕ) (x : ℕ) → Has x next → Has x (add_ends e next)
Has-add_ends e next x m = Has-add e.target_resource_id x _ (Has-add e.source_resource_id x next m)

IsEnd-add_ends : (e : Relationship) (next : List ℕ) (x : ℕ) → IsEnd e x → Has x (add_ends e next)
IsEnd-add_ends e next x (inl p) =
    rw p (Has-add e.target_resource_id _ _ (Has-add_self e.source_resource_id next))
IsEnd-add_ends e next x (inr p) = rw p (Has-add_self e.target_resource_id _)

add_ends-Has :
    (e : Relationship) (next : List ℕ) (x : ℕ) → Has x (add_ends e next) → IsEnd e x ⊎ Has x next
add_ends-Has e next x m = elim (add-Has e.target_resource_id x _ m) [
  | inl p ↦ inl (inr p)
  | inr n ↦ elim (add-Has e.source_resource_id x next n) [ inl p ↦ inl (inl p) | inr k ↦ inr k ]
]

module _ (query : GraphQuery) (visited : List ℕ) where
  -- What is new in the next frontier is an end of an edge that may be followed.
  pub scan_new :
      (es : List Relationship) (next : List ℕ) (edges : List Relationship) (x : ℕ)
      → Has x (scan query visited es next edges).next_frontier
      → Has x next
        ⊎ ((e : Relationship) × Has e es × (allowed query.relationship_types e ≡ true) × IsEnd e x)
  unfolding scan
  scan_new [] next edges x m = inl m
  scan_new (e ∷ es) next edges x m = elim (Bool-cases (allowed query.relationship_types e)) [
    | inr no_type ↦ later next (scan_new es next edges x (rw (no_type, scan) at m))
    | inl ok ↦ elim (Bool-cases (leb query.max_nodes (length (union visited (add_ends e next))))) [
      | inl full ↦ now ok (rw (ok, full, scan) at m)
      | inr room ↦
          elim (scan_new es (add_ends e next) (put_edge e edges) x (rw (ok, room, scan) at m)) [
            | inl n ↦ now ok n
            | inr (f, k, okf, end) ↦ inr (f, inr k, okf, end)
          ]
    ]
  ]
    where
      Result : Type 0
      Result =
          Has x next
          ⊎ ((f : Relationship) × Has f (e ∷ es)
              × (allowed query.relationship_types f ≡ true)
              × IsEnd f x)

      now : allowed query.relationship_types e ≡ true → Has x (add_ends e next) → Result
      now ok n = elim (add_ends-Has e next x n) [
        | inl end ↦ inr (e, inl refl, ok, end)
        | inr k ↦ inl k
      ]

      later :
          (front : List ℕ)
          → Has x front
            ⊎ ((f : Relationship) × Has f es
                × (allowed query.relationship_types f ≡ true)
                × IsEnd f x)
          → Has x front
            ⊎ ((f : Relationship) × Has f (e ∷ es)
                × (allowed query.relationship_types f ≡ true)
                × IsEnd f x)
      later front (inl n) = inl n
      later front (inr (f, k, ok, end)) = inr (f, inr k, ok, end)

  -- A scan never takes anything off the frontier that it builds.
  pub scan_keeps :
      (es : List Relationship) (next : List ℕ) (edges : List Relationship) (x : ℕ)
      → Has x next
      → Has x (scan query visited es next edges).next_frontier
  unfolding scan
  scan_keeps [] next edges x m = m
  scan_keeps (e ∷ es) next edges x m = elim (Bool-cases (allowed query.relationship_types e)) [
    | inr no_type ↦ rw (no_type, scan) (scan_keeps es next edges x m)
    | inl ok ↦ elim (Bool-cases (leb query.max_nodes (length (union visited (add_ends e next))))) [
      | inl full ↦ rw (ok, full, scan) (Has-add_ends e next x m)
      | inr room ↦
          rw (ok, room, scan)
            (scan_keeps es (add_ends e next) (put_edge e edges) x (Has-add_ends e next x m))
    ]
  ]

  -- A scan that is not cut short has both ends of every edge that may be followed.
  pub scan_all :
      (es : List Relationship) (next : List ℕ) (edges : List Relationship) (f : Relationship)
      (x : ℕ)
      → (scan query visited es next edges).truncated ≡ false
      → Has f es
      → allowed query.relationship_types f ≡ true
      → IsEnd f x
      → Has x (scan query visited es next edges).next_frontier
  unfolding scan
  scan_all [] next edges f x t m ok end = absurd m
  scan_all (e ∷ es) next edges f x t m ok end =
      elim (Bool-cases (allowed query.relationship_types e)) [
        | inr no_type ↦ elim m [
          | inl p ↦ absurd (cc)
          | inr k ↦
              rw (no_type, scan) (scan_all es next edges f x (rw (no_type, scan) at t) k ok end)
        ]
        | inl may ↦
            elim (Bool-cases (leb query.max_nodes (length (union visited (add_ends e next))))) [
              | inl full ↦ let cut : true ≡ false = rw (may, full, scan) at t in absurd (cc)
              | inr room ↦
                  rw (may, room, scan)
                    (elim m [
                      | inl p ↦
                          scan_keeps es (add_ends e next) (put_edge e edges) x
                            (IsEnd-add_ends e next x (rw p at end))
                      | inr k ↦
                          scan_all es (add_ends e next) (put_edge e edges) f x
                            (rw (may, room, scan) at t) k ok end
                    ])
            ]
      ]
