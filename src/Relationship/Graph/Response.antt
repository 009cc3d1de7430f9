-- ===== src/Relationship/Graph/Response.antt =====
-- What the response of a graph query shows, against the specification of `Walks`.
use sentinel_keyvault.Common.{
  ℕ, zero, suc, ◌≡◌, refl, inl, inr, true, false, ◌||◌, List, [], ◌∷◌, arith, ◌==◌, leb, length,
  union, minus, member→Has, Has→member, Has, All, All-Has, Has-map, map-Has, Has-select, select-Has,
  ==-refl, Bool-cases,
}
use sentinel_keyvault.Relationship.Models.{
  ResourceNode, Relationship, GraphQuery, GraphNode, GraphEdge,
}
use sentinel_keyvault.Relationship.Queries.{edges_for_frontier, get_nodes}
use sentinel_keyvault.Relationship.Graph.{
  scan, traverse, traversal, allowed, put_edge, add_ends, is_empty, graph, graph_node, graph_edge,
}
use sentinel_keyvault.Relationship.Graph.Walks.{Usable, Within}
use sentinel_keyvault.Relationship.Graph.Frontier.{frontier_edge}
use sentinel_keyvault.Relationship.Graph.Exact.{traversal_sound, traversal_complete}

get_nodes-Has :
    (tenant_id : ℕ) (ids : List ℕ) (nodes : List ResourceNode) (n : ResourceNode)
    → Has n (get_nodes tenant_id ids nodes)
    → Has n nodes × (n.tenant_id ≡ tenant_id) × Has n.inventory_resource_id ids
unfolding get_nodes
get_nodes-Has tenant_id [] nodes n m = absurd m
get_nodes-Has tenant_id (i ∷ ids) nodes n m =
    let (h, t) = select-Has _ nodes m in
    (h, ground arith, member→Has n.inventory_resource_id (i ∷ ids) (ground arith))

Has-get_nodes :
    (tenant_id : ℕ) (ids : List ℕ) (nodes : List ResourceNode) (n : ResourceNode)
    → Has n nodes
    → n.tenant_id ≡ tenant_id
    → Has n.inventory_resource_id ids
    → Has n (get_nodes tenant_id ids nodes)
unfolding get_nodes
Has-get_nodes tenant_id [] nodes n m t k = absurd k
Has-get_nodes tenant_id (i ∷ ids) nodes n m t k =
    Has-select _ nodes m
      (ground (arith, Has→member n.inventory_resource_id (i ∷ ids) k, ==-refl tenant_id))

put_edge-All :
    (P : Relationship → Type 0) (e : Relationship) (es : List Relationship)
    → P e
    → All P es
    → All P (put_edge e es)
unfolding put_edge
put_edge-All P e [] p h = (p, tt)
put_edge-All P e (f ∷ es) p h = elim (Bool-cases (f.id == e.id)) [
  | inl q ↦ rw q (p, h.1)
  | inr q ↦ rw q (h.0, put_edge-All P e es p h.1)
]

module _ (rows : List Relationship) (tenant_id : ℕ) (query : GraphQuery) where
  scan-Usable :
      (visited : List ℕ) (es : List Relationship) (next : List ℕ) (edges : List Relationship)
      → ((e : Relationship)
          → Has e es
          → allowed query.relationship_types e ≡ true
          → Usable rows tenant_id query e)
      → All (Usable rows tenant_id query) edges
      → All (Usable rows tenant_id query) (scan query visited es next edges).edges
  unfolding scan
  scan-Usable visited [] next edges u h = h
  scan-Usable visited (e ∷ es) next edges u h =
      elim (Bool-cases (allowed query.relationship_types e)) [
        | inr no_type ↦
            rw (no_type, scan) (scan-Usable visited es next edges (λ f m. u f (inr m)) h)
        | inl ok ↦
            let h' = put_edge-All (Usable rows tenant_id query) e edges (u e (inl refl) ok) h in
            elim (Bool-cases (leb query.max_nodes (length (union visited (add_ends e next))))) [
              | inl full ↦ rw (ok, full, scan) h'
              | inr room ↦
                  rw (ok, room, scan)
                    (scan-Usable visited es (add_ends e next) (put_edge e edges)
                      (λ f m. u f (inr m)) h')
            ]
      ]

  traverse-Usable :
      (rounds : ℕ) (frontier visited : List ℕ) (edges : List Relationship)
      → All (Usable rows tenant_id query) edges
      → All
          (Usable rows tenant_id query)
          (traverse rows tenant_id query rounds frontier visited edges).edges
  unfolding traverse
  traverse-Usable zero frontier visited edges h = h
  traverse-Usable (suc rounds) frontier visited edges h =
      let es = edges_for_frontier tenant_id frontier query.direction rows in
      let found = scan query visited es [] edges in
      let next = minus found.next_frontier visited in
      let h' =
        scan-Usable visited es [] edges
          (λ e m ok.
            (frontier_edge rows tenant_id query frontier e e.source_resource_id m ok (inl refl)).0)
          h in
      elim (Bool-cases (found.truncated || is_empty next)) [
        | inl done ↦ rw (done, traverse) h'
        | inr more ↦
            rw (more, traverse) (traverse-Usable rounds next (union visited next) found.edges h')
      ]

  traversal-Usable : All (Usable rows tenant_id query) (traversal rows tenant_id query).edges
  unfolding traversal
  traversal-Usable =
      traverse-Usable query.max_depth (query.root_resource_id ∷ []) (query.root_resource_id ∷ []) []
        tt

-- Every node of the response is a stored node of the tenant, and its resource is reached from the
-- root in at most `max_depth` hops over active edges of the tenant, in the direction and of the
-- types that were asked for.
pub graph_nodes_sound :
    (nodes : List ResourceNode) (rows : List Relationship) (tenant_id : ℕ) (query : GraphQuery)
    (g : GraphNode)
    → Has g (graph nodes rows tenant_id query).nodes
    → (n : ResourceNode) × Has n nodes
      × (n.tenant_id ≡ tenant_id)
      × (g ≡ graph_node n)
      × Within rows tenant_id query query.max_depth n.inventory_resource_id
unfolding graph
graph_nodes_sound nodes rows tenant_id query g m =
    let visited = (traversal rows tenant_id query).visited in
    let (n, k, e) = map-Has graph_node (get_nodes tenant_id visited nodes) g m in
    let (h, t, v) = get_nodes-Has tenant_id visited nodes n k in
    (n, h, t, e, traversal_sound rows tenant_id query n.inventory_resource_id v)

-- A response that is not marked as truncated shows every stored node of the tenant whose resource
-- is reached from the root in at most `max_depth` hops over active edges of the tenant, in the
-- direction and of the types that were asked for.
pub graph_nodes_complete :
    (nodes : List ResourceNode) (rows : List Relationship) (tenant_id : ℕ) (query : GraphQuery)
    (n : ResourceNode)
    → (graph nodes rows tenant_id query).truncated ≡ false
    → Has n nodes
    → n.tenant_id ≡ tenant_id
    → Within rows tenant_id query query.max_depth n.inventory_resource_id
    → Has (graph_node n) (graph nodes rows tenant_id query).nodes
unfolding graph
graph_nodes_complete nodes rows tenant_id query n full m t w =
    let visited = (traversal rows tenant_id query).visited in
    Has-map graph_node (get_nodes tenant_id visited nodes) n (
      Has-get_nodes tenant_id visited nodes n m t
        (traversal_complete rows tenant_id query n.inventory_resource_id full w))

-- Every edge of the response is an active edge of the tenant, of a type that was asked for, and
-- both its ends are reached from the root in at most `max_depth` hops.
pub graph_edges_sound :
    (nodes : List ResourceNode) (rows : List Relationship) (tenant_id : ℕ) (query : GraphQuery)
    (g : GraphEdge)
    → Has g (graph nodes rows tenant_id query).edges
    → (e : Relationship) × Usable rows tenant_id query e
      × (g ≡ graph_edge e)
      × Within rows tenant_id query query.max_depth e.source_resource_id
      × Within rows tenant_id query query.max_depth e.target_resource_id
unfolding graph
graph_edges_sound nodes rows tenant_id query g m =
    let result = traversal rows tenant_id query in
    let (e, k, eq) = map-Has graph_edge _ g m in
    let (h, ends) = select-Has _ result.edges k in
    (
      e,
      All-Has (Usable rows tenant_id query) result.edges (traversal-Usable rows tenant_id query) h,
      eq,
      traversal_sound rows tenant_id query e.source_resource_id
          (member→Has _ result.visited (ground arith)),
      traversal_sound rows tenant_id query e.target_resource_id
          (member→Has _ result.visited (ground arith)),
    )
