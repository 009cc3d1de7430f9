-- ===== src/Relationship/Graph.antt =====
-- `RelationshipService.graph` of apps/relationship-service/src/sentinel_relationship/service.py:
-- a breadth-first traversal, bounded in depth and in nodes.
pub mod Walks
pub mod Frontier
pub mod Exact
pub mod Bounds
pub mod Response
mod Tests
use sentinel_keyvault.Common.{
  ℕ, zero, suc, Bool, true, false, ◌&&◌, ◌||◌, not, List, [], ◌∷◌, map, Text, text_eq, leb, ◌==◌,
  select, length, member, add, union, minus, if◌then◌else◌,
}
use sentinel_keyvault.Relationship.Models.{
  ResourceNode, Relationship, Direction, GraphQuery, GraphNode, GraphEdge, GraphResponse,
}
use sentinel_keyvault.Relationship.Queries.{edges_for_frontier, get_nodes}

abbrev pub text_member : Text → List Text → Bool
text_member t [] = false
text_member t (u ∷ us) = if text_eq t u then true else text_member t us

-- The test before `continue`, the other way round: with no types given every edge is followed.
abbrev pub allowed : List Text → Relationship → Bool
allowed [] e = true
allowed (t ∷ ts) e = text_member e.relationship_type (t ∷ ts)

-- `edges_by_id[edge.id] = edge`
pub put_edge : Relationship → List Relationship → List Relationship
put_edge e [] = e ∷ []
put_edge e (f ∷ es) = if f.id == e.id then e ∷ es else f ∷ put_edge e es

-- `next_frontier`, `edges_by_id` and `truncated`
pub record Scan : Type 0 where
  pub next_frontier : List ℕ
  pub edges : List Relationship
  pub truncated : Bool

-- `next_frontier.update((edge.source_resource_id, edge.target_resource_id))`
abbrev pub add_ends : Relationship → List ℕ → List ℕ
add_ends e next = add e.target_resource_id (add e.source_resource_id next)

-- The loop over the edges of one frontier.
pub scan : GraphQuery → List ℕ → List Relationship → List ℕ → List Relationship → Scan
unfolding put_edge
scan query visited [] next edges = record { next_frontier = next; edges = edges; truncated = false }
scan query visited (e ∷ es) next edges = elim (allowed query.relationship_types e) [
  | false ↦ scan query visited es next edges
  | true ↦ elim (leb query.max_nodes (length (union visited (add_ends e next)))) [
    | true ↦ record { next_frontier = add_ends e next; edges = put_edge e edges; truncated = true }
    | false ↦ scan query visited es (add_ends e next) (put_edge e edges)
  ]
]

-- `visited`, `edges_by_id` and `truncated` when the outer loop ends
pub record Traversal : Type 0 where
  pub visited : List ℕ
  pub edges : List Relationship
  pub truncated : Bool

abbrev is_empty : List ℕ → Bool
is_empty [] = true
is_empty (x ∷ s) = false

module _ (rows : List Relationship) (tenant_id : ℕ) (query : GraphQuery) where
  -- The outer loop, with the rounds that are left.
  pub traverse : ℕ → List ℕ → List ℕ → List Relationship → Traversal
  unfolding scan
  traverse zero frontier visited edges = record {
    visited = visited;
    edges = edges;
    truncated = false;
  }
  traverse (suc rounds) frontier visited edges =
      let found =
        scan query visited (edges_for_frontier tenant_id frontier query.direction rows) [] edges in
      let next = minus found.next_frontier visited in
      let visited' = union visited next in
      elim (found.truncated || is_empty next) [
        | true ↦ record { visited = visited'; edges = found.edges; truncated = found.truncated }
        | false ↦ traverse rounds next visited' found.edges
      ]

  pub traversal : Traversal
  unfolding traverse
  traversal =
      traverse query.max_depth (query.root_resource_id ∷ []) (query.root_resource_id ∷ []) []

abbrev graph_node : ResourceNode → GraphNode
graph_node n = record {
  id = n.inventory_resource_id;
  label = n.name;
  resource_type = n.resource_type;
  resource_group = n.resource_group;
  azure_resource_id = n.azure_resource_id;
}

abbrev graph_edge : Relationship → GraphEdge
graph_edge e = record {
  id = e.id;
  source = e.source_resource_id;
  target = e.target_resource_id;
  relationship_type = e.relationship_type;
  confidence = e.confidence;
}

pub graph : List ResourceNode → List Relationship → ℕ → GraphQuery → GraphResponse
unfolding traversal
graph nodes rows tenant_id query =
    let result = traversal rows tenant_id query in
    record {
      root_resource_id = query.root_resource_id;
      truncated = result.truncated;
      nodes = map graph_node (get_nodes tenant_id result.visited nodes);
      edges = map graph_edge (
          select
            (λ e.
              member e.source_resource_id result.visited
              && member e.target_resource_id result.visited)
            result.edges);
    }
