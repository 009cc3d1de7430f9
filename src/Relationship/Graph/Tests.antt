-- ===== src/Relationship/Graph/Tests.antt =====
-- The properties of the graph endpoint and of the listing at a graph of two nodes.
use sentinel_keyvault.Common.{
  some, none, IsOrdered, ℕ, ◌≡◌, ◌≤◌, refl, inl, inr, true, List, [], ◌∷◌, codes, Has, Distinct,
  length, id_of,
}
use sentinel_keyvault.Platform.Json.Fields.{end}
use sentinel_keyvault.Relationship.Models.{ResourceNode, Relationship, downstream, GraphQuery}
use sentinel_keyvault.Relationship.Queries.Listing.{list_edges_lem}
use sentinel_keyvault.Relationship.Queries.{
  Decimal, by_id, list_edges, edges_for_frontier, get_nodes,
}
use sentinel_keyvault.Relationship.Graph.{graph, graph_node, graph_edge, traversal}
use sentinel_keyvault.Relationship.Graph.Walks.{Within, Usable}
use sentinel_keyvault.Relationship.Graph.Bounds.{traversal_bound}
use sentinel_keyvault.Relationship.Graph.Response.{
  graph_nodes_sound, graph_nodes_complete, graph_edges_sound,
}

abbrev node : ℕ → ResourceNode
node n = record {
  id = n;
  tenant_id = 1;
  inventory_resource_id = n;
  azure_resource_id = codes "/X";
  normalized_resource_id = codes "/x";
  name = codes "x";
  resource_type = codes "microsoft.x";
  resource_group = codes "g";
  properties = end;
  is_active = true;
}

abbrev edge : Relationship
edge = record {
  id = 5;
  tenant_id = 1;
  source_resource_id = 10;
  target_resource_id = 11;
  relationship_type = codes "references";
  source_system = codes "arm";
  dependency_strength = codes "hard";
  confidence = 1000;
  evidence = end;
  extractor_name = codes "arm-reference";
  extractor_version = codes "1.0.0";
  is_active = true;
  first_observed_at = 0;
  last_observed_at = 0;
}

abbrev query : GraphQuery
query = record {
  root_resource_id = 10;
  direction = downstream;
  max_depth = 2;
  max_nodes = 10;
  relationship_types = [];
}

abbrev nodes : List ResourceNode
nodes = node 10 ∷ node 11 ∷ []

abbrev edges : List Relationship
edges = edge ∷ []

traversal_bound_example :
    Distinct id_of (traversal edges 1 query).visited
    × (length (traversal edges 1 query).visited ≤ 10)
traversal_bound_example = traversal_bound edges 1 query

graph_nodes_sound_example :
    (n : ResourceNode) × Has n nodes
    × (n.tenant_id ≡ 1)
    × (graph_node (node 11) ≡ graph_node n)
    × Within edges 1 query 2 n.inventory_resource_id
unfolding graph get_nodes edges_for_frontier
graph_nodes_sound_example =
    graph_nodes_sound nodes edges 1 query (graph_node (node 11)) (inr (inl refl))

graph_nodes_complete_example : Has (graph_node (node 11)) (graph nodes edges 1 query).nodes
unfolding graph edges_for_frontier
graph_nodes_complete_example =
    graph_nodes_complete nodes edges 1 query (node 11) refl (inr (inl refl)) refl
      (inl (inr (10, refl, (edge, (inl refl, refl, refl, refl), (refl, refl)))))

graph_edges_sound_example :
    (e : Relationship) × Usable edges 1 query e
    × (graph_edge edge ≡ graph_edge e)
    × Within edges 1 query 2 e.source_resource_id
    × Within edges 1 query 2 e.target_resource_id
unfolding graph edges_for_frontier
graph_edges_sound_example = graph_edges_sound nodes edges 1 query (graph_edge edge) (inl refl)

abbrev half : Decimal
half = record { digits = 5; places = 1 }

list_edges_lem_example : IsOrdered by_id (list_edges 1 (some 10) downstream none half edges)
list_edges_lem_example = (list_edges_lem 1 (some 10) downstream none half edges).0
