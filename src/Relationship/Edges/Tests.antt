-- ===== src/Relationship/Edges/Tests.antt =====
-- The property of a rebuild at a table with no edges and a single candidate.
use sentinel_keyvault.Common.{ℕ, ◌+◌, ◌≡◌, refl, Has, inl, true, List, [], ◌∷◌, Text, codes}
use sentinel_keyvault.Platform.Json.Fields.{end}
use sentinel_keyvault.Relationship.Models.{ResourceNode, Relationship}
use sentinel_keyvault.Relationship.Extract.{EdgeCandidate}
use sentinel_keyvault.Relationship.Edges.{arm_reference, rebuild_edges, resolve}
use sentinel_keyvault.Relationship.Edges.Whole.{Belongs, rebuild_edges_exact}

abbrev node : ℕ → Text → ResourceNode
node n normalized = record {
  id = n;
  tenant_id = 1;
  inventory_resource_id = n;
  azure_resource_id = normalized;
  normalized_resource_id = normalized;
  name = codes "x";
  resource_type = codes "microsoft.x";
  resource_group = codes "g";
  properties = end;
  is_active = true;
}

abbrev to_b : EdgeCandidate
to_b = record {
  target_resource_id = codes "/b";
  relationship_type = codes "references";
  dependency_strength = codes "hard";
  confidence = 1000;
  evidence_path = codes "$.b";
}

abbrev fresh_id : ℕ → ℕ
fresh_id n = n + 100

abbrev nodes : List ResourceNode
nodes = node 10 (codes "/a") ∷ node 11 (codes "/b") ∷ []

abbrev rebuilt : List Relationship
rebuilt = (rebuild_edges 1 (node 10 (codes "/a")) arm_reference fresh_id 5 nodes (to_b ∷ []) []).0

rebuild_edges_exact_example :
    (e : Relationship) × Has e rebuilt
    × Belongs 1 (node 10 (codes "/a")) arm_reference e
    × (e.is_active ≡ true)
    × (e.target_resource_id ≡ 11)
    × (e.relationship_type ≡ codes "references")
unfolding resolve
rebuild_edges_exact_example =
    (rebuild_edges_exact 1 (node 10 (codes "/a")) arm_reference fresh_id 5 nodes (to_b ∷ []) [] tt
        (λ i f m. absurd m)).1
      to_b (node 11 (codes "/b")) (inl refl) refl
