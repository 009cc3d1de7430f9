-- ===== src/Relationship/Edges.antt =====
-- `upsert_node` and `rebuild_edges` of
-- apps/relationship-service/src/sentinel_relationship/repository.py, and the methods of service.py
-- that call them.
pub mod Rebuild
pub mod Exact
pub mod Whole
mod Tests
use sentinel_keyvault.Common.{
  ℕ, zero, suc, ◌+◌, Bool, true, false, ◌&&◌, Option, none, some, List, [], ◌∷◌, ◌++◌, map, Text,
  codes, text_eq, lower, ◌==◌, find, select, modify, write, if◌then◌else◌,
}
use sentinel_keyvault.Platform.Json.{str, Fields, end, field}
use sentinel_keyvault.Relationship.Models.{ResourceNode, Relationship}
use sentinel_keyvault.Relationship.Queries.{list_nodes}
use sentinel_keyvault.Relationship.Extract.{EdgeCandidate, supports, extract}

-- `ResourceProjectionEvent` of schemas.py
pub record ResourceProjectionEvent : Type 0 where
  pub tenant_id : ℕ
  pub inventory_resource_id : ℕ
  pub azure_resource_id : Text
  pub name : Text
  pub resource_type : Text
  pub resource_group : Text
  pub properties : Fields

abbrev pub is_node : ℕ → ℕ → ResourceNode → Bool
is_node tenant_id inventory_resource_id n =
    n.tenant_id == tenant_id && n.inventory_resource_id == inventory_resource_id

abbrev new_node : ℕ → ResourceProjectionEvent → ResourceNode
new_node id event = record {
  id = id;
  tenant_id = event.tenant_id;
  inventory_resource_id = event.inventory_resource_id;
  azure_resource_id = event.azure_resource_id;
  normalized_resource_id = lower event.azure_resource_id;
  name = event.name;
  resource_type = lower event.resource_type;
  resource_group = event.resource_group;
  properties = event.properties;
  is_active = true;
}

-- The assignments to a node that is there already.
abbrev updated_node : ResourceProjectionEvent → ResourceNode → ResourceNode
updated_node event n = record n {
  name = event.name;
  resource_type = lower event.resource_type;
  resource_group = event.resource_group;
  properties = event.properties;
  is_active = true;
}

-- The node, and the table after the flush. `id` is the key that a new row gets.
pub upsert_node : ℕ → ResourceProjectionEvent → List ResourceNode → ResourceNode × List ResourceNode
upsert_node id event nodes =
    let known = is_node event.tenant_id event.inventory_resource_id in
    elim (find known nodes) [
      | none ↦ (new_node id event, nodes ++ new_node id event ∷ [])
      | some n ↦ (updated_node event n, modify known (updated_node event) nodes)
    ]

-- `extractor.name` and `extractor.version`
pub record ExtractorName : Type 0 where
  pub name : Text
  pub version : Text

-- The class attributes of `ArmReferenceExtractor`.
abbrev pub arm_reference : ExtractorName
arm_reference = record { name = codes "arm-reference"; version = codes "1.0.0" }

abbrev evidence_of : EdgeCandidate → Fields
evidence_of c = field (codes "path") (str c.evidence_path) end

abbrev pub refreshed : ℕ → EdgeCandidate → Relationship → Relationship
refreshed now c e = record e { is_active = true; last_observed_at = now; evidence = evidence_of c }

abbrev pub connects : EdgeCandidate → ResourceNode → Relationship → Bool
connects c t e =
    e.target_resource_id == t.inventory_resource_id
    && text_eq e.relationship_type c.relationship_type

module _ (tenant_id : ℕ) (source : ResourceNode) (extractor : ExtractorName) where
  -- The `where` of `current`.
  abbrev pub in_scope : Relationship → Bool
  in_scope e =
      e.tenant_id == tenant_id
      && (e.source_resource_id == source.inventory_resource_id
          && text_eq e.extractor_name extractor.name)

  -- The target of a candidate, if it is stored and is not the source itself.
  pub resolve : List ResourceNode → EdgeCandidate → Option ResourceNode
  resolve nodes c =
      elim (find
        (λ n. n.tenant_id == tenant_id && text_eq n.normalized_resource_id c.target_resource_id)
        nodes) [
          | none ↦ none
          | some t ↦
              if t.inventory_resource_id == source.inventory_resource_id then none else some t
        ]

  abbrev pub new_edge : ℕ → ℕ → EdgeCandidate → ResourceNode → Relationship
  new_edge id now c t = record {
    id = id;
    tenant_id = tenant_id;
    source_resource_id = source.inventory_resource_id;
    target_resource_id = t.inventory_resource_id;
    relationship_type = c.relationship_type;
    source_system = codes "azure-resource-properties";
    dependency_strength = c.dependency_strength;
    confidence = c.confidence;
    evidence = evidence_of c;
    extractor_name = extractor.name;
    extractor_version = extractor.version;
    is_active = true;
    first_observed_at = now;
    last_observed_at = now;
  }

  module _ (uuid4 : ℕ → ℕ) (now : ℕ) (nodes : List ResourceNode) (current : List Relationship) where
    -- The body of the loop over the candidates, on the table and `changed`. The new rows take the
    -- ids `uuid4 0`, `uuid4 1` and so on.
    pub place : EdgeCandidate → List Relationship × ℕ → List Relationship × ℕ
    unfolding resolve
    place c (rows, changed) = elim (resolve nodes c) [
      | none ↦ (rows, changed)
      | some t ↦ elim (find (connects c t) current) [
        | none ↦ (rows ++ new_edge (uuid4 changed) now c t ∷ [], changed + 1)
        | some e ↦ (modify (λ row. row.id == e.id) (refreshed now c) rows, changed)
      ]
    ]

    pub place_all : List EdgeCandidate → List Relationship × ℕ → List Relationship × ℕ
    unfolding place
    place_all [] state = state
    place_all (c ∷ cs) state = place_all cs (place c state)

  abbrev pub deactivate : Relationship → Relationship
  deactivate e = if in_scope e then record e { is_active = false } else e

  -- The table and the number of new edges.
  pub rebuild_edges :
      (ℕ → ℕ)
      → ℕ
      → List ResourceNode
      → List EdgeCandidate
      → List Relationship
      → List Relationship × ℕ
  unfolding place_all
  rebuild_edges uuid4 now nodes candidates rows =
      place_all uuid4 now nodes (select in_scope rows) candidates (map deactivate rows, 0)

-- `project_and_extract`, with the one extractor of `DEFAULT_EXTRACTORS`: the tables, and the number
-- of new edges.
pub project_and_extract :
    ℕ
    → (ℕ → ℕ)
    → ℕ
    → ResourceProjectionEvent
    → List ResourceNode
    → List Relationship
    → List ResourceNode × List Relationship × ℕ
unfolding upsert_node rebuild_edges
project_and_extract id uuid4 now event nodes rows =
    let (node, nodes') = upsert_node id event nodes in
    if supports node.resource_type
    then (let (rows', changed) =
          rebuild_edges event.tenant_id node arm_reference uuid4 now nodes'
            (extract node.properties) rows in
        (nodes', rows', changed))
    else (nodes', rows, 0)

-- The loop of `rebuild_all`; the new rows of each node take ids of their own.
pub rebuild_each :
    ℕ
    → (ℕ → ℕ → ℕ)
    → ℕ
    → List ResourceNode
    → List ResourceNode
    → List Relationship × ℕ
    → List Relationship × ℕ
unfolding rebuild_edges
rebuild_each tenant_id uuid4 now nodes [] state = state
rebuild_each tenant_id uuid4 now nodes (node ∷ rest) (rows, changed) =
    rebuild_each tenant_id uuid4 now nodes rest (
      if supports node.resource_type
      then (let (rows', more) =
            rebuild_edges tenant_id node arm_reference (uuid4 node.id) now nodes
              (extract node.properties) rows in
          (rows', changed + more))
      else (rows, changed))

pub rebuild_all :
    ℕ → (ℕ → ℕ → ℕ) → ℕ → List ResourceNode → List Relationship → List Relationship × ℕ
unfolding rebuild_each
rebuild_all tenant_id uuid4 now nodes rows =
    rebuild_each tenant_id uuid4 now nodes (list_nodes tenant_id nodes) (rows, 0)
