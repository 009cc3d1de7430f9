-- ===== src/Relationship/Queries.antt =====
-- The queries of apps/relationship-service/src/sentinel_relationship/repository.py. A table is a
-- list of rows in the order in which the database returns them.
pub mod Listing
use sentinel_keyvault.Common.{
  order_by, take, ◌*◌, ◌^◌, leb, Option, none, some, Text, true, text_eq, ℕ, Bool, ◌&&◌, ◌||◌, List,
  [], ◌∷◌, ◌==◌, select, member,
}
use sentinel_keyvault.Relationship.Models.{
  ResourceNode, Relationship, Direction, upstream, downstream, both,
}

-- The `where` on the ends of an edge, for a test of ids.
abbrev pub touches : Direction → (ℕ → Bool) → Relationship → Bool
touches downstream inside e = inside e.source_resource_id
touches upstream inside e = inside e.target_resource_id
touches both inside e = inside e.source_resource_id || inside e.target_resource_id

unfoldable pub edges_for_frontier : ℕ → List ℕ → Direction → List Relationship → List Relationship
edges_for_frontier tenant_id frontier direction =
    select (λ e.
      e.tenant_id == tenant_id && (e.is_active && touches direction (λ i. member i frontier) e))

unfoldable pub get_nodes : ℕ → List ℕ → List ResourceNode → List ResourceNode
get_nodes tenant_id [] nodes = []
get_nodes tenant_id (i ∷ ids) nodes =
    select (λ n. n.tenant_id == tenant_id && member n.inventory_resource_id (i ∷ ids)) nodes

unfoldable pub list_nodes : ℕ → List ResourceNode → List ResourceNode
list_nodes tenant_id = select (λ n. n.tenant_id == tenant_id && n.is_active)

-- `Decimal(str(minimum_confidence))`: the digits, and how many stand after the point.
pub record Decimal : Type 0 where
  pub digits : ℕ
  pub places : ℕ

-- `confidence >= minimum`, with the confidence in thousandths.
abbrev pub is_confident : Decimal → ℕ → Bool
is_confident minimum confidence = leb (minimum.digits * 1000) (confidence * 10 ^ minimum.places)

-- An absent or empty text is no condition.
abbrev pub type_filter : Option Text → Text → Bool
type_filter none t = true
type_filter (some []) t = true
type_filter (some (c ∷ cs)) t = text_eq t (c ∷ cs)

abbrev pub end_filter : Option ℕ → Direction → Relationship → Bool
end_filter none direction e = true
end_filter (some i) direction e = touches direction (λ j. j == i) e

abbrev pub is_listed : ℕ → Option ℕ → Direction → Option Text → Decimal → Relationship → Bool
is_listed tenant_id resource_id direction relationship_type minimum e =
    e.tenant_id == tenant_id
    && e.is_active
    && is_confident minimum e.confidence
    && end_filter resource_id direction e
    && type_filter relationship_type e.relationship_type

abbrev pub by_id : Relationship → Relationship → Bool
by_id e f = leb e.id f.id

unfoldable pub list_edges :
    ℕ → Option ℕ → Direction → Option Text → Decimal → List Relationship → List Relationship
list_edges tenant_id resource_id direction relationship_type minimum rows = take 2000 (
    order_by by_id
      (select (is_listed tenant_id resource_id direction relationship_type minimum) rows))
