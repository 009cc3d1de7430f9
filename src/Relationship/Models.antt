-- ===== src/Relationship/Models.antt =====
-- apps/relationship-service/src/sentinel_relationship/models.py and the query of schemas.py.
-- `confidence` is in thousandths, as the column is `Numeric(4, 3)`.
use sentinel_keyvault.Common.{ℕ, Bool, List, Text}
use sentinel_keyvault.Platform.Json.{Fields}

pub record ResourceNode : Type 0 where
  pub id : ℕ
  pub tenant_id : ℕ
  pub inventory_resource_id : ℕ
  pub azure_resource_id : Text
  pub normalized_resource_id : Text
  pub name : Text
  pub resource_type : Text
  pub resource_group : Text
  pub properties : Fields
  pub is_active : Bool

pub record Relationship : Type 0 where
  pub id : ℕ
  pub tenant_id : ℕ
  pub source_resource_id : ℕ
  pub target_resource_id : ℕ
  pub relationship_type : Text
  pub source_system : Text
  pub dependency_strength : Text
  pub confidence : ℕ
  pub evidence : Fields
  pub extractor_name : Text
  pub extractor_version : Text
  pub is_active : Bool
  pub first_observed_at : ℕ
  pub last_observed_at : ℕ

pub data Direction : Type 0 where
  upstream downstream both : Direction

pub record GraphQuery : Type 0 where
  pub root_resource_id : ℕ
  pub direction : Direction
  pub max_depth : ℕ
  pub max_nodes : ℕ
  pub relationship_types : List Text

pub record GraphNode : Type 0 where
  pub id : ℕ
  pub label : Text
  pub resource_type : Text
  pub resource_group : Text
  pub azure_resource_id : Text

pub record GraphEdge : Type 0 where
  pub id : ℕ
  pub source : ℕ
  pub target : ℕ
  pub relationship_type : Text
  pub confidence : ℕ

pub record GraphResponse : Type 0 where
  pub root_resource_id : ℕ
  pub truncated : Bool
  pub nodes : List GraphNode
  pub edges : List GraphEdge
