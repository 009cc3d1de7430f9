-- ===== src/Inventory/Models.antt =====
-- apps/inventory-service/src/sentinel_inventory/models.py and the rows that the queries of
-- azure.py return. Instants are whole seconds.
use sentinel_keyvault.Common.{ℕ, Option, List, Text, Bool, true, false}
use sentinel_keyvault.Platform.Json.{Json}

pub record Subscription : Type 0 where
  pub id : ℕ
  pub tenant_id : ℕ
  pub azure_subscription_id : ℕ
  pub display_name : Text
  pub state : Text
  pub management_group_id : Option Text
  pub last_sync_at : Option ℕ
  pub version : ℕ

pub record ResourceGroup : Type 0 where
  pub id : ℕ
  pub tenant_id : ℕ
  pub subscription_id : ℕ
  pub name : Text
  pub normalized_name : Text
  pub location : Option Text
  pub tags : Json
  pub state : Text
  pub last_seen_at : ℕ

-- `resource_state_enum`
pub data ResourceState : Type 0 where
  active : ResourceState
  missing : ResourceState
  deleted : ResourceState
  inaccessible : ResourceState

abbrev pub same_state : ResourceState → ResourceState → Bool
same_state active active = true
same_state missing missing = true
same_state deleted deleted = true
same_state inaccessible inaccessible = true
same_state _ _ = false

pub record Resource : Type 0 where
  pub id : ℕ
  pub tenant_id : ℕ
  pub subscription_id : ℕ
  pub azure_resource_id : Text
  pub normalized_resource_id : Text
  pub resource_type : Text
  pub name : Text
  pub resource_group : Text
  pub location : Option Text
  pub kind : Option Text
  pub sku : Option Text
  pub tags : Json
  pub properties : Json
  pub source_etag : Option Text
  pub provisioning_state : Option Text
  pub state : ResourceState
  pub first_seen_at : ℕ
  pub last_seen_at : ℕ
  pub missing_since : Option ℕ
  pub deleted_at : Option ℕ
  pub version : ℕ

-- The texts that the code assigns to `SyncJob.status`.
pub data JobStatus : Type 0 where
  queued : JobStatus
  running : JobStatus
  completed : JobStatus
  failed : JobStatus

pub record SyncJob : Type 0 where
  pub id : ℕ
  pub tenant_id : ℕ
  pub requested_by : ℕ
  pub mode : Text
  pub subscription_ids : List ℕ
  pub entra_tenant_id : ℕ
  pub idempotency_key : Text
  pub status : JobStatus
  pub resources_seen : ℕ
  pub resources_changed : ℕ
  pub error_summary : Option Text
  pub correlation_id : ℕ
  pub requested_at : ℕ
  pub started_at : Option ℕ
  pub completed_at : Option ℕ
  pub heartbeat_at : Option ℕ

-- `AzureSubscription` of azure.py.
pub record AzureSubscription : Type 0 where
  pub subscription_id : ℕ
  pub display_name : Text
  pub state : Text

-- A row of `INVENTORY_QUERY`: the columns that it projects. `sku` is the printed value.
pub record AzureRow : Type 0 where
  pub id : Text
  pub name : Option Text
  pub type_name : Option Text
  pub subscription_id : ℕ
  pub resource_group : Option Text
  pub location : Option Text
  pub kind : Option Text
  pub sku : Option Text
  pub tags : Option Json
  pub properties : Option Json

-- The tables of the service. `next_id` is the next fresh primary key.
pub record Store : Type 0 where
  pub subscriptions : List Subscription
  pub groups : List ResourceGroup
  pub resources : List Resource
  pub jobs : List SyncJob
  pub next_id : ℕ
