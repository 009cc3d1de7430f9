-- ===== src/Inventory/Responses.antt =====
-- apps/inventory-service/src/sentinel_inventory/schemas.py: the answers of the handlers.
use sentinel_keyvault.Common.{ℕ, Option, List, [], ◌∷◌, Text}
use sentinel_keyvault.Platform.Json.{Json}
use sentinel_keyvault.Inventory.Models.{
  Resource, ResourceState, ResourceGroup, Subscription, SyncJob, JobStatus,
}

pub record ResourceResponse : Type 0 where
  pub id : ℕ
  pub subscription_id : ℕ
  pub azure_resource_id : Text
  pub resource_type : Text
  pub name : Text
  pub resource_group : Text
  pub location : Option Text
  pub kind : Option Text
  pub sku : Option Text
  pub tags : Json
  pub properties : Json
  pub provisioning_state : Option Text
  pub state : ResourceState
  pub last_seen_at : ℕ

abbrev pub resource_response : Resource → ResourceResponse
resource_response r = record {
  id = r.id;
  subscription_id = r.subscription_id;
  azure_resource_id = r.azure_resource_id;
  resource_type = r.resource_type;
  name = r.name;
  resource_group = r.resource_group;
  location = r.location;
  kind = r.kind;
  sku = r.sku;
  tags = r.tags;
  properties = r.properties;
  provisioning_state = r.provisioning_state;
  state = r.state;
  last_seen_at = r.last_seen_at;
}

abbrev pub each : {A B : Type 0} → (A → B) → List A → List B
each f [] = []
each f (x ∷ xs) = f x ∷ each f xs

pub record ResourcePage : Type 0 where
  pub items : List ResourceResponse
  pub next_cursor : Option Text
  pub limit : ℕ

pub record SubscriptionResponse : Type 0 where
  pub id : ℕ
  pub azure_subscription_id : ℕ
  pub display_name : Text
  pub state : Text
  pub last_sync_at : Option ℕ

abbrev pub subscription_response : Subscription → SubscriptionResponse
subscription_response s = record {
  id = s.id;
  azure_subscription_id = s.azure_subscription_id;
  display_name = s.display_name;
  state = s.state;
  last_sync_at = s.last_sync_at;
}

pub record ResourceGroupResponse : Type 0 where
  pub id : ℕ
  pub subscription_id : ℕ
  pub name : Text
  pub location : Option Text
  pub tags : Json
  pub state : Text

abbrev pub group_response : ResourceGroup → ResourceGroupResponse
group_response g = record {
  id = g.id;
  subscription_id = g.subscription_id;
  name = g.name;
  location = g.location;
  tags = g.tags;
  state = g.state;
}

pub record SyncJobResponse : Type 0 where
  pub id : ℕ
  pub mode : Text
  pub status : JobStatus
  pub resources_seen : ℕ
  pub resources_changed : ℕ
  pub requested_at : ℕ
  pub started_at : Option ℕ
  pub completed_at : Option ℕ
  pub error_summary : Option Text

abbrev pub job_response : SyncJob → SyncJobResponse
job_response j = record {
  id = j.id;
  mode = j.mode;
  status = j.status;
  resources_seen = j.resources_seen;
  resources_changed = j.resources_changed;
  requested_at = j.requested_at;
  started_at = j.started_at;
  completed_at = j.completed_at;
  error_summary = j.error_summary;
}
