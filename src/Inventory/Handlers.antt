-- ===== src/Inventory/Handlers.antt =====
-- The handlers of apps/inventory-service/src/sentinel_inventory/main.py and
-- `resource_or_404` of service.py. `get_actor` is the outcome of that dependency. A handler
-- that raises leaves the tables as they were.
use sentinel_keyvault.Common.{ℕ, Option, some, List, ◌++◌, Text, codes, length}
use sentinel_keyvault.Platform.Json.{Json, Fields}
use sentinel_keyvault.Platform.Events.{AuditEvent}
use sentinel_keyvault.Platform.Outbox.{OutboxRecord, enqueue_audit}
use sentinel_keyvault.Platform.Reply.{Reply, reply, refused, raised, ◌>>=◌, require}
use sentinel_keyvault.Platform.Actor.{ActorContext, require_permission}
use sentinel_keyvault.Inventory.Models.{Resource, SyncJob, AzureSubscription, Store}
use sentinel_keyvault.Inventory.Listing
use sentinel_keyvault.Inventory.Listing.{ResourceFilters}
use sentinel_keyvault.Inventory.Jobs.{JobRequest, request_sync}
use sentinel_keyvault.Inventory.Azure
use sentinel_keyvault.Inventory.Responses.{
  each, ResourcePage, resource_response, ResourceResponse, SubscriptionResponse,
  subscription_response, ResourceGroupResponse, group_response, SyncJobResponse, job_response,
}

abbrev pub read_inventory : Reply ActorContext → Reply ActorContext
read_inventory = require_permission (codes "inventory.resources.read")

abbrev pub sync_inventory : Reply ActorContext → Reply ActorContext
sync_inventory = require_permission (codes "inventory.sync.execute")

-- The handler `list_resources`; a malformed cursor raises in the repository.
unfoldable pub list_resources :
    (ℕ → Text)
    → (Text → Option ℕ)
    → Reply ActorContext
    → ResourceFilters
    → Option Text
    → ℕ
    → Store
    → Reply ResourcePage
list_resources encode decode get_actor filters cursor limit store = do
  actor ← read_inventory get_actor
  (rows, next_cursor) ←
      require raised
        (Listing.list_resources encode decode actor.tenant_id filters cursor limit store.resources)
  reply record { items = each resource_response rows; next_cursor = next_cursor; limit = limit }

unfoldable pub resource_or_404 : ℕ → ℕ → List Resource → Reply Resource
resource_or_404 tenant_id resource_id resources =
    require (refused 404 (Json.str (codes "Resource not found")))
      (Listing.get_resource tenant_id resource_id resources)

-- The handler `get_resource`
unfoldable pub get_resource : Reply ActorContext → ℕ → Store → Reply ResourceResponse
unfolding resource_or_404
get_resource get_actor resource_id store = do
  actor ← read_inventory get_actor
  resource ← resource_or_404 actor.tenant_id resource_id store.resources
  reply (resource_response resource)

-- The handler `subscriptions`
unfoldable pub subscriptions : Reply ActorContext → Store → Reply (List SubscriptionResponse)
subscriptions get_actor store = do
  actor ← read_inventory get_actor
  reply
      (each subscription_response (Listing.list_subscriptions actor.tenant_id store.subscriptions))

-- The handler `discover_subscriptions`; `listed` is what the provider lists for the actor, and
-- `none` its exception.
unfoldable pub discover_subscriptions :
    Reply ActorContext
    → (ActorContext → Option (List AzureSubscription))
    → Store
    → Reply (List SubscriptionResponse × Store)
discover_subscriptions get_actor listed store = do
  actor ← sync_inventory get_actor
  discovered ← require raised (listed actor)
  let (rows, store') = Azure.discover_subscriptions actor.tenant_id discovered store
  reply (each subscription_response rows, store')

-- The handler `resource_groups`
unfoldable pub resource_groups : Reply ActorContext → Store → Reply (List ResourceGroupResponse)
resource_groups get_actor store = do
  actor ← read_inventory get_actor
  reply (each group_response (Listing.list_resource_groups actor.tenant_id store.groups))

-- The body `SyncJobCreate`, with the header `Idempotency-Key`.
pub record SyncJobCreate : Type 0 where
  pub subscription_ids : List ℕ
  pub mode : Text
  pub idempotency_key : Text

-- `print` is Python's `str` of a UUID, and `digits` that of a number.
module _ (print : ℕ → Text) (digits : ℕ → Text) where
  abbrev pub requested_event : ℕ → ℕ → ActorContext → SyncJobCreate → SyncJob → AuditEvent
  requested_event event_id now actor request job = record {
    event = record {
      specversion = codes "1.0";
      id = event_id;
      source = codes "inventory-service";
      type = codes "inventory.sync-requested.v1";
      subject = codes "sync-job/" ++ print job.id;
      time = now;
      datacontenttype = codes "application/json";
      tenant_id = actor.tenant_id;
      correlation_id = actor.correlation_id;
      payload = Json.obj (
          Fields.field (codes "mode") (Json.str request.mode) (
            Fields.field (codes "subscription_count")
              (Json.number (digits (length request.subscription_ids))) Fields.end));
    };
    actor_type = codes "user";
    actor_id = print actor.actor_id;
    action = codes "inventory.sync.request";
    entity_type = codes "sync_job";
    entity_id = some (print job.id);
    outcome = codes "accepted";
  }

  abbrev pub job_request : ActorContext → SyncJobCreate → ℕ → JobRequest
  job_request actor request requested_at = record {
    tenant_id = actor.tenant_id;
    actor_id = actor.actor_id;
    entra_tenant_id = actor.entra_tenant_id;
    mode = request.mode;
    subscription_ids = request.subscription_ids;
    correlation_id = actor.correlation_id;
    idempotency_key = request.idempotency_key;
    requested_at = requested_at;
  }

  -- The handler `create_sync_job`: its answer, the tables and the outbox. `requested_at` is in
  -- seconds and `now` in microseconds.
  unfoldable pub create_sync_job :
      ℕ
      → ℕ
      → ℕ
      → ℕ
      → Reply ActorContext
      → SyncJobCreate
      → Store
      → List OutboxRecord
      → Reply (SyncJobResponse × Store × List OutboxRecord)
  create_sync_job event_id row_id requested_at now get_actor request store outbox = do
    actor ← sync_inventory get_actor
    (job, store') ←
        require (refused 422 (Json.str (codes "Scope contains unregistered subscriptions")))
          (request_sync (job_request actor request requested_at) store)
    reply (
      job_response job,
      store',
      enqueue_audit row_id now (codes "audit") (requested_event event_id now actor request job)
          outbox,
    )
