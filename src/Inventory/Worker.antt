-- ===== src/Inventory/Worker.antt =====
-- `run_once` of apps/inventory-service/src/sentinel_inventory/worker.py. Azure and the relationship
-- service are parameters; a transaction that raises leaves the tables as they were.
pub mod Frame
pub mod Ends
use sentinel_keyvault.Common.{
  ℕ, zero, suc, ◌+◌, ◌≡◌, refl, Bool, true, false, ◌&&◌, Option, none, some, List, [], ◌∷◌, ◌++◌,
  Text, codes, ◌==◌, find, length, write, if◌then◌else◌,
}
use sentinel_keyvault.Platform.Json.{Json}
use sentinel_keyvault.Inventory.Models.{
  SyncJob, JobStatus, Subscription, Resource, AzureSubscription, AzureRow, Store,
}
use sentinel_keyvault.Inventory.Models.JobStatus.{completed, failed}
use sentinel_keyvault.Inventory.Upsert.{upsert_subscription, upsert_resource}
use sentinel_keyvault.Inventory.Jobs.{claim_job}

-- What the worker posts for a resource.
pub record Projection : Type 0 where
  pub tenant_id : ℕ
  pub inventory_resource_id : ℕ
  pub azure_resource_id : Text
  pub name : Text
  pub resource_type : Text
  pub resource_group : Text
  pub properties : Json

abbrev pub projection_of : ℕ → Resource → Projection
projection_of tenant_id r = record {
  tenant_id = tenant_id;
  inventory_resource_id = r.id;
  azure_resource_id = r.azure_resource_id;
  name = r.name;
  resource_type = r.resource_type;
  resource_group = r.resource_group;
  properties = r.properties;
}

-- A later subscription with the same id replaces an earlier one in the dictionary `available`.
pub available : ℕ → List AzureSubscription → Option AzureSubscription
available azure_id [] = none
available azure_id (s ∷ rest) = elim (available azure_id rest) [
  | some t ↦ some t
  | none ↦ if s.subscription_id == azure_id then some s else none
]

-- The loop of the first transaction, with the dictionary `subscriptions` from Azure's ids to the
-- keys of the rows; `none` is the `PermissionError`.
pub register :
    ℕ → List AzureSubscription → List ℕ → List (ℕ × ℕ) → Store → Option (List (ℕ × ℕ) × Store)
unfolding available
register tenant_id sources [] keys store = some (keys, store)
register tenant_id sources (a ∷ ids) keys store = elim (available a sources) [
  | none ↦ none
  | some source ↦
      let (row, after) = upsert_subscription tenant_id source store in
      register tenant_id sources ids ((a, row.id) ∷ keys) after
]

-- `subscriptions[subscription_id]`
abbrev pub key_of : ℕ → List (ℕ × ℕ) → Option ℕ
key_of a [] = none
key_of a ((b, id) ∷ keys) = if b == a then some id else key_of a keys

-- The loop of the second transaction, with the number of changed rows and the projections; `none`
-- is the `KeyError` of a row of another subscription.
pub collect :
    ℕ
    → List (ℕ × ℕ)
    → ℕ
    → ℕ
    → List AzureRow
    → ℕ
    → List Projection
    → Store
    → Option (ℕ × List Projection × Store)
unfolding upsert_resource
collect tenant_id keys began now [] changed out store = some (changed, out, store)
collect tenant_id keys began now (item ∷ items) changed out store =
    elim (key_of item.subscription_id keys) [
      | none ↦ none
      | some id ↦
          let (r, was_changed, after) = upsert_resource tenant_id id began now item store in
          collect tenant_id keys began now items (changed + (if was_changed then 1 else 0))
            (out ++ projection_of tenant_id r ∷ []) after
    ]

-- `session.get(SyncJob, job.id)` and the assignments to the row that it returns.
abbrev pub set_job : ℕ → (SyncJob → SyncJob) → Store → Store
set_job id f store = elim (find (λ j. j.id == id) store.jobs) [
  | none ↦ store
  | some j ↦ record store { jobs = write (λ j. j.id) (f j) store.jobs }
]

abbrev pub complete : ℕ → ℕ → ℕ → SyncJob → SyncJob
complete seen changed now j = record j {
  status = completed;
  resources_seen = seen;
  resources_changed = changed;
  completed_at = some now;
  heartbeat_at = some now;
}

abbrev pub fail : Text → ℕ → SyncJob → SyncJob
fail error now j = record j { status = failed; error_summary = some error; completed_at = some now }

abbrev pub all_posted : (Projection → Bool) → List Projection → Bool
all_posted post [] = true
all_posted post (p ∷ ps) = post p && all_posted post ps

-- The services that the worker calls: `none` or `false` is an exception.
pub record Services : Type 0 where
  pub list_subscriptions : Option (List AzureSubscription)
  pub query_resources : List ℕ → Option (List AzureRow)
  pub post : Projection → Bool
  pub rebuild : ℕ → Bool

-- The body of the `try`: whether it returns, and the tables that its transactions leave.
unfoldable pub sync : Services → ℕ → ℕ → ℕ → SyncJob → Store → Bool × Store
unfolding register collect
sync services began now completed_at job store = elim services.list_subscriptions [
  | none ↦ (false, store)
  | some sources ↦ elim (register job.tenant_id sources job.subscription_ids [] store) [
    | none ↦ (false, store)
    | some (keys, registered) ↦ elim (services.query_resources job.subscription_ids) [
      | none ↦ (false, registered)
      | some items ↦ elim (collect job.tenant_id keys began now items 0 [] registered) [
        | none ↦ (false, registered)
        | some (changed, projections, collected) ↦ (
          all_posted services.post projections && services.rebuild job.tenant_id,
          set_job job.id (complete (length items) changed completed_at) collected,
        )
      ]
    ]
  ]
]

-- `run_once`: whether there was a job, and the tables. `error` is the summary of the exception. The
-- clock is read at the claim, in the second transaction, at its end and in the exception handler,
-- whose own transaction is taken to commit.
unfoldable pub run_once : Services → (ℕ → Bool) → Text → ℕ → ℕ → ℕ → ℕ → ℕ → Store → Bool × Store
unfolding sync
run_once services locked error claimed_at began now completed_at failed_at store =
    elim (claim_job claimed_at locked store) [
      | none ↦ (false, store)
      | some (job, claimed) ↦
          let (ok, after) = sync services began now completed_at job claimed in
          (true, if ok then after else set_job job.id (fail error failed_at) after)
    ]
