-- ===== src/Inventory/Jobs.antt =====
-- `create_sync_job` and `claim_job` of
-- apps/inventory-service/src/sentinel_inventory/repository.py, and the handler `create_sync_job` of
-- main.py.
pub mod Claims
use sentinel_keyvault.Common.{
  ℕ, zero, suc, ◌+◌, ◌≡◌, refl, Bool, true, false, ◌&&◌, not, Option, none, some, List, [], ◌∷◌,
  ◌++◌, Text, codes, text_eq, leb, ◌==◌, find, select, any, write, order_by, if◌then◌else◌,
}
use sentinel_keyvault.Inventory.Models.{SyncJob, JobStatus, Subscription, Store}
use sentinel_keyvault.Inventory.Models.JobStatus.{queued, running}

abbrev pub is_job : ℕ → Text → SyncJob → Bool
is_job tenant_id key j = j.tenant_id == tenant_id && text_eq j.idempotency_key key

-- What `create_sync_job` is called with. `requested_at` is the database's `now()`.
pub record JobRequest : Type 0 where
  pub tenant_id : ℕ
  pub actor_id : ℕ
  pub entra_tenant_id : ℕ
  pub mode : Text
  pub subscription_ids : List ℕ
  pub correlation_id : ℕ
  pub idempotency_key : Text
  pub requested_at : ℕ

abbrev pub new_job : ℕ → JobRequest → SyncJob
new_job id q = record {
  id = id;
  tenant_id = q.tenant_id;
  requested_by = q.actor_id;
  mode = q.mode;
  subscription_ids = q.subscription_ids;
  entra_tenant_id = q.entra_tenant_id;
  idempotency_key = q.idempotency_key;
  status = queued;
  resources_seen = 0;
  resources_changed = 0;
  error_summary = none;
  correlation_id = q.correlation_id;
  requested_at = q.requested_at;
  started_at = none;
  completed_at = none;
  heartbeat_at = none;
}

unfoldable pub create_sync_job : JobRequest → Store → SyncJob × Store
create_sync_job q store = elim (find (is_job q.tenant_id q.idempotency_key) store.jobs) [
  | some job ↦ (job, store)
  | none ↦
      let job = new_job store.next_id q in
      (job, record store { jobs = store.jobs ++ job ∷ []; next_id = suc store.next_id })
]

-- `item not in registered`, over the azure ids of the tenant's subscriptions.
abbrev pub is_registered : ℕ → List Subscription → ℕ → Bool
is_registered tenant_id subscriptions azure_id =
    any (λ s. s.tenant_id == tenant_id && s.azure_subscription_id == azure_id) subscriptions

-- The handler, less its audit event: `none` is the 422 answer.
unfoldable pub request_sync : JobRequest → Store → Option (SyncJob × Store)
unfolding create_sync_job
request_sync q store =
    elim (select (λ a. not (is_registered q.tenant_id store.subscriptions a)) q.subscription_ids) [
      | [] ↦ some (create_sync_job q store)
      | _ ∷ _ ↦ none
    ]

abbrev pub is_queued : JobStatus → Bool
is_queued queued = true
is_queued _ = false

-- `locked` tells the rows that other transactions hold, which `skip_locked` passes over.
abbrev pub claimable : (ℕ → Bool) → SyncJob → Bool
claimable locked j = is_queued j.status && not (locked j.id)

abbrev pub earlier : SyncJob → SyncJob → Bool
earlier j k = leb j.requested_at k.requested_at

abbrev pub first : List SyncJob → Option SyncJob
first [] = none
first (j ∷ js) = some j

unfoldable pub next_job : (ℕ → Bool) → List SyncJob → Option SyncJob
next_job locked jobs = first (order_by earlier (select (claimable locked) jobs))

abbrev pub started : ℕ → SyncJob → SyncJob
started now j = record j { status = running; started_at = some now; heartbeat_at = some now }

unfoldable pub claim_job : ℕ → (ℕ → Bool) → Store → Option (SyncJob × Store)
unfolding next_job
claim_job now locked store = elim (next_job locked store.jobs) [
  | none ↦ none
  | some j ↦
      some (started now j, record store { jobs = write (λ j. j.id) (started now j) store.jobs })
]
