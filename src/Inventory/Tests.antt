-- ===== src/Inventory/Tests.antt =====
-- The properties of the inventory at small tables.
use sentinel_keyvault.Common.{
  ℕ, ◌≡◌, ◌<◌, refl, inl, inr, Bool, true, false, Option, none, some, [], ◌∷◌, arith, Text, codes,
  lower, find, Has, order_by, insert_by,
}
use sentinel_keyvault.Platform.Json.{Json}
use sentinel_keyvault.Platform.Json.Fields.{end}
use sentinel_keyvault.Inventory.Models.{Resource, SyncJob, AzureRow, Store}
use sentinel_keyvault.Inventory.Models.ResourceState.{missing}
use sentinel_keyvault.Inventory.Models.JobStatus.{queued}
use sentinel_keyvault.Inventory.Listing.{ResourceFilters, read_cursor}
use sentinel_keyvault.Inventory.Listing.Walk.{walk, listed, walk_lem}
use sentinel_keyvault.Inventory.Upsert.{is_resource}
use sentinel_keyvault.Inventory.Upsert.Lookup.{
  upserted, upsert_resource_lookup, upsert_resource_changed,
}
use sentinel_keyvault.Inventory.Jobs.{JobRequest, claim_job, next_job, create_sync_job}
use sentinel_keyvault.Inventory.Jobs.Claims.{Claims, claim_job-Claims, create_sync_job_again}
use sentinel_keyvault.Inventory.Azure.{Page, query_resources, query_resources_all}
use sentinel_keyvault.Inventory.Azure.Fetch.{done}
use sentinel_keyvault.Inventory.Worker.{Services, run_once}
use sentinel_keyvault.Inventory.Worker.Ends.{Ended, run_once_ends}

abbrev resource : ℕ → Text → Resource
resource id azure_id = record {
  id = id;
  tenant_id = 1;
  subscription_id = 4;
  azure_resource_id = azure_id;
  normalized_resource_id = azure_id;
  resource_type = codes "microsoft.x";
  name = codes "x";
  resource_group = codes "g";
  location = none;
  kind = none;
  sku = none;
  tags = Json.obj end;
  properties = Json.obj end;
  source_etag = none;
  provisioning_state = none;
  state = missing;
  first_seen_at = 3;
  last_seen_at = 5;
  missing_since = some 6;
  deleted_at = none;
  version = 1;
}

abbrev job : ℕ → ℕ → SyncJob
job id requested_at = record {
  id = id;
  tenant_id = 1;
  requested_by = 2;
  mode = codes "full";
  subscription_ids = 4 ∷ [];
  entra_tenant_id = 3;
  idempotency_key = codes "key";
  status = queued;
  resources_seen = 0;
  resources_changed = 0;
  error_summary = none;
  correlation_id = 9;
  requested_at = requested_at;
  started_at = none;
  completed_at = none;
  heartbeat_at = none;
}

abbrev store : Store
store = record {
  subscriptions = [];
  groups = [];
  resources = resource 20 (codes "/b") ∷ resource 10 (codes "/a") ∷ [];
  jobs = job 31 8 ∷ job 30 7 ∷ [];
  next_id = 100;
}

abbrev unlocked : ℕ → Bool
unlocked n = false

-- A cursor of one character.
abbrev encode : ℕ → Text
encode id = id ∷ []

abbrev decode : Text → Option ℕ
decode [] = none
decode (c ∷ cs) = some c

decode-encode : (id : ℕ) → read_cursor encode decode (some (encode id)) ≡ some (some id)
decode-encode id = refl

abbrev no_filters : ResourceFilters
no_filters = record {
  subscription_id = none;
  resource_group = none;
  resource_type = none;
  location = none;
  state = none;
  search = none;
}

walk_lem_example :
    walk encode decode 1 no_filters 1 store.resources 3 none ≡ listed 1 no_filters store.resources
walk_lem_example =
    walk_lem encode decode decode-encode 1 no_filters 0 store.resources
      ((omega arith, tt), (tt, tt))

abbrev item : AzureRow
item = record {
  id = codes "/A";
  name = some (codes "x");
  type_name = some (codes "Microsoft.X");
  subscription_id = 4;
  resource_group = some (codes "g");
  location = none;
  kind = none;
  sku = none;
  tags = none;
  properties = none;
}

upsert_resource_lookup_example :
    find (is_resource 1 (lower item.id)) (upserted 1 4 8 9 item store).2.resources
    ≡ some (upserted 1 4 8 9 item store).0
upsert_resource_lookup_example =
    (upsert_resource_lookup 1 4 8 9 item store ((omega arith, tt), (tt, tt))).1

seen_before : (r : Resource) → Has r store.resources → r.last_seen_at < 9
seen_before r (inl e) = rw e (omega arith)
seen_before r (inr (inl e)) = rw e (omega arith)
seen_before r (inr (inr e)) = absurd e

upsert_resource_changed_example : (upserted 1 4 8 9 item store).1 ≡ true
upsert_resource_changed_example = upsert_resource_changed 1 4 8 9 item store seen_before

claim_job-Claims_example : Claims 5 unlocked store (claim_job 5 unlocked store)
claim_job-Claims_example = claim_job-Claims 5 unlocked store

abbrev request : Text → JobRequest
request mode = record {
  tenant_id = 1;
  actor_id = 2;
  entra_tenant_id = 3;
  mode = mode;
  subscription_ids = [];
  correlation_id = 9;
  idempotency_key = codes "other";
  requested_at = 12;
}

create_sync_job_again_example :
    create_sync_job (request (codes "delta")) (create_sync_job (request (codes "full")) store).1
    ≡ create_sync_job (request (codes "full")) store
create_sync_job_again_example =
    create_sync_job_again (request (codes "full")) (request (codes "delta")) store refl refl

abbrev services : Services
services = record {
  list_subscriptions =
      some (record { subscription_id = 4; display_name = codes "s"; state = codes "Enabled" } ∷ []);
  query_resources = λ ids. some (item ∷ []);
  post = λ p. true;
  rebuild = λ t. true;
}

run_once_ends_example :
    ((run_once services unlocked (codes "e") 7 8 9 10 11 store).0 ≡ true)
    × Ended 30 10 11 store.jobs (run_once services unlocked (codes "e") 7 8 9 10 11 store).1.jobs
unfolding next_job order_by insert_by
run_once_ends_example =
    run_once_ends services unlocked (codes "e") 7 8 9 10 11 store (job 30 7)
      ((omega arith, tt), (tt, tt)) refl

abbrev first_page : Page
first_page = record { rows = some (item ∷ []); skip_token = some (codes "t") }

abbrev last_page : Page
last_page = record { rows = none; skip_token = none }

abbrev resources_by_token : Option Text → Option Page
resources_by_token none = some first_page
resources_by_token (some t) = some last_page

query_resources_all_example : query_resources resources_by_token 2 none [] ≡ done (item ∷ [])
query_resources_all_example =
    query_resources_all resources_by_token none first_page (last_page ∷ []) []
      (refl, tt, (refl, λ m. m))
