-- ===== src/Inventory/Upsert.antt =====
-- `find_subscription`, `upsert_subscription` and `upsert_resource` of
-- apps/inventory-service/src/sentinel_inventory/repository.py.
pub mod Lookup
use sentinel_keyvault.Common.{
  ℕ, zero, suc, ◌+◌, Bool, true, false, ◌&&◌, ◌||◌, not, Option, none, some, List, [], ◌∷◌, ◌++◌,
  Text, codes, text_eq, lower, ◌==◌, find, write, if◌then◌else◌,
}
use sentinel_keyvault.Platform.Json.{Json, Fields, json_eq}
use sentinel_keyvault.Inventory.Models.{
  Subscription, ResourceGroup, Resource, ResourceState, AzureRow, AzureSubscription, Store,
  same_state,
}
use sentinel_keyvault.Inventory.Models.ResourceState.{active}

abbrev pub is_subscription : ℕ → ℕ → Subscription → Bool
is_subscription tenant_id azure_id s =
    s.tenant_id == tenant_id && s.azure_subscription_id == azure_id

pub find_subscription : ℕ → ℕ → List Subscription → Option Subscription
find_subscription tenant_id azure_id = find (is_subscription tenant_id azure_id)

abbrev pub new_subscription : ℕ → ℕ → AzureSubscription → Subscription
new_subscription id tenant_id source = record {
  id = id;
  tenant_id = tenant_id;
  azure_subscription_id = source.subscription_id;
  display_name = source.display_name;
  state = source.state;
  management_group_id = none;
  last_sync_at = none;
  version = 1;
}

abbrev pub updated_subscription : AzureSubscription → Subscription → Subscription
updated_subscription source s = record s {
  display_name = source.display_name;
  state = source.state;
  version = s.version + 1;
}

unfoldable pub upsert_subscription : ℕ → AzureSubscription → Store → Subscription × Store
unfolding find_subscription
upsert_subscription tenant_id source store =
    elim (find_subscription tenant_id source.subscription_id store.subscriptions) [
      | none ↦
          let s = new_subscription store.next_id tenant_id source in
          (
            s,
            record store {
              subscriptions = store.subscriptions ++ s ∷ [];
              next_id = suc store.next_id;
            },
          )
      | some s ↦
          let s' = updated_subscription source s in
          (s', record store { subscriptions = write (λ r. r.id) s' store.subscriptions })
    ]

-- `str(item.get(...) or "")`
abbrev pub text_or : Option Text → Text
text_or none = []
text_or (some s) = s

-- `... or None`
abbrev pub none_if_empty : Text → Option Text
none_if_empty [] = none
none_if_empty (c ∷ cs) = some (c ∷ cs)

-- `item.get(...) or {}`
abbrev pub json_or : Option Json → Json
json_or none = Json.obj Fields.end
json_or (some Json.null) = Json.obj Fields.end
json_or (some v) = v

-- The values of the columns that `upsert_resource` assigns.
unfoldable pub assigned : ℕ → AzureRow → Resource → Resource
assigned now item r = record r {
  azure_resource_id = item.id;
  normalized_resource_id = lower item.id;
  resource_type = lower (text_or item.type_name);
  name = text_or item.name;
  resource_group = text_or item.resource_group;
  location = item.location;
  kind = item.kind;
  sku = none_if_empty (text_or item.sku);
  tags = json_or item.tags;
  properties = json_or item.properties;
  last_seen_at = now;
  state = active;
  missing_since = none;
}

abbrev blank : ℕ → ℕ → ℕ → ℕ → Resource
blank id tenant_id subscription_id began = record {
  id = id;
  tenant_id = tenant_id;
  subscription_id = subscription_id;
  azure_resource_id = [];
  normalized_resource_id = [];
  resource_type = [];
  name = [];
  resource_group = [];
  location = none;
  kind = none;
  sku = none;
  tags = Json.obj Fields.end;
  properties = Json.obj Fields.end;
  source_etag = none;
  provisioning_state = none;
  state = active;
  first_seen_at = began;
  last_seen_at = began;
  missing_since = none;
  deleted_at = none;
  version = 1;
}

-- A new row, with the columns' defaults; `began` is the database's `now()`.
unfoldable pub new_resource : ℕ → ℕ → ℕ → ℕ → ℕ → AzureRow → Resource
unfolding assigned
new_resource id tenant_id subscription_id began now item =
    assigned now item (blank id tenant_id subscription_id began)

abbrev same_option : Option Text → Option Text → Bool
same_option none none = true
same_option (some s) (some t) = text_eq s t
same_option _ _ = false

abbrev same_time : Option ℕ → Option ℕ → Bool
same_time none none = true
same_time (some s) (some t) = s == t
same_time _ _ = false

-- No assigned column has another value: `getattr(resource, name) != value` for none of them.
unfoldable pub unchanged : Resource → Resource → Bool
unfolding json_eq
unchanged r s =
    text_eq r.azure_resource_id s.azure_resource_id
    && text_eq r.normalized_resource_id s.normalized_resource_id
    && text_eq r.resource_type s.resource_type
    && text_eq r.name s.name
    && text_eq r.resource_group s.resource_group
    && same_option r.location s.location
    && same_option r.kind s.kind
    && same_option r.sku s.sku
    && json_eq r.tags s.tags
    && json_eq r.properties s.properties
    && r.last_seen_at == s.last_seen_at
    && same_state r.state s.state
    && same_time r.missing_since s.missing_since

abbrev pub is_resource : ℕ → Text → Resource → Bool
is_resource tenant_id normalized r =
    r.tenant_id == tenant_id && text_eq r.normalized_resource_id normalized

abbrev pub is_group : ℕ → ℕ → Text → ResourceGroup → Bool
is_group tenant_id subscription_id normalized g =
    g.tenant_id == tenant_id
    && g.subscription_id == subscription_id
    && text_eq g.normalized_name normalized

abbrev new_group : ℕ → ℕ → ℕ → ℕ → Resource → ResourceGroup
new_group id tenant_id subscription_id began r = record {
  id = id;
  tenant_id = tenant_id;
  subscription_id = subscription_id;
  name = r.name;
  normalized_name = lower r.name;
  location = r.location;
  tags = r.tags;
  state = codes "active";
  last_seen_at = began;
}

abbrev seen_group : ℕ → ResourceGroup → ResourceGroup
seen_group now g = record g { last_seen_at = now; state = codes "active" }

-- The last step: a row that is itself a resource group has one in the table of groups.
unfoldable pub upsert_group : ℕ → ℕ → ℕ → ℕ → Resource → Store → Store
upsert_group tenant_id subscription_id began now r store =
    if text_eq r.resource_type (codes "microsoft.resources/subscriptions/resourcegroups")
    then elim (find (is_group tenant_id subscription_id (lower r.name)) store.groups) [
      | none ↦ record store {
        groups = store.groups ++ new_group store.next_id tenant_id subscription_id began r ∷ [];
        next_id = suc store.next_id;
      }
      | some g ↦ record store { groups = write (λ g. g.id) (seen_group now g) store.groups }
    ]
    else store

-- `upsert_resource`: the row, whether the code counts it as changed, and the tables.
unfoldable pub upsert_resource : ℕ → ℕ → ℕ → ℕ → AzureRow → Store → Resource × Bool × Store
unfolding upsert_group new_resource assigned unchanged
upsert_resource tenant_id subscription_id began now item store =
    elim (find (is_resource tenant_id (lower item.id)) store.resources) [
      | none ↦
          let r = new_resource store.next_id tenant_id subscription_id began now item in
          let grown = record store {
            resources = store.resources ++ r ∷ [];
            next_id = suc store.next_id;
          } in
          (r, true, upsert_group tenant_id subscription_id began now r grown)
      | some r ↦
          let r' = record (assigned now item r) { version = r.version + 1 } in
          let written = record store { resources = write (λ r. r.id) r' store.resources } in
          (
            r',
            not (unchanged r (assigned now item r)),
            upsert_group tenant_id subscription_id began now r' written,
          )
    ]
