-- ===== src/Inventory/Worker/Frame.antt =====
-- The two loops of `run_once` and the table of jobs.
use sentinel_keyvault.Common.{
  ℕ, suc, write, ◌+◌, ◌≡◌, refl, sym, ap, ◌∙◌, inl, inr, some, List, [], ◌∷◌, ◌++◌, codes, text_eq,
  lower, find, Bool-cases, Option-cases, if◌then◌else◌,
}
use sentinel_keyvault.Inventory.Models.{Resource, AzureSubscription, AzureRow, Store}
use sentinel_keyvault.Inventory.Upsert.{
  upsert_subscription, find_subscription, upsert_resource, upsert_group, is_resource, is_group,
  assigned, new_resource,
}
use sentinel_keyvault.Inventory.Worker.{
  Projection, projection_of, available, register, key_of, collect,
}

upsert_subscription_jobs :
    (tenant_id : ℕ) (source : AzureSubscription) (store : Store)
    → (upsert_subscription tenant_id source store).1.jobs ≡ store.jobs
unfolding upsert_subscription
upsert_subscription_jobs tenant_id source store =
    elim (Option-cases (find_subscription tenant_id source.subscription_id store.subscriptions)) [
      | inl e ↦ rw (e, upsert_subscription) refl
      | inr (s, e) ↦ rw (e, upsert_subscription) refl
    ]

upsert_group_jobs :
    (tenant_id subscription_id began now : ℕ) (r : Resource) (store : Store)
    → (upsert_group tenant_id subscription_id began now r store).jobs ≡ store.jobs
unfolding upsert_group
upsert_group_jobs tenant_id subscription_id began now r store =
    elim (Bool-cases
      (text_eq r.resource_type (codes "microsoft.resources/subscriptions/resourcegroups"))) [
        | inr e ↦ rw e refl
        | inl e ↦
            elim (Option-cases
              (find (is_group tenant_id subscription_id (lower r.name)) store.groups)) [
                | inl n ↦ rw e (rw n refl)
                | inr (g, n) ↦ rw e (rw n refl)
              ]
      ]

upsert_resource_jobs :
    (tenant_id subscription_id began now : ℕ) (item : AzureRow) (store : Store)
    → (upsert_resource tenant_id subscription_id began now item store).2.jobs ≡ store.jobs
unfolding upsert_resource
upsert_resource_jobs tenant_id subscription_id began now item store =
    elim (Option-cases (find (is_resource tenant_id (lower item.id)) store.resources)) [
      | inl e ↦
          let r = new_resource store.next_id tenant_id subscription_id began now item in
          rw (e, upsert_resource)
            (upsert_group_jobs tenant_id subscription_id began now r
              (record store { resources = store.resources ++ r ∷ []; next_id = suc store.next_id }))
      | inr (r, e) ↦
          let r' = record (assigned now item r) { version = r.version + 1 } in
          rw (e, upsert_resource)
            (upsert_group_jobs tenant_id subscription_id began now r'
              (record store { resources = write (λ r. r.id) r' store.resources }))
    ]

pub register_jobs :
    (tenant_id : ℕ) (sources : List AzureSubscription) (ids : List ℕ) (keys keys' : List (ℕ × ℕ))
    (store after : Store)
    → register tenant_id sources ids keys store ≡ some (keys', after)
    → after.jobs ≡ store.jobs
unfolding register
register_jobs tenant_id sources [] keys keys' store after e =
    let q : store ≡ after = cc in ap (λ s. s.jobs) (sym q)
register_jobs tenant_id sources (a ∷ ids) keys keys' store after e =
    elim (Option-cases (available a sources)) [
      | inl n ↦ absurd (cc)
      | inr (source, n) ↦
          let row = upsert_subscription tenant_id source store in
          register_jobs tenant_id sources ids ((a, row.0.id) ∷ keys) keys' row.1 after
            (rw (n, register) at e)
          ∙ upsert_subscription_jobs tenant_id source store
    ]

pub collect_jobs :
    (tenant_id : ℕ) (keys : List (ℕ × ℕ)) (began now : ℕ) (items : List AzureRow)
    (changed changed' : ℕ) (out out' : List Projection) (store after : Store)
    → collect tenant_id keys began now items changed out store ≡ some (changed', out', after)
    → after.jobs ≡ store.jobs
unfolding collect
collect_jobs tenant_id keys began now [] changed changed' out out' store after e =
    let q : store ≡ after = cc in ap (λ s. s.jobs) (sym q)
collect_jobs tenant_id keys began now (item ∷ items) changed changed' out out' store after e =
    elim (Option-cases (key_of item.subscription_id keys)) [
      | inl n ↦ absurd (cc)
      | inr (id, n) ↦
          let row = upsert_resource tenant_id id began now item store in
          collect_jobs tenant_id keys began now items (changed + (if row.1 then 1 else 0)) changed'
            (out ++ projection_of tenant_id row.0 ∷ []) out' row.2 after (rw (n, collect) at e)
          ∙ upsert_resource_jobs tenant_id id began now item store
    ]
