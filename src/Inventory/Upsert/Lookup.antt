-- ===== src/Inventory/Upsert/Lookup.antt =====
-- What the table of resources holds after `upsert_resource`.
use sentinel_keyvault.Common.{
  ℕ, suc, ◌+◌, ◌≡◌, ◌<◌, refl, ap, ◌∙◌, Bool, true, false, ◌&&◌, not, inl, inr, none, some, [], ◌∷◌,
  ◌++◌, arith, Text, codes, text_eq, text_eq→eq, text_eq_refl, lower, ◌==◌, ==-refl, find, find-Has,
  write, Bool-cases, Option-cases, Has, Distinct, find-append_one, find-append_other, find-write,
  find-write_other,
}
use sentinel_keyvault.Inventory.Models.{Resource, AzureRow, Store}
use sentinel_keyvault.Inventory.Models.ResourceState.{active}
use sentinel_keyvault.Inventory.Upsert.{
  is_resource, upsert_resource, upsert_group, assigned, new_resource, unchanged, is_group,
}

upsert_group_resources :
    (tenant_id subscription_id began now : ℕ) (r : Resource) (store : Store)
    → (upsert_group tenant_id subscription_id began now r store).resources ≡ store.resources
unfolding upsert_group
upsert_group_resources tenant_id subscription_id began now r store =
    elim (Bool-cases
      (text_eq r.resource_type (codes "microsoft.resources/subscriptions/resourcegroups"))) [
        | inr e ↦ rw e refl
        | inl e ↦
            elim (Option-cases
              (find (is_group tenant_id subscription_id (lower r.name)) store.groups)) [
                | inl n ↦ rw e (rw n refl)
                | inr (g, n) ↦ rw e (rw n refl)
              ]
      ]

module _ (tenant_id subscription_id began now : ℕ) (item : AzureRow) (store : Store) where
  abbrev pub upserted : Resource × Bool × Store
  upserted = upsert_resource tenant_id subscription_id began now item store

  -- The two ways in which a call ends.
  upsert_resource_new :
      find (is_resource tenant_id (lower item.id)) store.resources ≡ none
      → (upserted.0 ≡ new_resource store.next_id tenant_id subscription_id began now item)
        × (upserted.1 ≡ true)
        × (upserted.2.resources ≡ store.resources ++ upserted.0 ∷ [])
  unfolding upsert_resource
  upsert_resource_new e =
      rw (e, upsert_resource)
        (
          refl,
          refl,
          upsert_group_resources tenant_id subscription_id began now
              (new_resource store.next_id tenant_id subscription_id began now item)
              (record store {
                resources =
                    store.resources
                    ++ new_resource store.next_id tenant_id subscription_id began now item ∷ [];
                next_id = suc store.next_id;
              }),
        )

  upsert_resource_old :
      (r : Resource)
      → find (is_resource tenant_id (lower item.id)) store.resources ≡ some r
      → (upserted.0 ≡ record (assigned now item r) { version = r.version + 1 })
        × (upserted.1 ≡ not (unchanged r (assigned now item r)))
        × (upserted.2.resources ≡ write (λ r. r.id) upserted.0 store.resources)
  unfolding upsert_resource
  upsert_resource_old r e =
      rw (e, upsert_resource)
        (
          refl,
          refl,
          upsert_group_resources tenant_id subscription_id began now
              (record (assigned now item r) { version = r.version + 1 })
              (record store {
                resources =
                    write (λ r. r.id) (record (assigned now item r) { version = r.version + 1 })
                      store.resources;
              }),
        )

  -- What the returned row holds, whichever way it came about.
  abbrev IsCurrent : Resource → Type 0
  IsCurrent r =
      (r.tenant_id ≡ tenant_id)
      × (r.normalized_resource_id ≡ lower item.id)
      × (r.azure_resource_id ≡ item.id)
      × (r.last_seen_at ≡ now)
      × (r.state ≡ active)
      × (r.missing_since ≡ none)

  is_resource_iff :
      (t : ℕ) (n : Text) (r : Resource)
      → r.tenant_id ≡ tenant_id
      → r.normalized_resource_id ≡ lower item.id
      → is_resource t n r ≡ (tenant_id == t && text_eq (lower item.id) n)
  is_resource_iff t n r p q = rw (p, q) refl

  own_row :
      (r : Resource)
      → is_resource tenant_id (lower item.id) r ≡ true
      → (r.tenant_id ≡ tenant_id) × (r.normalized_resource_id ≡ lower item.id)
  own_row r h = ground (arith, text_eq→eq r.normalized_resource_id (lower item.id))

  own_hit : (tenant_id == tenant_id && text_eq (lower item.id) (lower item.id)) ≡ true
  own_hit = rw (==-refl tenant_id, text_eq_refl (lower item.id)) refl

  upserted-IsCurrent : IsCurrent upserted.0
  unfolding assigned new_resource
  upserted-IsCurrent =
      elim (Option-cases (find (is_resource tenant_id (lower item.id)) store.resources)) [
        | inl e ↦ let (a, b, c) = upsert_resource_new e in rw a (refl, refl, refl, refl, refl, refl)
        | inr (r, e) ↦
            let (a, b, c) = upsert_resource_old r e in
            let (p, q) =
              own_row r (find-Has (is_resource tenant_id (lower item.id)) store.resources e).1 in
            rw a (p, refl, refl, refl, refl, refl)
      ]

  -- With unique keys, `upsert_resource` leaves one current row for the tenant and the lower-case
  -- identifier of the item, the row that it returns: it is active, not missing and seen now, and
  -- a query finds it; and for any other tenant or identifier, a query finds what it found before.
  pub upsert_resource_lookup :
      Distinct (λ r. r.id) store.resources
      → IsCurrent upserted.0
        × (find (is_resource tenant_id (lower item.id)) upserted.2.resources ≡ some upserted.0)
        × ((t : ℕ) (n : Text)
            → (tenant_id == t && text_eq (lower item.id) n) ≡ false
            → find (is_resource t n) upserted.2.resources ≡ find (is_resource t n) store.resources)
  unfolding assigned
  upsert_resource_lookup d =
      let current = upserted-IsCurrent in
      let hit : is_resource tenant_id (lower item.id) upserted.0 ≡ true =
        is_resource_iff tenant_id (lower item.id) upserted.0 current.0 current.1 ∙ own_hit in
      elim (Option-cases (find (is_resource tenant_id (lower item.id)) store.resources)) [
        | inl e ↦
            let (a, b, c) = upsert_resource_new e in
            (
              current,
              rw c (
                  find-append_one (is_resource tenant_id (lower item.id)) store.resources upserted.0
                    e hit),
              (λ t n other. rw c (
                  find-append_other (is_resource t n) store.resources upserted.0
                    (is_resource_iff t n upserted.0 current.0 current.1 ∙ other))),
            )
        | inr (r, e) ↦
            let (a, b, c) = upsert_resource_old r e in
            let found = find-Has (is_resource tenant_id (lower item.id)) store.resources e in
            let (p, q) = own_row r found.1 in
            let same : upserted.0.id ≡ r.id = ap (λ x. x.id) a in
            (
              current,
              rw c (
                  find-write (λ r. r.id) (is_resource tenant_id (lower item.id)) r upserted.0 same
                    store.resources d e hit),
              (λ t n other. rw c (
                  find-write_other (λ r. r.id) (is_resource t n) r upserted.0 same store.resources d
                    found.0 (is_resource_iff t n r p q ∙ other)
                    (is_resource_iff t n upserted.0 current.0 current.1 ∙ other))),
            )
      ]

  ne-== : (a b : ℕ) → a < b → (a == b) ≡ false
  ne-== a b h = ground arith

  third_from_last : (x y s m : Bool) → y ≡ false → not (((x && y) && s) && m) ≡ true
  third_from_last true y s m h = rw h refl
  third_from_last false y s m h = refl

  not_seen_now :
      (r : Resource) → r.last_seen_at < now → not (unchanged r (assigned now item r)) ≡ true
  unfolding unchanged assigned
  not_seen_now r h = third_from_last _ _ _ _ (ne-== r.last_seen_at now h)

  -- A row that is new, or that was last seen before `now`, is counted as changed, whatever its
  -- other columns hold: the comparison takes in `last_seen_at`, which is `now` in the new values.
  pub upsert_resource_changed :
      ((r : Resource) → Has r store.resources → r.last_seen_at < now) → upserted.1 ≡ true
  upsert_resource_changed earlier =
      elim (Option-cases (find (is_resource tenant_id (lower item.id)) store.resources)) [
        | inl e ↦ (upsert_resource_new e).1
        | inr (r, e) ↦
            (upsert_resource_old r e).1
            ∙ not_seen_now r
                (earlier r (find-Has (is_resource tenant_id (lower item.id)) store.resources e).0)
      ]
