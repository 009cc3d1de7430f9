-- ===== src/Relationship/Graph/Walks.antt =====
-- The specification of a traversal: what can be reached from the root, and in how many hops.
use sentinel_keyvault.Common.{ℕ, zero, suc, ◌≡◌, ◌⊎◌, true, List, Has}
use sentinel_keyvault.Relationship.Models.{
  Relationship, Direction, upstream, downstream, both, GraphQuery,
}
use sentinel_keyvault.Relationship.Graph.{allowed}

-- A hop over `e` in the direction of the query.
abbrev pub Hops : Direction → Relationship → ℕ → ℕ → Type 0
Hops downstream e x y = (e.source_resource_id ≡ x) × (e.target_resource_id ≡ y)
Hops upstream e x y = (e.target_resource_id ≡ x) × (e.source_resource_id ≡ y)
Hops both e x y =
    (e.source_resource_id ≡ x) × (e.target_resource_id ≡ y)
    ⊎ (e.target_resource_id ≡ x) × (e.source_resource_id ≡ y)

module _ (rows : List Relationship) (tenant_id : ℕ) (query : GraphQuery) where
  -- An active edge of the tenant, of a type that the query asks for.
  abbrev pub Usable : Relationship → Type 0
  Usable e =
      Has e rows
      × (e.tenant_id ≡ tenant_id)
      × (e.is_active ≡ true)
      × (allowed query.relationship_types e ≡ true)

  abbrev pub Adjacent : ℕ → ℕ → Type 0
  Adjacent x y = (e : Relationship) × Usable e × Hops query.direction e x y

  -- Reached from the root in at most `n` hops.
  abbrev pub Within : ℕ → ℕ → Type 0
  Within zero x = x ≡ query.root_resource_id
  Within (suc n) x = Within n x ⊎ ((y : ℕ) × Within n y × Adjacent y x)
