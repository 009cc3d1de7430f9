-- ===== src/Identity/Permissions.antt =====
-- The queries for roles and permissions of `IdentityRepository` in
-- apps/identity-service/src/sentinel_identity/repository.py.
pub mod Effective
use sentinel_keyvault.Common.{
  text_le, text_or_else, ℕ, zero, suc, ◌+◌, Bool, true, false, ◌&&◌, ◌||◌, not, Option, none, some,
  List, [], ◌∷◌, ◌++◌, Text, codes, text_eq, ltb, ◌==◌, find, any, select, length, write, order_by,
  if◌then◌else◌,
}
use sentinel_keyvault.Identity.Models.{
  Tenant, TenantStatus, User, Role, Permission, RolePermission, UserRole, OAuthConnection,
}
use sentinel_keyvault.Identity.Models.TenantStatus.{active}
use sentinel_keyvault.Identity.Repository.{is_grant}

-- `or_(expires_at.is_(None), expires_at > now)`
abbrev pub in_force : ℕ → Option ℕ → Bool
in_force now none = true
in_force now (some t) = ltb now t

abbrev pub assigns : ℕ → ℕ → ℕ → ℕ → UserRole → Bool
assigns now tenant_id user_id role_id a =
    a.tenant_id == tenant_id
    && a.user_id == user_id
    && a.role_id == role_id
    && in_force now a.expires_at

-- The joins, as conditions on the rows that are returned.
unfoldable pub effective_roles : ℕ → ℕ → ℕ → List Role → List UserRole → List Role
effective_roles now tenant_id user_id roles assignments =
    order_by (λ r s. text_le r.name s.name)
      (select (λ r. any (assigns now tenant_id user_id r.id) assignments) roles)

abbrev pub grants_to : ℕ → ℕ → ℕ → List Role → List UserRole → ℕ → RolePermission → Bool
grants_to now tenant_id user_id roles assignments permission_id g =
    g.permission_id == permission_id
    && any (λ r. r.id == g.role_id && any (assigns now tenant_id user_id r.id) assignments) roles

unfoldable pub effective_permissions :
    ℕ → ℕ → ℕ → List Permission → List RolePermission → List Role → List UserRole → List Permission
effective_permissions now tenant_id user_id permissions grants roles assignments =
    order_by (λ p q. text_le p.name q.name)
      (select (λ p. any (grants_to now tenant_id user_id roles assignments p.id) grants)
        permissions)

unfoldable pub list_permissions : List Permission → List Permission
list_permissions = order_by (λ p q. text_le p.name q.name)

abbrev pub granted : ℕ → List RolePermission → Permission → Bool
granted role_id grants p = any (is_grant role_id p.id) grants

abbrev pub names_of : List Permission → List Text
names_of [] = []
names_of (p ∷ ps) = p.name ∷ names_of ps

abbrev pub with_permissions :
    List Permission → List RolePermission → List Role → List (Role × List Text)
with_permissions permissions grants [] = []
with_permissions permissions grants (r ∷ rs) =
    (r, order_by text_le (names_of (select (granted r.id grants) permissions)))
    ∷ with_permissions permissions grants rs

unfoldable pub list_roles_with_permissions :
    ℕ → List Role → List Permission → List RolePermission → List (Role × List Text)
list_roles_with_permissions tenant_id roles permissions grants =
    with_permissions permissions grants
      (order_by (λ r s. text_le r.name s.name) (select (λ r. r.tenant_id == tenant_id) roles))
