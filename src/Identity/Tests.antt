-- ===== src/Identity/Tests.antt =====
-- The properties of the identity service at a tenant with one user.
use sentinel_keyvault.Common.{
  ℕ, ◌++◌, ◌≡◌, ◌↔◌, ◌⊎◌, refl, true, false, none, some, [], ◌∷◌, Text, codes, Has,
}
use sentinel_keyvault.Platform.Auth.{TokenPrincipal}
use sentinel_keyvault.Identity.Models.{
  Tenant, User, Role, Permission, RolePermission, UserRole, Store, is_active_status,
}
use sentinel_keyvault.Identity.Models.TenantStatus.{active}
use sentinel_keyvault.Identity.Account.{
  identity_scope_key, identity_scope_key_lem, is_personal_account, consumer_tenant_id,
}
use sentinel_keyvault.Identity.Permissions.{effective_permissions}
use sentinel_keyvault.Identity.Repository.{
  get_user_by_id, synchronize_user, get_tenant_by_id, get_tenant_by_scope_key, count_users,
  has_name,
}
use sentinel_keyvault.Identity.Permissions.Effective.{Holds, effective_permissions_lem}
use sentinel_keyvault.Identity.Service.{
  resolve_session, session_identity, identity_of, resolve_and_sync, Connection, onboard_oauth_user,
  permission_names,
}
use sentinel_keyvault.Identity.Service.Guards.{resolve_session_guards, resolve_and_sync_guards}
use sentinel_keyvault.Identity.Service.Onboarding.{onboard_oauth_user_adds}

abbrev print : ℕ → Text
print n = n ∷ []

print_injective : (a b : ℕ) → print a ≡ print b → a ≡ b
print_injective a b e = cc

abbrev account : ℕ
account = 6

identity_scope_key_lem_example :
    (consumer_tenant_id ≡ consumer_tenant_id)
    × (is_personal_account consumer_tenant_id ≡ true → account ≡ account)
identity_scope_key_lem_example =
    identity_scope_key_lem print print_injective consumer_tenant_id account consumer_tenant_id
      account refl

abbrev tenant : Tenant
tenant = record {
  id = 1;
  entra_tenant_id = 5;
  identity_scope_key = codes "tenant:" ++ print 5;
  account_type = codes "organization";
  display_name = codes "t";
  status = active;
  consented_at = none;
  version = 1;
}

abbrev user : User
user = record {
  id = 2;
  tenant_id = 1;
  entra_object_id = 6;
  principal_name = none;
  display_name = codes "u";
  email = none;
  is_active = true;
  last_login_at = 3;
  version = 1;
}

abbrev reader : Role
reader = record {
  id = 3;
  tenant_id = 1;
  name = codes "Reader";
  description = none;
  is_system = true;
}

abbrev audit_read : Permission
audit_read = record { id = 4; name = codes "audit.read"; description = codes "d" }

abbrev assignment : UserRole
assignment = record {
  tenant_id = 1;
  user_id = 2;
  role_id = 3;
  scope_type = codes "tenant";
  scope_id = codes "*";
  assigned_by = none;
  assigned_at = 3;
  expires_at = some 20;
}

abbrev store : Store
store = record {
  tenants = tenant ∷ [];
  users = user ∷ [];
  roles = reader ∷ [];
  permissions = audit_read ∷ [];
  role_permissions = record { role_id = 3; permission_id = 4 } ∷ [];
  user_roles = assignment ∷ [];
  connections = [];
  next_id = 100;
}

effective_permissions_lem_example :
    Has audit_read (
      effective_permissions 10 1 2 store.permissions store.role_permissions store.roles
        store.user_roles)
    ↔ (Has audit_read store.permissions
        × ((g : RolePermission) × (r : Role) × Has g store.role_permissions
            × Has r store.roles
            × (g.permission_id ≡ 4)
            × (g.role_id ≡ r.id)
            × Holds 10 1 2 store.user_roles r.id))
effective_permissions_lem_example =
    effective_permissions_lem 10 1 2 store.permissions store.role_permissions store.roles
      store.user_roles audit_read

resolve_session_guards_example :
    (get_user_by_id 1 2 store.users ≡ some user)
    × (get_tenant_by_id 1 store.tenants ≡ some tenant)
    × (user.is_active ≡ true)
    × (is_active_status tenant.status ≡ true)
    × ((session_identity 10 1 2 tenant user store).permissions
        ≡ effective_permissions 10 1 2 store.permissions store.role_permissions store.roles
            store.user_roles)
unfolding resolve_session get_user_by_id get_tenant_by_id
resolve_session_guards_example =
    resolve_session_guards 10 1 2 store (session_identity 10 1 2 tenant user store) refl

abbrev newcomer : TokenPrincipal
newcomer = record {
  entra_tenant_id = 5;
  entra_object_id = 8;
  display_name = codes "n";
  principal_name = none;
  scopes = [];
  roles = [];
  claims = [];
}

abbrev connection : Connection
connection = record {
  tenant_display_name = none;
  encrypted_refresh_token = codes "x";
  scopes = codes "a" ∷ codes "b" ∷ [];
  token_authority = codes "common";
}

onboard_oauth_user_adds_example :
    let (identity, after) = onboard_oauth_user print 10 newcomer connection store in
    (r : Role) × Has r after.roles
    × (r.name ≡ codes "Reader")
    × (r.tenant_id ≡ 1)
    × ((a : UserRole)
        → Has a after.user_roles
        → Has a store.user_roles
          ⊎ ((a.tenant_id ≡ 1) × (a.user_id ≡ identity.user.id) × (a.role_id ≡ r.id)))
    × ((g : RolePermission)
        → Has g after.role_permissions
        → Has g store.role_permissions
          ⊎ ((p : Permission) × Has p store.permissions
              × (has_name (permission_names false) p ≡ true)
              × (g.permission_id ≡ p.id)
              × (g.role_id ≡ r.id)))
unfolding get_tenant_by_scope_key count_users identity_scope_key
onboard_oauth_user_adds_example =
    onboard_oauth_user_adds print 10 newcomer connection store tenant 0 refl refl

abbrev member : TokenPrincipal
member = record {
  entra_tenant_id = 5;
  entra_object_id = 6;
  display_name = codes "n";
  principal_name = none;
  scopes = [];
  roles = [];
  claims = [];
}

abbrev member_user : User
member_user = record user { display_name = codes "n"; last_login_at = 10; version = 2 }

resolve_and_sync_guards_example :
    (get_tenant_by_scope_key (identity_scope_key print 5 6) store.tenants ≡ some tenant)
    × (is_active_status tenant.status ≡ true)
    × (member_user ≡ (synchronize_user 10 1 6 (codes "n") none store.users store.next_id).0)
    × (member_user.is_active ≡ true)
unfolding resolve_and_sync get_tenant_by_scope_key identity_scope_key synchronize_user
resolve_and_sync_guards_example =
    (resolve_and_sync_guards print 10 member store).0 (identity_of 10 tenant member_user store) refl
