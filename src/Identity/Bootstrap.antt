-- ===== src/Identity/Bootstrap.antt =====
-- apps/identity-service/src/sentinel_identity/bootstrap.py: what the service puts into the tables
-- when it starts.
mod Rows
mod Grants
pub mod Again
pub mod Admin
mod Tests
use sentinel_keyvault.Common.{
  ℕ, suc, Bool, true, false, Option, none, some, List, [], ◌∷◌, ◌++◌, Text, codes, text_eq, find,
}
use sentinel_keyvault.Platform.Reply.{Reply, reply, raised, ◌>>=◌, require}
use sentinel_keyvault.Platform.Settings.{Settings, present}
use sentinel_keyvault.Identity.Models.{
  Tenant, TenantStatus, User, Role, Permission, RolePermission, UserRole, Store,
}
use sentinel_keyvault.Identity.Models.TenantStatus.{active}
use sentinel_keyvault.Identity.Account.{identity_scope_key}
use sentinel_keyvault.Identity.Repository.{is_role, is_user, grant_each, assign_role}

-- `PERMISSIONS`
abbrev pub all_permissions : List (Text × Text)
all_permissions =
    (codes "tenant.onboarding.manage", codes "Manage tenant onboarding")
    ∷ (codes "identity.roles.read", codes "Read roles and permissions")
    ∷ (codes "identity.roles.assign", codes "Assign internal roles")
    ∷ (codes "inventory.resources.read", codes "Read Azure resource inventory")
    ∷ (codes "inventory.sync.execute", codes "Run Azure inventory synchronization")
    ∷ (codes "relationships.read", codes "Read dependency relationships")
    ∷ (codes "analysis.create", codes "Create change assessments")
    ∷ (codes "analysis.read", codes "Read change assessments")
    ∷ (codes "operations.create", codes "Create governed operations")
    ∷ (codes "operations.approve", codes "Approve governed operations")
    ∷ (codes "operations.execute", codes "Execute approved operations")
    ∷ (codes "operations.cancel", codes "Cancel operations")
    ∷ (codes "audit.read", codes "Read audit evidence")
    ∷ (codes "audit.export", codes "Export audit evidence")
    ∷ (codes "settings.manage", codes "Manage tenant settings")
    ∷ []

-- The row that a query finds, or a new one, which is added with the next key.
unfoldable pub ensure : {A : Type 0} → (A → Bool) → (ℕ → A) → List A → ℕ → A × List A × ℕ
ensure fits make rows next_id = elim (find fits rows) [
  | some row ↦ (row, rows, next_id)
  | none ↦ (make next_id, rows ++ make next_id ∷ [], suc next_id)
]

abbrev pub is_permission : Text → Permission → Bool
is_permission name p = text_eq p.name name

-- The loop over `PERMISSIONS`, with the values of the dictionary `permissions`.
unfoldable pub ensure_permissions :
    List (Text × Text) → List Permission → ℕ → List Permission × List Permission × ℕ
ensure_permissions [] rows next_id = ([], rows, next_id)
ensure_permissions ((name, description) ∷ rest) rows next_id =
    let (permission, rows', next_id') =
      ensure (is_permission name) (λ id. record { id = id; name = name; description = description })
        rows next_id in
    let (permissions, rows'', next_id'') = ensure_permissions rest rows' next_id' in
    (permission ∷ permissions, rows'', next_id'')

abbrev pub has_scope : Text → Tenant → Bool
has_scope scope_key t = text_eq t.identity_scope_key scope_key

abbrev pub new_tenant : ℕ → Text → Text → ℕ → Tenant
new_tenant entra_tenant_id scope_key name id = record {
  id = id;
  entra_tenant_id = entra_tenant_id;
  identity_scope_key = scope_key;
  account_type = codes "organization";
  display_name = name;
  status = active;
  consented_at = none;
  version = 1;
}

abbrev pub admin_name : Text
admin_name = codes "TenantAdministrator"

abbrev pub new_role : ℕ → ℕ → Role
new_role tenant_id id = record {
  id = id;
  tenant_id = tenant_id;
  name = admin_name;
  description = some (codes "Full Sentinel administration within one tenant");
  is_system = true;
}

abbrev pub new_user : ℕ → ℕ → ℕ → Text → ℕ → User
new_user now tenant_id object_id name id = record {
  id = id;
  tenant_id = tenant_id;
  entra_object_id = object_id;
  principal_name = none;
  display_name = name;
  email = none;
  is_active = true;
  last_login_at = now;
  version = 1;
}

-- `print` is Python's `str` of a UUID and `parse` is `UUID`, which is `none` for a `ValueError`.
module _ (print : ℕ → Text) (parse : Text → Option ℕ) (settings : Settings) where
  abbrev pub tenant_of : ℕ → Store → Tenant × List Tenant × ℕ
  tenant_of entra_tenant_id store =
      let scope_key = identity_scope_key print entra_tenant_id 0 in
      ensure (has_scope scope_key)
        (new_tenant entra_tenant_id scope_key settings.bootstrap_tenant_name) store.tenants
        store.next_id

  -- The tenant, its role and the grants of the permissions.
  unfoldable pub with_tenant : List Permission → ℕ → Store → Tenant × Role × Store
  with_tenant permissions entra_tenant_id store =
      let (tenant, tenants, next_id) = tenant_of entra_tenant_id store in
      let (role, roles, next_id') =
        ensure (is_role tenant.id admin_name) (new_role tenant.id) store.roles next_id in
      (
        tenant,
        role,
        record store {
          tenants = tenants;
          roles = roles;
          role_permissions = grant_each role.id permissions store.role_permissions;
          next_id = next_id';
        },
      )

  -- The administrator and the role's assignment.
  unfoldable pub with_admin : ℕ → ℕ → ℕ → ℕ → Store → Store
  with_admin now object_id tenant_id role_id store =
      let (user, users, next_id) =
        ensure (is_user tenant_id object_id)
          (new_user now tenant_id object_id settings.bootstrap_admin_name) store.users
          store.next_id in
      record store {
        users = users;
        user_roles = assign_role now tenant_id user.id role_id store.user_roles;
        next_id = next_id;
      }

  -- The UUID that a setting names, if it is set.
  abbrev pub configured : Option Text → Reply (Option ℕ)
  configured setting = elim (present setting) [
    | none ↦ reply none
    | some text ↦ elim (parse text) [ none ↦ raised | some id ↦ reply (some id) ]
  ]

  abbrev pub admin_step : ℕ → Tenant → Role → Store → Option ℕ → Store
  admin_step now tenant role store none = store
  admin_step now tenant role store (some object_id) =
      with_admin now object_id tenant.id role.id store

  abbrev pub bootstrap_admin : ℕ → Tenant → Role → Store → Reply Store
  bootstrap_admin now tenant role store = do
    object_id ← configured settings.bootstrap_admin_object_id
    reply (admin_step now tenant role store object_id)

  abbrev pub tenant_step : ℕ → List Permission → Store → Option ℕ → Reply Store
  tenant_step now permissions store none = reply store
  tenant_step now permissions store (some entra_tenant_id) =
      let (tenant, role, store') = with_tenant permissions entra_tenant_id store in
      bootstrap_admin now tenant role store'

  abbrev pub bootstrap_tenant : ℕ → List Permission → Store → Reply Store
  bootstrap_tenant now permissions store = do
    entra_tenant_id ← configured settings.bootstrap_tenant_id
    tenant_step now permissions store entra_tenant_id

  abbrev pub seeded : Store → List Permission × Store
  seeded store =
      let (permissions, rows, next_id) =
        ensure_permissions all_permissions store.permissions store.next_id in
      (permissions, record store { permissions = rows; next_id = next_id })

  -- What raises is rolled back, and the service does not start.
  unfoldable pub bootstrap_identity : ℕ → Store → Reply Store
  bootstrap_identity now store =
      let (permissions, store') = seeded store in bootstrap_tenant now permissions store'
