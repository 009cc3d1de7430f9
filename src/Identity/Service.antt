-- ===== src/Identity/Service.antt =====
-- `IdentityService` of apps/identity-service/src/sentinel_identity/service.py. A call that raises
-- leaves the tables as they were, since its unit of work rolls back.
pub mod Guards
pub mod Onboarding
use sentinel_keyvault.Common.{
  ℕ, zero, suc, ◌+◌, Bool, true, false, ◌&&◌, ◌||◌, not, Option, none, some, List, [], ◌∷◌, ◌++◌,
  Text, codes, ◌==◌, if◌then◌else◌,
}
use sentinel_keyvault.Platform.Auth.{TokenPrincipal}
use sentinel_keyvault.Identity.Models.{
  Tenant, User, Role, Permission, RolePermission, UserRole, OAuthConnection, Store,
  is_active_status,
}
use sentinel_keyvault.Identity.Account.{identity_scope_key, is_personal_account}
use sentinel_keyvault.Identity.Permissions.{effective_roles, effective_permissions}
use sentinel_keyvault.Identity.Repository.{
  get_tenant_by_scope_key, get_tenant_by_id, get_or_create_tenant, synchronize_user, get_user_by_id,
  count_users, get_or_create_role, grant_permissions, assign_role, upsert_oauth_connection,
}

pub record ResolvedIdentity : Type 0 where
  pub tenant : Tenant
  pub user : User
  pub roles : List Role
  pub permissions : List Permission

-- The exceptions, by their details.
pub data Denial : Type 0 where
  not_onboarded : Denial
  tenant_not_active : Denial
  user_disabled : Denial
  session_user_not_active : Denial

pub data Resolution : Type 0 where
  resolved : ResolvedIdentity → Resolution
  denied : Denial → Resolution

-- What both ways of signing in end with.
abbrev pub identity_of : ℕ → Tenant → User → Store → ResolvedIdentity
identity_of now tenant user store = record {
  tenant = tenant;
  user = user;
  roles = effective_roles now tenant.id user.id store.roles store.user_roles;
  permissions =
      effective_permissions now tenant.id user.id store.permissions store.role_permissions
        store.roles store.user_roles;
}

-- `print` is Python's `str` of a UUID.
unfoldable pub resolve_and_sync : (ℕ → Text) → ℕ → TokenPrincipal → Store → Resolution × Store
resolve_and_sync print now principal store =
    elim (get_tenant_by_scope_key
      (identity_scope_key print principal.entra_tenant_id principal.entra_object_id)
      store.tenants) [
        | none ↦ (denied Denial.not_onboarded, store)
        | some tenant ↦
            let (user, users, next_id) =
              synchronize_user now tenant.id principal.entra_object_id principal.display_name
                principal.principal_name store.users store.next_id in
            if is_active_status tenant.status
            then (if user.is_active
                then (
                  resolved (identity_of now tenant user store),
                  record store { users = users; next_id = next_id },
                )
                else (denied Denial.user_disabled, store))
            else (denied Denial.tenant_not_active, store)
      ]

abbrev pub session_identity : ℕ → ℕ → ℕ → Tenant → User → Store → ResolvedIdentity
session_identity now tenant_id user_id tenant user store = record {
  tenant = tenant;
  user = user;
  roles = effective_roles now tenant_id user_id store.roles store.user_roles;
  permissions =
      effective_permissions now tenant_id user_id store.permissions store.role_permissions
        store.roles store.user_roles;
}

unfoldable pub resolve_session : ℕ → ℕ → ℕ → Store → Resolution
resolve_session now tenant_id user_id store = elim (get_user_by_id tenant_id user_id store.users) [
  | none ↦ denied Denial.session_user_not_active
  | some user ↦
      if user.is_active
      then elim (get_tenant_by_id tenant_id store.tenants) [
        | none ↦ denied Denial.tenant_not_active
        | some tenant ↦
            if is_active_status tenant.status
            then resolved (session_identity now tenant_id user_id tenant user store)
            else denied Denial.tenant_not_active
      ]
      else denied Denial.session_user_not_active
]

abbrev pub role_name : Bool → Text
role_name true = codes "TenantAdministrator"
role_name false = codes "Reader"

abbrev pub role_description : Bool → Text
role_description true = codes "Full Sentinel administration within one tenant"
role_description false = codes "Read-only Sentinel access"

abbrev pub permission_names : Bool → List Text
permission_names true =
    codes "tenant.onboarding.manage"
    ∷ codes "identity.roles.read"
    ∷ codes "identity.roles.assign"
    ∷ codes "inventory.resources.read"
    ∷ codes "inventory.sync.execute"
    ∷ codes "relationships.read"
    ∷ codes "analysis.create"
    ∷ codes "analysis.read"
    ∷ codes "operations.create"
    ∷ codes "operations.approve"
    ∷ codes "operations.execute"
    ∷ codes "operations.cancel"
    ∷ codes "audit.read"
    ∷ codes "audit.export"
    ∷ codes "settings.manage"
    ∷ []
permission_names false =
    codes "inventory.resources.read"
    ∷ codes "relationships.read"
    ∷ codes "analysis.read"
    ∷ codes "audit.read"
    ∷ []

-- `tenant_display_name or (principal.display_name if personal else None)`
abbrev pub tenant_name : Option Text → TokenPrincipal → Option Text
tenant_name (some (c ∷ cs)) principal = some (c ∷ cs)
tenant_name _ principal =
    if is_personal_account principal.entra_tenant_id then some principal.display_name else none

-- The arguments of `onboard_oauth_user` after the principal.
pub record Connection : Type 0 where
  pub tenant_display_name : Option Text
  pub encrypted_refresh_token : Text
  pub scopes : List Text
  pub token_authority : Text

module _ (print : ℕ → Text) (now : ℕ) (principal : TokenPrincipal) (connection : Connection)
    (store : Store) where
  -- `tenant, created`, and the table
  abbrev pub tenant_step : Tenant × Bool × List Tenant × ℕ
  tenant_step =
      get_or_create_tenant print now principal.entra_tenant_id
        (identity_scope_key print principal.entra_tenant_id principal.entra_object_id)
        (if is_personal_account principal.entra_tenant_id
          then codes "personal"
          else codes "organization")
        (tenant_name connection.tenant_display_name principal) store.tenants store.next_id

  abbrev pub user_step : User × List User × ℕ
  user_step =
      synchronize_user now tenant_step.0.id principal.entra_object_id principal.display_name
        principal.principal_name store.users tenant_step.3

  -- `created or existing_count == 0`
  abbrev pub is_first : Bool
  is_first = tenant_step.1 || count_users tenant_step.0.id store.users == 0

  abbrev pub role_step : Role × List Role × ℕ
  role_step =
      get_or_create_role tenant_step.0.id (role_name is_first) (role_description is_first)
        store.roles user_step.2

  abbrev pub connection_step : List OAuthConnection × ℕ
  connection_step =
      upsert_oauth_connection now tenant_step.0.id user_step.0.id connection.encrypted_refresh_token
        connection.scopes connection.token_authority store.connections role_step.2

  abbrev pub onboarded : Store
  onboarded = record store {
    tenants = tenant_step.2;
    users = user_step.1;
    roles = role_step.1;
    role_permissions =
        grant_permissions role_step.0.id (permission_names is_first) store.permissions
          store.role_permissions;
    user_roles = assign_role now tenant_step.0.id user_step.0.id role_step.0.id store.user_roles;
    connections = connection_step.0;
    next_id = connection_step.1;
  }

  abbrev pub onboard_oauth_user : ResolvedIdentity × Store
  onboard_oauth_user = (identity_of now tenant_step.0 user_step.0 onboarded, onboarded)
