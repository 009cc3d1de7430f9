-- ===== src/Identity/Models.antt =====
-- apps/identity-service/src/sentinel_identity/models.py, less the columns `created_at` and
-- `updated_at` of the mixins.
use sentinel_keyvault.Common.{ℕ, Option, List, Text, Bool, true, false}

-- `tenant_status_enum`
pub data TenantStatus : Type 0 where
  pending_consent : TenantStatus
  active : TenantStatus
  suspended : TenantStatus
  offboarding : TenantStatus
  offboarded : TenantStatus

abbrev pub is_active_status : TenantStatus → Bool
is_active_status active = true
is_active_status _ = false

pub record Tenant : Type 0 where
  pub id : ℕ
  pub entra_tenant_id : ℕ
  pub identity_scope_key : Text
  pub account_type : Text
  pub display_name : Text
  pub status : TenantStatus
  pub consented_at : Option ℕ
  pub version : ℕ

pub record User : Type 0 where
  pub id : ℕ
  pub tenant_id : ℕ
  pub entra_object_id : ℕ
  pub principal_name : Option Text
  pub display_name : Text
  pub email : Option Text
  pub is_active : Bool
  pub last_login_at : ℕ
  pub version : ℕ

pub record Role : Type 0 where
  pub id : ℕ
  pub tenant_id : ℕ
  pub name : Text
  pub description : Option Text
  pub is_system : Bool

pub record Permission : Type 0 where
  pub id : ℕ
  pub name : Text
  pub description : Text

pub record RolePermission : Type 0 where
  pub role_id : ℕ
  pub permission_id : ℕ

pub record UserRole : Type 0 where
  pub tenant_id : ℕ
  pub user_id : ℕ
  pub role_id : ℕ
  pub scope_type : Text
  pub scope_id : Text
  pub assigned_by : Option ℕ
  pub assigned_at : ℕ
  pub expires_at : Option ℕ

pub record OAuthConnection : Type 0 where
  pub id : ℕ
  pub tenant_id : ℕ
  pub user_id : ℕ
  pub provider : Text
  pub token_authority : Text
  pub scopes : Text
  pub encrypted_refresh_token : Text
  pub last_refreshed_at : Option ℕ

-- The tables. `next_id` is the next fresh primary key.
pub record Store : Type 0 where
  pub tenants : List Tenant
  pub users : List User
  pub roles : List Role
  pub permissions : List Permission
  pub role_permissions : List RolePermission
  pub user_roles : List UserRole
  pub connections : List OAuthConnection
  pub next_id : ℕ
