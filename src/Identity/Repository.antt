-- ===== src/Identity/Repository.antt =====
-- `IdentityRepository` of apps/identity-service/src/sentinel_identity/repository.py. A method is a
-- function of the tables that it reads, and returns those that it writes with the next fresh key.
use sentinel_keyvault.Common.{
  text_or_else, ℕ, suc, ◌+◌, Bool, true, false, ◌&&◌, Option, none, some, List, [], ◌∷◌, ◌++◌, Text,
  codes, text_eq, ◌==◌, find, any, select, length, write, if◌then◌else◌,
}
use sentinel_keyvault.Identity.Models.{
  Tenant, User, Role, Permission, RolePermission, UserRole, OAuthConnection,
}
use sentinel_keyvault.Identity.Models.TenantStatus.{active}

unfoldable pub get_tenant_by_scope_key : Text → List Tenant → Option Tenant
get_tenant_by_scope_key scope_key = find (λ t. text_eq t.identity_scope_key scope_key)

unfoldable pub get_tenant_by_id : ℕ → List Tenant → Option Tenant
get_tenant_by_id tenant_id = find (λ t. t.id == tenant_id)

-- `print` is Python's `str` of a UUID.
unfoldable pub get_or_create_tenant :
    (ℕ → Text)
    → ℕ
    → ℕ
    → Text
    → Text
    → Option Text
    → List Tenant
    → ℕ
    → Tenant × Bool × List Tenant × ℕ
unfolding get_tenant_by_scope_key
get_or_create_tenant print now entra_tenant_id scope_key account_type display_name tenants next_id =
    elim (get_tenant_by_scope_key scope_key tenants) [
      | some tenant ↦
          let named = record tenant {
            display_name = text_or_else display_name tenant.display_name;
          } in
          (named, false, write (λ t. t.id) named tenants, next_id)
      | none ↦
          let tenant : Tenant = record {
            id = next_id;
            entra_tenant_id = entra_tenant_id;
            identity_scope_key = scope_key;
            account_type = account_type;
            display_name = text_or_else display_name (print entra_tenant_id);
            status = active;
            consented_at = some now;
            version = 1;
          } in
          (tenant, true, tenants ++ tenant ∷ [], suc next_id)
    ]

abbrev pub is_user : ℕ → ℕ → User → Bool
is_user tenant_id entra_object_id u =
    u.tenant_id == tenant_id && u.entra_object_id == entra_object_id

unfoldable pub synchronize_user :
    ℕ → ℕ → ℕ → Text → Option Text → List User → ℕ → User × List User × ℕ
synchronize_user now tenant_id entra_object_id display_name principal_name users next_id =
    elim (find (is_user tenant_id entra_object_id) users) [
      | none ↦
          let user : User = record {
            id = next_id;
            tenant_id = tenant_id;
            entra_object_id = entra_object_id;
            principal_name = principal_name;
            display_name = display_name;
            email = principal_name;
            is_active = true;
            last_login_at = now;
            version = 1;
          } in
          (user, users ++ user ∷ [], suc next_id)
      | some u ↦
          let user = record u {
            display_name = display_name;
            principal_name = principal_name;
            email = principal_name;
            last_login_at = now;
            version = u.version + 1;
          } in
          (user, write (λ u. u.id) user users, next_id)
    ]

unfoldable pub get_user_by_id : ℕ → ℕ → List User → Option User
get_user_by_id tenant_id user_id = find (λ u. u.tenant_id == tenant_id && u.id == user_id)

unfoldable pub count_users : ℕ → List User → ℕ
count_users tenant_id users = length (select (λ u. u.tenant_id == tenant_id) users)

abbrev pub is_role : ℕ → Text → Role → Bool
is_role tenant_id name r = r.tenant_id == tenant_id && text_eq r.name name

unfoldable pub get_or_create_role : ℕ → Text → Text → List Role → ℕ → Role × List Role × ℕ
get_or_create_role tenant_id name description roles next_id =
    elim (find (is_role tenant_id name) roles) [
      | some role ↦ (role, roles, next_id)
      | none ↦
          let role : Role = record {
            id = next_id;
            tenant_id = tenant_id;
            name = name;
            description = some description;
            is_system = true;
          } in
          (role, roles ++ role ∷ [], suc next_id)
    ]

abbrev pub is_grant : ℕ → ℕ → RolePermission → Bool
is_grant role_id permission_id g = g.role_id == role_id && g.permission_id == permission_id

-- The loop over the permissions with the names.
unfoldable pub grant_each : ℕ → List Permission → List RolePermission → List RolePermission
grant_each role_id [] grants = grants
grant_each role_id (p ∷ ps) grants = grant_each role_id ps (
    if any (is_grant role_id p.id) grants
    then grants
    else grants ++ record { role_id = role_id; permission_id = p.id } ∷ [])

abbrev pub has_name : List Text → Permission → Bool
has_name names p = any (λ n. text_eq p.name n) names

unfoldable pub grant_permissions :
    ℕ → List Text → List Permission → List RolePermission → List RolePermission
unfolding grant_each
grant_permissions role_id names permissions grants =
    grant_each role_id (select (has_name names) permissions) grants

abbrev pub is_assignment : ℕ → ℕ → ℕ → UserRole → Bool
is_assignment tenant_id user_id role_id a =
    a.tenant_id == tenant_id
    && a.user_id == user_id
    && a.role_id == role_id
    && text_eq a.scope_type (codes "tenant")
    && text_eq a.scope_id (codes "*")

unfoldable pub assign_role : ℕ → ℕ → ℕ → ℕ → List UserRole → List UserRole
assign_role now tenant_id user_id role_id assignments =
    if any (is_assignment tenant_id user_id role_id) assignments
    then assignments
    else assignments
      ++ record {
        tenant_id = tenant_id;
        user_id = user_id;
        role_id = role_id;
        scope_type = codes "tenant";
        scope_id = codes "*";
        assigned_by = none;
        assigned_at = now;
        expires_at = none;
      }
        ∷ []

-- `" ".join(scopes)`
abbrev pub join_scopes : List Text → Text
join_scopes [] = []
join_scopes (s ∷ []) = s
join_scopes (s ∷ t ∷ rest) = s ++ (codes " " ++ join_scopes (t ∷ rest))

abbrev pub is_connection : ℕ → ℕ → OAuthConnection → Bool
is_connection tenant_id user_id c =
    c.tenant_id == tenant_id && c.user_id == user_id && text_eq c.provider (codes "microsoft")

unfoldable pub upsert_oauth_connection :
    ℕ → ℕ → ℕ → Text → List Text → Text → List OAuthConnection → ℕ → List OAuthConnection × ℕ
upsert_oauth_connection now tenant_id user_id token scopes authority connections next_id =
    elim (find (is_connection tenant_id user_id) connections) [
      | none ↦ (
        connections
            ++ record {
              id = next_id;
              tenant_id = tenant_id;
              user_id = user_id;
              provider = codes "microsoft";
              token_authority = authority;
              scopes = join_scopes scopes;
              encrypted_refresh_token = token;
              last_refreshed_at = none;
            }
              ∷ [],
        suc next_id,
      )
      | some c ↦
          let renewed = record c {
            scopes = join_scopes scopes;
            token_authority = authority;
            encrypted_refresh_token = token;
            last_refreshed_at = some now;
          } in
          (write (λ c. c.id) renewed connections, next_id)
    ]

-- A tenant's user has one connection with a provider, by a constraint of the table.
unfoldable pub get_oauth_connection : ℕ → ℕ → List OAuthConnection → Option OAuthConnection
get_oauth_connection tenant_id user_id = find (is_connection tenant_id user_id)
