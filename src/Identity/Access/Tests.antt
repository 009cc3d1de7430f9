-- ===== src/Identity/Access/Tests.antt =====
-- A reader of audit evidence, at a service that asks for that permission.
use sentinel_keyvault.Common.{◌≡◌, refl, true, none, [], ◌∷◌, codes, order_by}
use sentinel_keyvault.Platform.Actor.{ActorContext, get_actor, require_permission}
use sentinel_keyvault.Platform.Samples.{settings, python, jwt, keys}
use sentinel_keyvault.Identity.Models.{Tenant, User, Store}
use sentinel_keyvault.Identity.Models.TenantStatus.{active}
use sentinel_keyvault.Identity.Permissions.{effective_permissions, effective_roles}
use sentinel_keyvault.Identity.Repository.{get_user_by_id, get_tenant_by_id}
use sentinel_keyvault.Identity.Service.{resolve_session}
use sentinel_keyvault.Identity.Session.{SessionClaims, payload_of, decode}
use sentinel_keyvault.Identity.Access.{Credentials, get_identity, profile_of}
use sentinel_keyvault.Identity.Access.Permits.{MayAct, permits_lem}

abbrev tenant : Tenant
tenant = record {
  id = 1;
  entra_tenant_id = 5;
  identity_scope_key = codes "tenant";
  account_type = codes "organization";
  display_name = codes "t";
  status = active;
  consented_at = none;
  version = 1;
}

abbrev user : User
user = record {
  id = 2;
  tenant_id = 1;
  entra_object_id = 6;
  principal_name = none;
  display_name = codes "u";
  email = none;
  is_active = true;
  last_login_at = 3;
  version = 1;
}

abbrev store : Store
store = record {
  tenants = tenant ∷ [];
  users = user ∷ [];
  roles =
      record { id = 3; tenant_id = 1; name = codes "Reader"; description = none; is_system = true }
      ∷ [];
  permissions = record { id = 4; name = codes "audit.read"; description = codes "d" } ∷ [];
  role_permissions = record { role_id = 3; permission_id = 4 } ∷ [];
  user_roles =
      record {
        tenant_id = 1;
        user_id = 2;
        role_id = 3;
        scope_type = codes "tenant";
        scope_id = codes "*";
        assigned_by = none;
        assigned_at = 3;
        expires_at = none;
      }
      ∷ [];
  connections = [];
  next_id = 5;
}

abbrev claims : SessionClaims
claims = record { user_id = 2; tenant_id = 1; entra_tenant_id = 5; entra_object_id = 6 }

abbrev credentials : Credentials
credentials = record { cookies = (codes "sid", codes "token") ∷ []; bearer = none }

abbrev actor : ActorContext
actor = record {
  tenant_id = 1;
  entra_tenant_id = 5;
  actor_id = 2;
  entra_object_id = 6;
  display_name = codes "u";
  principal_name = none;
  permissions = codes "audit.read" ∷ [];
  correlation_id = 9;
}

permits_lem_example :
    MayAct 100000000 (codes "audit.read") claims store
    × (actor.tenant_id ≡ 1)
    × (actor.actor_id ≡ 2)
unfolding get_identity decode resolve_session get_user_by_id get_tenant_by_id effective_permissions
    effective_roles order_by profile_of get_actor require_permission
permits_lem_example =
    (permits_lem (jwt (payload_of python settings 100 claims)) keys python settings 100000000 9
        (codes "audit.read") store credentials (codes "token") claims refl refl).0
      actor refl
