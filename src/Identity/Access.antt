-- ===== src/Identity/Access.antt =====
-- Who asks: `get_identity` of apps/identity-service/src/sentinel_identity/dependencies.py, and the
-- handlers of main.py that answer with what the identity may do.
pub mod Permits
mod Tests
use sentinel_keyvault.Common.{
  text_le, ℕ, suc, Bool, true, false, Option, none, some, List, [], ◌∷◌, ◌++◌, Text, codes, text_in,
  get, order_by, if◌then◌else◌,
}
use Prim.Native.Nat.{◌/◌}
use sentinel_keyvault.Platform.Json.{Json, Fields}
use sentinel_keyvault.Platform.Reply.{Reply, reply, refused, raised, ◌>>=◌, ◌>>◌, check}
use sentinel_keyvault.Platform.Settings.{Settings, present}
use sentinel_keyvault.Platform.Events.{AuditEvent}
use sentinel_keyvault.Platform.Outbox.{OutboxRecord, enqueue_audit}
use sentinel_keyvault.Platform.Jwt.{Jwt}
use sentinel_keyvault.Platform.Python.{Python}
use sentinel_keyvault.Platform.Actor.{ActorContext, ProfileResponse, ProfileAnswer}
use sentinel_keyvault.Platform.Auth.{SigningKeys, validate}
use sentinel_keyvault.Identity.Models.{Tenant, User, Role, Permission, Store}
use sentinel_keyvault.Identity.Permissions.{names_of, list_permissions, list_roles_with_permissions}
use sentinel_keyvault.Identity.Service.{
  ResolvedIdentity, Resolution, resolved, denied, Denial, resolve_session, resolve_and_sync,
}
use sentinel_keyvault.Identity.Session.{SessionClaims, decode}

-- The statuses and details of the service's exceptions.
abbrev pub answer_of : Resolution → Reply ResolvedIdentity
answer_of (resolved identity) = reply identity
answer_of (denied Denial.not_onboarded) =
    refused 403 (Json.str (codes "Tenant has not been onboarded"))
answer_of (denied Denial.tenant_not_active) = refused 403 (Json.str (codes "Tenant is not active"))
answer_of (denied Denial.user_disabled) = refused 403 (Json.str (codes "User is disabled"))
answer_of (denied Denial.session_user_not_active) =
    refused 401 (Json.str (codes "Session user is not active"))

-- The session's cookie and the bearer's token of a request.
pub record Credentials : Type 0 where
  pub cookies : List (Text × Text)
  pub bearer : Option Text

module _ (jwt : Jwt) (keys : SigningKeys) (python : Python) (settings : Settings) where
  abbrev pub by_session : ℕ → Text → Store → Reply ResolvedIdentity
  by_session now token store = do
    claims ← decode python jwt settings (now / 1000000) token
    answer_of (resolve_session now claims.tenant_id claims.user_id store)

  abbrev pub by_token : ℕ → Text → Store → Reply ResolvedIdentity × Store
  by_token now token store = elim (validate jwt keys python settings (now / 1000000) token none) [
    | reply principal ↦
        let (resolution, after) = resolve_and_sync python.print_uuid now principal store in
        (answer_of resolution, after)
    | refused status detail ↦ (refused status detail, store)
    | raised ↦ (raised, store)
  ]

  -- `get_identity`
  unfoldable pub get_identity : ℕ → Credentials → Store → Reply ResolvedIdentity × Store
  get_identity now credentials store =
      elim (present (get settings.session_cookie_name credentials.cookies)) [
        | some token ↦ (by_session now token store, store)
        | none ↦ elim credentials.bearer [
          | some token ↦ by_token now token store
          | none ↦ (refused 401 (Json.str (codes "Not authenticated")), store)
        ]
      ]

-- `request.state.actor`
abbrev pub actor_of : ℕ → ResolvedIdentity → ActorContext
actor_of correlation_id identity = record {
  tenant_id = identity.tenant.id;
  entra_tenant_id = identity.tenant.entra_tenant_id;
  actor_id = identity.user.id;
  entra_object_id = identity.user.entra_object_id;
  display_name = identity.user.display_name;
  principal_name = identity.user.principal_name;
  permissions = names_of identity.permissions;
  correlation_id = correlation_id;
}

abbrev pub role_names : List Role → List Text
role_names [] = []
role_names (r ∷ rs) = r.name ∷ role_names rs

unfoldable pub profile_of : ResolvedIdentity → ProfileResponse
profile_of identity = record {
  user_id = identity.user.id;
  tenant_id = identity.tenant.id;
  entra_tenant_id = identity.tenant.entra_tenant_id;
  entra_object_id = identity.user.entra_object_id;
  display_name = identity.user.display_name;
  principal_name = identity.user.principal_name;
  roles = order_by text_le (role_names identity.roles);
  permissions = order_by text_le (names_of identity.permissions);
}

-- What another service gets for a request for the profile: the status of an exception, which is 500
-- where it is no `HTTPException`, or the profile.
abbrev pub profile_answer : Reply ResolvedIdentity → ProfileAnswer
profile_answer (reply identity) = ProfileAnswer.profile (profile_of identity)
profile_answer (refused status detail) = ProfileAnswer.failed status
profile_answer raised = ProfileAnswer.failed 500

abbrev pub profile_event : (ℕ → Text) → ℕ → ℕ → ℕ → ResolvedIdentity → AuditEvent
profile_event print event_id now correlation_id identity = record {
  event = record {
    specversion = codes "1.0";
    id = event_id;
    source = codes "identity-service";
    type = codes "identity.user-synchronized.v1";
    subject = codes "user/" ++ print identity.user.id;
    time = now;
    datacontenttype = codes "application/json";
    tenant_id = identity.tenant.id;
    correlation_id = correlation_id;
    payload = Json.obj (
        Fields.field (codes "entra_object_id") (Json.str (print identity.user.entra_object_id))
          Fields.end);
  };
  actor_type = codes "user";
  actor_id = print identity.user.id;
  action = codes "identity.profile.read";
  entity_type = codes "user";
  entity_id = some (print identity.user.id);
  outcome = codes "succeeded";
}

-- The handler `profile`, after `get_identity`: its answer, and the outbox with the audit event.
-- `event_id` and `row_id` are fresh.
unfoldable pub profile :
    (ℕ → Text)
    → ℕ
    → ℕ
    → ℕ
    → ℕ
    → ResolvedIdentity
    → List OutboxRecord
    → ProfileResponse × List OutboxRecord
unfolding profile_of
profile print event_id row_id now correlation_id identity outbox = (
  profile_of identity,
  enqueue_audit row_id now (codes "audit")
      (profile_event print event_id now correlation_id identity) outbox,
)

abbrev pub may_read_roles : ResolvedIdentity → Bool
may_read_roles identity = text_in (codes "identity.roles.read") (names_of identity.permissions)

pub record PermissionResponse : Type 0 where
  pub name : Text
  pub description : Text

abbrev pub permission_responses : List Permission → List PermissionResponse
permission_responses [] = []
permission_responses (p ∷ ps) =
    record { name = p.name; description = p.description } ∷ permission_responses ps

-- The handler `permissions`
unfoldable pub permissions : ResolvedIdentity → Store → List PermissionResponse
permissions identity store =
    permission_responses
      (if may_read_roles identity then list_permissions store.permissions else identity.permissions)

pub record RoleResponse : Type 0 where
  pub id : ℕ
  pub name : Text
  pub description : Option Text
  pub permissions : List Text

abbrev pub role_responses : List (Role × List Text) → List RoleResponse
role_responses [] = []
role_responses ((role, permissions) ∷ rows) =
    record {
      id = role.id;
      name = role.name;
      description = role.description;
      permissions = permissions;
    }
    ∷ role_responses rows

-- The handler `roles`
unfoldable pub roles : ResolvedIdentity → Store → Reply (List RoleResponse)
roles identity store = do
  check (may_read_roles identity) (refused 403 (Json.str (codes "identity.roles.read is required")))
  reply (
      role_responses (
        list_roles_with_permissions identity.tenant.id store.roles store.permissions
          store.role_permissions))
