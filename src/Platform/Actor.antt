-- ===== src/Platform/Actor.antt =====
-- The actor of a request and its permissions, in packages/python/sentinel_common/auth.py and
-- context.py.
use sentinel_keyvault.Common.{
  ℕ, Option, none, some, List, ◌++◌, Text, codes, text_eq, text_in, ◌==◌, if◌then◌else◌,
}
use sentinel_keyvault.Platform.Json.{Json}
use sentinel_keyvault.Platform.Reply.{Reply, reply, refused, raised, ◌>>=◌, ◌>>◌, check}
use sentinel_keyvault.Platform.Settings.{Settings, present}

pub record ActorContext : Type 0 where
  pub tenant_id : ℕ
  pub entra_tenant_id : ℕ
  pub actor_id : ℕ
  pub entra_object_id : ℕ
  pub display_name : Text
  pub principal_name : Option Text
  pub permissions : List Text
  pub correlation_id : ℕ

-- `ProfileResponse` of apps/identity-service/src/sentinel_identity/schemas.py
pub record ProfileResponse : Type 0 where
  pub user_id : ℕ
  pub tenant_id : ℕ
  pub entra_tenant_id : ℕ
  pub entra_object_id : ℕ
  pub display_name : Text
  pub principal_name : Option Text
  pub roles : List Text
  pub permissions : List Text

-- The answer of the identity service to a request for a profile: the exception of the HTTP client,
-- an error's status, or the profile.
pub data ProfileAnswer : Type 0 where
  unreachable : ProfileAnswer
  failed : ℕ → ProfileAnswer
  profile : ProfileResponse → ProfileAnswer

-- `IdentityProfileClient.resolve`
unfoldable pub resolve : ProfileAnswer → Reply ProfileResponse
resolve unreachable = raised
resolve (failed status) =
    if status == 401
    then refused 401 (Json.str (codes "Authentication failed"))
    else if status == 403
    then refused 403 (Json.str (codes "Tenant or user is not authorized"))
    else raised
resolve (profile p) = reply p

-- `get_actor`, of `actor_dependency`
unfoldable pub get_actor : ℕ → ProfileAnswer → Reply ActorContext
unfolding resolve
get_actor correlation_id answer = do
  p ← resolve answer
  reply record {
    tenant_id = p.tenant_id;
    entra_tenant_id = p.entra_tenant_id;
    actor_id = p.user_id;
    entra_object_id = p.entra_object_id;
    display_name = p.display_name;
    principal_name = p.principal_name;
    permissions = p.permissions;
    correlation_id = correlation_id;
  }

-- `require`, of `permission_dependency`
unfoldable pub require_permission : Text → Reply ActorContext → Reply ActorContext
require_permission permission get_actor = do
  actor ← get_actor
  check (text_in permission actor.permissions)
      (refused 403 (Json.str (codes "Permission " ++ (permission ++ codes " is required"))))
  reply actor

-- The guard of the internal endpoints of the audit and the relationship service.
unfoldable pub check_internal : Settings → Option Text → Reply (Unit {0})
check_internal settings x_internal_token = elim (present settings.internal_api_token) [
  | none ↦ refused 401 (Json.str (codes "Invalid internal credential"))
  | some token ↦ elim x_internal_token [
    | none ↦ refused 401 (Json.str (codes "Invalid internal credential"))
    | some x ↦
        check (text_eq x token) (refused 401 (Json.str (codes "Invalid internal credential")))
  ]
]
