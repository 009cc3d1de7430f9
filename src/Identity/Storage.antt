-- ===== src/Identity/Storage.antt =====
-- `LoginBlobRecorder` of apps/identity-service/src/sentinel_identity/storage.py. The storage
-- account is the list of the documents in it, and `None` where none is configured.
use sentinel_keyvault.Common.{ℕ, Bool, true, false, List, [], ◌∷◌, ◌++◌, Text, codes}
use sentinel_keyvault.Platform.Reply.{Reply, reply, raised}
use sentinel_keyvault.Identity.Service.{ResolvedIdentity}

-- The document of a login: the ids of the tenant and of the user.
pub record LoginDocument : Type 0 where
  pub schema_version : ℕ
  pub event_type : Text
  pub occurred_at : ℕ
  pub correlation_id : ℕ
  pub tenant_id : ℕ
  pub entra_tenant_id : ℕ
  pub account_type : Text
  pub user_id : ℕ
  pub entra_object_id : ℕ

pub record Recorder : Type 0 where
  pub container_ready : Bool
  pub documents : List LoginDocument

-- What `create_container` and `upload_blob` do.
pub data Creation : Type 0 where
  made exists error : Creation

-- `_ensure_container`: a container that is there already is ready.
unfoldable pub ensure_container : Creation → Recorder → Reply Recorder
ensure_container creation r = elim r.container_ready [
  | true ↦ reply r
  | false ↦ elim creation [
    | made ↦ reply (record r { container_ready = true })
    | exists ↦ reply (record r { container_ready = true })
    | error ↦ raised
  ]
]

abbrev pub document_of : ℕ → ℕ → ResolvedIdentity → LoginDocument
document_of now correlation_id identity = record {
  schema_version = 1;
  event_type = codes "identity.login.succeeded";
  occurred_at = now;
  correlation_id = correlation_id;
  tenant_id = identity.tenant.id;
  entra_tenant_id = identity.tenant.entra_tenant_id;
  account_type = identity.tenant.account_type;
  user_id = identity.user.id;
  entra_object_id = identity.user.entra_object_id;
}

-- `record_login`, with the state that the recorder is in afterwards; `uploaded` is whether
-- `upload_blob` succeeds.
unfoldable pub record_login :
    Creation → Bool → ℕ → ℕ → ResolvedIdentity → Recorder → Reply (Unit {0}) × Recorder
unfolding ensure_container
record_login creation uploaded now correlation_id identity recorder =
    elim (ensure_container creation recorder) [
      | reply r ↦ elim uploaded [
        | true ↦ (
          reply tt,
          record r { documents = r.documents ++ document_of now correlation_id identity ∷ [] },
        )
        | false ↦ (raised, r)
      ]
      | _ ↦ (raised, recorder)
    ]
