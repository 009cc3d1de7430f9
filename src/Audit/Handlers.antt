-- ===== src/Audit/Handlers.antt =====
-- The handlers of apps/audit-service/src/sentinel_audit/main.py and the answers of schemas.py.
use sentinel_keyvault.Common.{ℕ, Option, none, some, List, [], ◌∷◌, Text, codes}
use mathlib.Core.List.{reverse}
use sentinel_keyvault.Platform.Json.{Json}
use sentinel_keyvault.Platform.Events.{AuditEvent}
use sentinel_keyvault.Platform.Reply.{Reply, reply, raised, ◌>>=◌, ◌>>◌, require}
use sentinel_keyvault.Platform.Settings.{Settings}
use sentinel_keyvault.Platform.Actor.{ActorContext, require_permission, check_internal}
use sentinel_keyvault.Audit.Models.{AuditLog, Evidence}
use sentinel_keyvault.Audit.Ingest.{Tables, ingest}
use sentinel_keyvault.Audit.Search.{Filters, search}

-- `read_audit`, of the outcome of `get_actor`
abbrev pub read_audit : Reply ActorContext → Reply ActorContext
read_audit = require_permission (codes "audit.read")

pub record AuditLogResponse (Hash : Type 0) : Type 0 where
  pub id : ℕ
  pub event_id : ℕ
  pub occurred_at : ℕ
  pub actor_type : Text
  pub actor_id : Text
  pub action : Text
  pub entity_type : Text
  pub entity_id : Option Text
  pub outcome : Text
  pub source_service : Text
  pub correlation_id : ℕ
  pub metadata_json : Json
  pub record_hash : Hash

module _ {Hash : Type 0} where
  abbrev pub response_of : AuditLog Hash → AuditLogResponse Hash
  response_of r = record {
    id = r.id;
    event_id = r.event_id;
    occurred_at = r.occurred_at;
    actor_type = r.actor_type;
    actor_id = r.actor_id;
    action = r.action;
    entity_type = r.entity_type;
    entity_id = r.entity_id;
    outcome = r.outcome;
    source_service = r.source_service;
    correlation_id = r.correlation_id;
    metadata_json = r.metadata_json;
    record_hash = r.record_hash;
  }

  abbrev pub responses : List (AuditLog Hash) → List (AuditLogResponse Hash)
  responses [] = []
  responses (r ∷ rs) = response_of r ∷ responses rs

  -- The handler `events`; the limit is from 1 to 1000, by its declaration.
  unfoldable pub events :
      Reply ActorContext → Filters → ℕ → List (AuditLog Hash) → Reply (List (AuditLogResponse Hash))
  events get_actor filters limit logs = do
    actor ← read_audit get_actor
    reply (responses (search actor.tenant_id filters limit logs))

  -- The handler `operation_timeline`: the oldest event first.
  unfoldable pub operation_timeline :
      (ℕ → Text)
      → Reply ActorContext
      → ℕ
      → List (AuditLog Hash)
      → Reply (List (AuditLogResponse Hash))
  operation_timeline print get_actor operation_id logs = do
    actor ← read_audit get_actor
    reply (
        responses (
          reverse (
            search actor.tenant_id
              record {
                start = none;
                end = none;
                actor_id = none;
                action = none;
                entity_type = some (codes "operation");
                entity_id = some (print operation_id);
                outcome = none;
                correlation_id = none;
              }
              1000 logs)))

  module _ (parse_uuid : Text → Option ℕ) (sha256 : Evidence → Option Hash → Hash) where
    -- The handler `ingest_event`, with the tables that it leaves.
    unfoldable pub ingest_event :
        Settings → ℕ → ℕ → ℕ → AuditEvent → Option Text → Tables Hash → Reply (Tables Hash)
    ingest_event settings id activity_id now event x_internal_token tables = do
      check_internal settings x_internal_token
      (row, tables') ← require raised (ingest parse_uuid sha256 id activity_id now event tables)
      reply tables'
