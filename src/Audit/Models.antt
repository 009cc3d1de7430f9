-- ===== src/Audit/Models.antt =====
-- apps/audit-service/src/sentinel_audit/models.py. The type of a hash is a parameter: SHA-256 of
-- the canonical JSON text is taken as one function from the canonical record.
use sentinel_keyvault.Common.{ℕ, Option, Text}
use sentinel_keyvault.Platform.Json.{Json}
use sentinel_keyvault.Platform.Events.{AuditEvent}

pub record AuditLog (Hash : Type 0) : Type 0 where
  pub id : ℕ
  pub tenant_id : ℕ
  pub event_id : ℕ
  pub occurred_at : ℕ
  pub ingested_at : ℕ
  pub actor_type : Text
  pub actor_id : Text
  pub action : Text
  pub entity_type : Text
  pub entity_id : Option Text
  pub outcome : Text
  pub source_service : Text
  pub correlation_id : ℕ
  pub trace_id : Option Text
  pub metadata_json : Json
  pub previous_hash : Option Hash
  pub record_hash : Hash

pub record ActivityEvent : Type 0 where
  pub id : ℕ
  pub tenant_id : ℕ
  pub user_id : Option ℕ
  pub category : Text
  pub message : Text
  pub related_entity_type : Option Text
  pub related_entity_id : Option Text
  pub occurred_at : ℕ
  pub event_id : ℕ

-- The dictionary that `ingest` hashes, without the previous hash.
pub record Evidence : Type 0 where
  pub event_id : ℕ
  pub tenant_id : ℕ
  pub occurred_at : ℕ
  pub actor_type : Text
  pub actor_id : Text
  pub action : Text
  pub entity_type : Text
  pub entity_id : Option Text
  pub outcome : Text
  pub source : Text
  pub correlation_id : ℕ
  pub payload : Json

abbrev pub evidence : AuditEvent → Evidence
evidence e = record {
  event_id = e.id;
  tenant_id = e.tenant_id;
  occurred_at = e.time;
  actor_type = e.actor_type;
  actor_id = e.actor_id;
  action = e.action;
  entity_type = e.entity_type;
  entity_id = e.entity_id;
  outcome = e.outcome;
  source = e.source;
  correlation_id = e.correlation_id;
  payload = e.payload;
}

-- The same dictionary, read back from a stored row.
abbrev pub evidence_of_row : {Hash : Type 0} → AuditLog Hash → Evidence
evidence_of_row r = record {
  event_id = r.event_id;
  tenant_id = r.tenant_id;
  occurred_at = r.occurred_at;
  actor_type = r.actor_type;
  actor_id = r.actor_id;
  action = r.action;
  entity_type = r.entity_type;
  entity_id = r.entity_id;
  outcome = r.outcome;
  source = r.source_service;
  correlation_id = r.correlation_id;
  payload = r.metadata_json;
}
