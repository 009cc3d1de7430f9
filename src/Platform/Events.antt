-- ===== src/Platform/Events.antt =====
-- packages/python/sentinel_common/events.py. UUIDs and times are numbers: a UUID its 128 bits, a
-- time its microseconds.
use sentinel_keyvault.Common.{ℕ, Option, Text}
use sentinel_keyvault.Platform.Json.{Json}

pub record CloudEvent : Type 0 where
  pub specversion : Text
  pub id : ℕ
  pub source : Text
  pub type : Text
  pub subject : Text
  pub time : ℕ
  pub datacontenttype : Text
  pub tenant_id : ℕ
  pub correlation_id : ℕ
  pub payload : Json

pub record AuditEvent : Type 0 where
  pub event : CloudEvent
  pub open event use *
  pub actor_type : Text
  pub actor_id : Text
  pub action : Text
  pub entity_type : Text
  pub entity_id : Option Text
  pub outcome : Text
