-- ===== src/Operations.antt =====
-- apps/operations-service/src/sentinel_operations: the catalog of domain.py, the rows of models.py
-- and the handlers of main.py. No code changes an operation once it is created.
mod Catalog
mod Drafts
mod Tests
use sentinel_keyvault.Common.{
  ℕ, zero, suc, ◌+◌, ◌≡◌, Bool, true, false, ◌&&◌, Option, none, some, List, [], ◌∷◌, ◌++◌, Text,
  codes, text_eq, ◌==◌, find, if◌then◌else◌,
}
use sentinel_keyvault.Platform.Json.{Json, Items, Fields}
use sentinel_keyvault.Platform.Events.{AuditEvent, CloudEvent}
use sentinel_keyvault.Platform.Outbox.{OutboxRecord, enqueue_audit}
use sentinel_keyvault.Operations.Catalog.{ActionDefinition, action_catalog}

pub record Operation : Type 0 where
  pub id : ℕ
  pub tenant_id : ℕ
  pub assessment_id : ℕ
  pub assessment_input_sha256 : Text
  pub action_type : Text
  pub target_resource_id : ℕ
  pub requested_by : ℕ
  pub reason : Text
  pub status : Text
  pub idempotency_key : Text
  -- `policy_snapshot["executor_enabled"]`
  pub executor_enabled : Bool
  pub parameters_snapshot : Json
  pub scheduled_for : Option ℕ
  pub started_at : Option ℕ
  pub completed_at : Option ℕ
  pub result_summary : Option Json
  pub failure_code : Option Text
  pub correlation_id : ℕ
  pub version : ℕ

-- The request's body, with the header and the actor.
pub record OperationCreate : Type 0 where
  pub tenant_id : ℕ
  pub actor_id : ℕ
  pub correlation_id : ℕ
  pub idempotency_key : Text
  pub assessment_id : ℕ
  pub assessment_input_hash : Text
  pub action_type : Text
  pub target_resource_id : ℕ
  pub parameters : Json
  pub reason : Text

-- The table of operations, the outbox, and the next fresh primary key.
pub record Tables : Type 0 where
  pub operations : List Operation
  pub outbox : List OutboxRecord
  pub next_id : ℕ

abbrev pub definition_of : Text → Option ActionDefinition
definition_of action_type = find (λ d. text_eq d.action_type action_type) action_catalog

abbrev pub is_operation : ℕ → Text → Operation → Bool
is_operation tenant_id key o = o.tenant_id == tenant_id && text_eq o.idempotency_key key

abbrev pub new_operation : ℕ → OperationCreate → ActionDefinition → Operation
new_operation id q definition = record {
  id = id;
  tenant_id = q.tenant_id;
  assessment_id = q.assessment_id;
  assessment_input_sha256 = q.assessment_input_hash;
  action_type = q.action_type;
  target_resource_id = q.target_resource_id;
  requested_by = q.actor_id;
  reason = q.reason;
  status = codes "draft";
  idempotency_key = q.idempotency_key;
  executor_enabled = definition.enabled;
  parameters_snapshot = q.parameters;
  scheduled_for = none;
  started_at = none;
  completed_at = none;
  result_summary = none;
  failure_code = none;
  correlation_id = q.correlation_id;
  version = 1;
}

-- What `create` answers.
pub data Answer : Type 0 where
  unsupported : Answer
  existing : Operation → Answer
  created : Operation → Answer

-- `print` is Python's `str` of a UUID; `event_id` is the event's fresh id and `now` its time.
module _ (print : ℕ → Text) where
  abbrev pub created_event : ℕ → ℕ → OperationCreate → Operation → AuditEvent
  created_event event_id now q o = record {
    event = record {
      specversion = codes "1.0";
      id = event_id;
      source = codes "operations-service";
      type = codes "operations.created.v1";
      subject = codes "operation/" ++ print o.id;
      time = now;
      datacontenttype = codes "application/json";
      tenant_id = q.tenant_id;
      correlation_id = q.correlation_id;
      payload = Json.obj (
          Fields.field (codes "action_type") (Json.str q.action_type)
            (Fields.field (codes "status") (Json.str o.status) Fields.end));
    };
    actor_type = codes "user";
    actor_id = print q.actor_id;
    action = codes "operation.create";
    entity_type = codes "operation";
    entity_id = some (print o.id);
    outcome = codes "created";
  }

  unfoldable pub create : ℕ → ℕ → OperationCreate → Tables → Answer × Tables
  create event_id now q t = elim (definition_of q.action_type) [
    | none ↦ (unsupported, t)
    | some definition ↦ elim (find (is_operation q.tenant_id q.idempotency_key) t.operations) [
      | some o ↦ (existing o, t)
      | none ↦
          let o = new_operation t.next_id q definition in
          (
            created o,
            record {
              operations = t.operations ++ o ∷ [];
              outbox =
                  enqueue_audit (suc t.next_id) now (codes "audit") (created_event event_id now q o)
                    t.outbox;
              next_id = suc (suc t.next_id);
            },
          )
    ]
  ]
