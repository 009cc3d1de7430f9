-- ===== src/Intelligence.antt =====
-- apps/change-intelligence-service/src/sentinel_intelligence: the rows of models.py and the
-- handlers of main.py. The type of a digest is a parameter, and so is the function that hashes the
-- canonical JSON text of a request.
mod Risk
mod Lookup
mod Tests
use sentinel_keyvault.Common.{
  ℕ, suc, ◌+◌, Bool, true, false, ◌&&◌, Option, none, some, List, [], ◌∷◌, ◌++◌, Text, codes, ◌==◌,
  find, if◌then◌else◌,
}
use sentinel_keyvault.Platform.Json.{Json, Fields}
use sentinel_keyvault.Platform.Events.{AuditEvent}
use sentinel_keyvault.Platform.Outbox.{OutboxRecord, enqueue_audit}

-- The dictionary `canonical`.
pub record Canonical : Type 0 where
  pub action_type : Text
  pub target_resource_id : ℕ
  pub parameters : Json

pub record ChangeAssessment : Type 0 where
  pub id : ℕ
  pub tenant_id : ℕ
  pub requested_by : ℕ
  pub target_resource_id : ℕ
  pub action_type : Text
  pub parameters : Json
  pub status : Text
  pub risk_score : Option ℕ
  pub risk_level : Option Text
  pub approval_required : Option Bool
  pub rule_set_version : Option Text
  pub inventory_snapshot_id : Option ℕ
  pub graph_snapshot_id : Option ℕ
  pub target_etag : Option Text
  pub canonical_input : Canonical
  pub input_sha256 : Text
  pub assessed_at : Option ℕ
  pub expires_at : Option ℕ
  pub failure_code : Option Text
  pub correlation_id : ℕ
  pub version : ℕ

-- The request's body, with the actor.
pub record AssessmentCreate : Type 0 where
  pub tenant_id : ℕ
  pub actor_id : ℕ
  pub correlation_id : ℕ
  pub action_type : Text
  pub target_resource_id : ℕ
  pub parameters : Json

pub record Tables : Type 0 where
  pub assessments : List ChangeAssessment
  pub outbox : List OutboxRecord
  pub next_id : ℕ

abbrev pub canonical_of : AssessmentCreate → Canonical
canonical_of q = record {
  action_type = q.action_type;
  target_resource_id = q.target_resource_id;
  parameters = q.parameters;
}

-- `sha256` is the digest of the canonical text, with its prefix, and `print` Python's `str` of a
-- UUID; `event_id` is the event's fresh id and `now` its time.
module _ (sha256 : Canonical → Text) (print : ℕ → Text) where
  abbrev pub new_assessment : ℕ → AssessmentCreate → ChangeAssessment
  new_assessment id q = record {
    id = id;
    tenant_id = q.tenant_id;
    requested_by = q.actor_id;
    target_resource_id = q.target_resource_id;
    action_type = q.action_type;
    parameters = q.parameters;
    status = codes "draft";
    risk_score = none;
    risk_level = none;
    approval_required = none;
    rule_set_version = none;
    inventory_snapshot_id = none;
    graph_snapshot_id = none;
    target_etag = none;
    canonical_input = canonical_of q;
    input_sha256 = sha256 (canonical_of q);
    assessed_at = none;
    expires_at = none;
    failure_code = none;
    correlation_id = q.correlation_id;
    version = 1;
  }

  abbrev pub requested_event : ℕ → ℕ → AssessmentCreate → ChangeAssessment → AuditEvent
  requested_event event_id now q a = record {
    event = record {
      specversion = codes "1.0";
      id = event_id;
      source = codes "change-intelligence-service";
      type = codes "intelligence.assessment-requested.v1";
      subject = codes "assessment/" ++ print a.id;
      time = now;
      datacontenttype = codes "application/json";
      tenant_id = q.tenant_id;
      correlation_id = q.correlation_id;
      payload = Json.obj (
          Fields.field (codes "action_type") (Json.str q.action_type)
            (Fields.field (codes "input_sha256") (Json.str a.input_sha256) Fields.end));
    };
    actor_type = codes "user";
    actor_id = print q.actor_id;
    action = codes "assessment.create";
    entity_type = codes "assessment";
    entity_id = some (print a.id);
    outcome = codes "accepted";
  }

  unfoldable pub create_assessment : ℕ → ℕ → AssessmentCreate → Tables → ChangeAssessment × Tables
  create_assessment event_id now q t =
      let a = new_assessment t.next_id q in
      (
        a,
        record {
          assessments = t.assessments ++ a ∷ [];
          outbox =
              enqueue_audit (suc t.next_id) now (codes "audit") (requested_event event_id now q a)
                t.outbox;
          next_id = suc (suc t.next_id);
        },
      )

abbrev pub is_assessment : ℕ → ℕ → ChangeAssessment → Bool
is_assessment tenant_id id a = a.tenant_id == tenant_id && a.id == id

-- `none` is the 404 answer.
unfoldable pub get_assessment : ℕ → ℕ → Tables → Option ChangeAssessment
get_assessment tenant_id id t = find (is_assessment tenant_id id) t.assessments
