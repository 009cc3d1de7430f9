-- ===== src/Audit/Relay.antt =====
-- From the outbox to the audit log: `HttpAuditPublisher.publish` of
-- packages/python/sentinel_common/audit.py against the handler `ingest_event` of
-- apps/audit-service/src/sentinel_audit/main.py, in the loop of
-- packages/python/sentinel_common/outbox_worker.py.
mod Log
mod Written
pub mod Once
mod Tests
use sentinel_keyvault.Common.{ℕ, Bool, Option, none, some, List, Text}
use sentinel_keyvault.Platform.Events.{AuditEvent}
use sentinel_keyvault.Platform.Reply.{Reply, reply, refused, raised}
use sentinel_keyvault.Platform.Settings.{Settings, present}
use sentinel_keyvault.Platform.Outbox.{OutboxRecord, Outcome, claim_outbox, relay}
use sentinel_keyvault.Audit.Models.{Evidence}
use sentinel_keyvault.Audit.Ingest.{Tables}
use sentinel_keyvault.Audit.Handlers.{ingest_event}

-- What becomes of a request: it is answered, it does not arrive, or its answer is lost. A text is
-- that of the client's exception.
pub data Transport : Type 0 where
  answers : Transport
  unreachable loses : Text → Transport

-- The keys and the time of the audit service's transaction, and what becomes of the request.
pub record Call : Type 0 where
  pub id : ℕ
  pub activity_id : ℕ
  pub now : ℕ
  pub transport : Transport

-- The outbox and the tables of the audit service.
pub record Pipeline (Hash : Type 0) : Type 0 where
  pub outbox : List OutboxRecord
  pub tables : Tables Hash

-- `settings` are the worker's and `audit_settings` the audit service's. `status_error` is the text
-- of the exception that `raise_for_status` raises.
module _ {Hash : Type 0} (parse_uuid : Text → Option ℕ) (sha256 : Evidence → Option Hash → Hash)
    (settings audit_settings : Settings) (status_error : ℕ → Text) where
  -- What the client makes of an answer, with the tables that the audit service then has.
  abbrev pub answered : Tables Hash → Reply (Tables Hash) → Outcome × Tables Hash
  answered tables (reply after) = (none, after)
  answered tables (refused status detail) = (some (status_error status), tables)
  answered tables raised = (some (status_error 500), tables)

  unfoldable pub publish : Call → AuditEvent → Tables Hash → Outcome × Tables Hash
  publish call event tables =
      let answer =
        ingest_event parse_uuid sha256 audit_settings call.id call.activity_id call.now event
          (present settings.internal_api_token) tables in
      elim call.transport [
        | answers ↦ answered tables answer
        | unreachable error ↦ (some error, tables)
        | loses error ↦ (some error, (answered tables answer).1)
      ]

  -- One round of the loop. `now` is the time of the claim and `later` that of the settlement.
  unfoldable pub run_round : ℕ → ℕ → (ℕ → Bool) → Call → Pipeline Hash → Pipeline Hash
  run_round now later locked call p = elim (claim_outbox now locked p.outbox).0 [
    | none ↦ p
    | some record' ↦
        let (outcome, tables) = publish call record'.payload p.tables in
        record { outbox = (relay now later locked outcome p.outbox).1; tables = tables }
  ]

  -- A round whose worker stops between the publication and the settlement.
  unfoldable pub stopped_round : ℕ → (ℕ → Bool) → Call → Pipeline Hash → Pipeline Hash
  stopped_round now locked call p = elim (claim_outbox now locked p.outbox).0 [
    | none ↦ p
    | some record' ↦ record {
      outbox = (claim_outbox now locked p.outbox).1;
      tables = (publish call record'.payload p.tables).1;
    }
  ]
