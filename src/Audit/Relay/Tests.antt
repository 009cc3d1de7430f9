-- ===== src/Audit/Relay/Tests.antt =====
-- An event on its way from the outbox to the audit log.
use sentinel_keyvault.Common.{
  ℕ, ◌≡◌, refl, Bool, false, Option, none, some, List, [], ◌∷◌, Text, codes, Has, map,
}
use sentinel_keyvault.Platform.Json.{Json}
use sentinel_keyvault.Platform.Events.{AuditEvent}
use sentinel_keyvault.Platform.Samples.{settings, parse}
use sentinel_keyvault.Platform.Outbox.{
  OutboxRecord, Status, enqueue_audit, claim_outbox, relay, claimed, settle, claimable, oldest,
  retry_delay, finish,
}
use sentinel_keyvault.Platform.Outbox.Status.{pending, published}
use sentinel_keyvault.Audit.Models.{AuditLog, Evidence}
use sentinel_keyvault.Audit.Ingest.{ingest, user_of, latest}
use sentinel_keyvault.Audit.Handlers.{ingest_event}
use sentinel_keyvault.Platform.Actor.{check_internal}
use sentinel_keyvault.Audit.Chain.{IsUnique}
use sentinel_keyvault.Audit.Relay.{Call, Pipeline, run_round, stopped_round, publish, Transport}
use sentinel_keyvault.Audit.Relay.Transport.{answers, loses}
use sentinel_keyvault.Audit.Relay.Log.{IsRecorded, IsHonest}
use sentinel_keyvault.Audit.Relay.Written.{events_of}
use sentinel_keyvault.Audit.Relay.Once.{Reach-once}
use sentinel_keyvault.Audit.Relay.Once.Step.{enqueues, publishes, works}
use sentinel_keyvault.Audit.Relay.Once.Reach.{here, next}

abbrev event : AuditEvent
event = record {
  event = record {
    specversion = codes "1.0";
    id = 7;
    source = codes "test";
    type = codes "t.v1";
    subject = codes "s";
    time = 3;
    datacontenttype = codes "application/json";
    tenant_id = 1;
    correlation_id = 9;
    payload = Json.null;
  };
  actor_type = codes "user";
  actor_id = codes "u";
  action = codes "a";
  entity_type = codes "e";
  entity_id = none;
  outcome = codes "ok";
}

-- A hash that keeps the events of its contents.
abbrev digest : Evidence → Option (List ℕ) → List ℕ
digest e none = e.event_id ∷ []
digest e (some ids) = e.event_id ∷ ids

abbrev status_error : ℕ → Text
status_error status = codes "HTTPStatusError"

abbrev unlocked : ℕ → Bool
unlocked n = false

abbrev call : ℕ → Transport → Call
call id transport = record { id = id; activity_id = id; now = id; transport = transport }

abbrev queued : Pipeline (List ℕ)
queued = record {
  outbox = enqueue_audit 1 5 (codes "audit") event [];
  tables = record { logs = []; activity = [] };
}

-- The answer to the first publication is lost, and the worker of the second one stops.
abbrev lost : Pipeline (List ℕ)
lost =
    run_round parse digest settings settings status_error 10 11 unlocked
      (call 1 (loses (codes "ReadTimeout"))) queued

abbrev stopped : Pipeline (List ℕ)
stopped =
    stopped_round parse digest settings settings status_error 20000000 unlocked (call 2 answers)
      lost

abbrev done : Pipeline (List ℕ)
done =
    run_round parse digest settings settings status_error 400000000 400000001 unlocked
      (call 3 answers) stopped

statuses : List OutboxRecord → List (Status × ℕ)
statuses = map (λ r. (r.status, r.attempts))

lost_test : statuses lost.outbox ≡ (pending, 1) ∷ []
unfolding statuses run_round publish ingest_event check_internal ingest user_of claim_outbox
    claimable oldest claimed retry_delay settle finish relay enqueue_audit latest
lost_test = refl

stopped_test : statuses stopped.outbox ≡ (Status.publishing, 2) ∷ []
unfolding statuses run_round stopped_round publish ingest_event check_internal ingest user_of
    claim_outbox claimable oldest claimed retry_delay settle finish relay enqueue_audit latest
stopped_test = refl

done_test :
    (statuses done.outbox ≡ (published, 3) ∷ [])
    × (map (λ r. r.record_hash) done.tables.logs ≡ (7 ∷ []) ∷ [])
unfolding statuses run_round stopped_round publish ingest_event check_internal ingest user_of
    claim_outbox claimable oldest claimed retry_delay settle finish relay enqueue_audit latest
done_test = (refl, refl)

Reach-once_example :
    ((r : OutboxRecord)
      → Has r done.outbox
      → r.status ≡ published
      → IsRecorded r.payload done.tables.logs)
    × IsUnique done.tables.logs
    × ((row : AuditLog (List ℕ)) → Has row done.tables.logs → IsHonest (events_of done.outbox) row)
Reach-once_example = Reach-once parse digest settings settings status_error done (
    next
      (next
        (next (next here (enqueues 1 5 (codes "audit") event tt tt))
          (works 10 11 unlocked (call 1 (loses (codes "ReadTimeout")))))
        (publishes 20000000 unlocked (call 2 answers)))
      (works 400000000 400000001 unlocked (call 3 answers)))
