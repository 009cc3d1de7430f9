-- ===== src/Audit/Ingest.antt =====
-- `AuditRepository.ingest` of apps/audit-service/src/sentinel_audit/repository.py.
use sentinel_keyvault.Common.{
  ℕ, ◌≡◌, Bool, ◌&&◌, ◌||◌, Option, none, some, List, [], ◌∷◌, ◌++◌, Text, codes, text_eq, ltb, leb,
  ◌==◌, find, if◌then◌else◌,
}
use sentinel_keyvault.Platform.Events.{AuditEvent}
use sentinel_keyvault.Audit.Models.{AuditLog, ActivityEvent, Evidence, evidence}

-- The two tables of the service.
pub record Tables (Hash : Type 0) : Type 0 where
  pub logs : List (AuditLog Hash)
  pub activity : List ActivityEvent

abbrev pub activity_of : ℕ → AuditEvent → Option ℕ → ActivityEvent
activity_of id e user_id = record {
  id = id;
  tenant_id = e.tenant_id;
  user_id = user_id;
  category = e.type;
  message = e.action ++ codes " " ++ e.outcome;
  related_entity_type = some e.entity_type;
  related_entity_id = e.entity_id;
  occurred_at = e.time;
  event_id = e.id;
}

-- `UUID(event.actor_id) if event.actor_type == "user" else None`; the outer `none` is the
-- `ValueError` of an actor id that is no UUID. `parse_uuid` is Python's `UUID`.
unfoldable pub user_of : (Text → Option ℕ) → AuditEvent → Option (Option ℕ)
user_of parse_uuid e =
    if text_eq e.actor_type (codes "user")
    then elim (parse_uuid e.actor_id) [ none ↦ none | some u ↦ some (some u) ]
    else some none

module _ {Hash : Type 0} where
  abbrev pub is_event : ℕ → ℕ → AuditLog Hash → Bool
  is_event tenant_id event_id r = r.tenant_id == tenant_id && r.event_id == event_id

  -- `desc(ingested_at), desc(id)`: `r` comes before `s`.
  abbrev pub is_later : AuditLog Hash → AuditLog Hash → Bool
  is_later r s =
      ltb s.ingested_at r.ingested_at || (r.ingested_at == s.ingested_at && leb s.id r.id)

  abbrev pub later_of : AuditLog Hash → Option (AuditLog Hash) → Option (AuditLog Hash)
  later_of r none = some r
  later_of r (some s) = if is_later r s then some r else some s

  -- `.where(tenant_id == …).order_by(…).limit(1)`
  unfoldable pub latest : ℕ → List (AuditLog Hash) → Option (AuditLog Hash)
  latest tenant_id [] = none
  latest tenant_id (r ∷ rs) =
      if r.tenant_id == tenant_id then later_of r (latest tenant_id rs) else latest tenant_id rs

  abbrev pub hash_of : Option (AuditLog Hash) → Option Hash
  hash_of none = none
  hash_of (some r) = some r.record_hash

  module _ (sha256 : Evidence → Option Hash → Hash) where
    -- The new row: `id` and `now` are the defaults of its key and of `ingested_at`, the time at
    -- which its transaction began.
    abbrev pub new_log : ℕ → ℕ → AuditEvent → Option Hash → AuditLog Hash
    new_log id now e previous_hash = record {
      id = id;
      tenant_id = e.tenant_id;
      event_id = e.id;
      occurred_at = e.time;
      ingested_at = now;
      actor_type = e.actor_type;
      actor_id = e.actor_id;
      action = e.action;
      entity_type = e.entity_type;
      entity_id = e.entity_id;
      outcome = e.outcome;
      source_service = e.source;
      correlation_id = e.correlation_id;
      trace_id = none;
      metadata_json = e.payload;
      previous_hash = previous_hash;
      record_hash = sha256 (evidence e) previous_hash;
    }

  module _ (parse_uuid : Text → Option ℕ) (sha256 : Evidence → Option Hash → Hash) where
    -- What an event does to the tables, with the row that is returned; `none` is the exception,
    -- after which the unit of work rolls back. `id` and `activity_id` are new keys.
    unfoldable pub ingest :
        ℕ → ℕ → ℕ → AuditEvent → Tables Hash → Option (AuditLog Hash × Tables Hash)
    unfolding user_of
    ingest id activity_id now e t = elim (find (is_event e.tenant_id e.id) t.logs) [
      | some existing ↦ some (existing, t)
      | none ↦ elim (user_of parse_uuid e) [
        | none ↦ none
        | some user_id ↦
            let row = new_log sha256 id now e (hash_of (latest e.tenant_id t.logs)) in
            some (
              row,
              record {
                logs = t.logs ++ row ∷ [];
                activity = t.activity ++ activity_of activity_id e user_id ∷ [];
              },
            )
      ]
    ]

    -- The three ways in which a call ends.
    module _ (id activity_id now : ℕ) (e : AuditEvent) (t : Tables Hash) where
      pub ingest_known :
          (r : AuditLog Hash)
          → find (is_event e.tenant_id e.id) t.logs ≡ some r
          → ingest id activity_id now e t ≡ some (r, t)
      unfolding ingest
      ingest_known r known = rw (known, ingest)

      pub ingest_rejected :
          find (is_event e.tenant_id e.id) t.logs ≡ none
          → user_of parse_uuid e ≡ none
          → ingest id activity_id now e t ≡ none
      unfolding ingest
      ingest_rejected fresh bad = rw (fresh, bad, ingest)

      abbrev pub appended : Option ℕ → Tables Hash
      appended user_id = record {
        logs = t.logs ++ new_log sha256 id now e (hash_of (latest e.tenant_id t.logs)) ∷ [];
        activity = t.activity ++ activity_of activity_id e user_id ∷ [];
      }

      pub ingest_new :
          (user_id : Option ℕ)
          → find (is_event e.tenant_id e.id) t.logs ≡ none
          → user_of parse_uuid e ≡ some user_id
          → ingest id activity_id now e t
            ≡ some (new_log sha256 id now e (hash_of (latest e.tenant_id t.logs)), appended user_id)
      unfolding ingest
      ingest_new user_id fresh ok = rw (fresh, ok, ingest)
