-- ===== src/Audit/Redelivery.antt =====
-- The relay delivers at least once: what a second delivery of an event does.
use sentinel_keyvault.Common.{
  ℕ, ◌≡◌, refl, inl, inr, true, Option, some, arith, Text, ==-refl, find, find-append_one,
  Option-cases,
}
use sentinel_keyvault.Platform.Events.{AuditEvent}
use sentinel_keyvault.Audit.Models.{AuditLog, Evidence}
use sentinel_keyvault.Audit.Ingest.{
  Tables, is_event, latest, hash_of, new_log, user_of, ingest, ingest_known, ingest_rejected,
  ingest_new, appended,
}

module _ {Hash : Type 0} where
  is_event_self :
      (e : AuditEvent) (row : AuditLog Hash)
      → row.tenant_id ≡ e.tenant_id
      → row.event_id ≡ e.id
      → is_event e.tenant_id e.id row ≡ true
  is_event_self e row p q = ground (arith, ==-refl e.tenant_id, ==-refl e.id)

-- Once an event is in the log, ingesting it again, at any time and with any new keys, returns the
-- row that is there and changes neither table.
pub ingest_again :
    {Hash : Type 0} (parse_uuid : Text → Option ℕ) (sha256 : Evidence → Option Hash → Hash)
    (id id' activity activity' now now' : ℕ) (e : AuditEvent) (t t' : Tables Hash)
    (row : AuditLog Hash)
    → ingest parse_uuid sha256 id activity now e t ≡ some (row, t')
    → ingest parse_uuid sha256 id' activity' now' e t' ≡ some (row, t')
ingest_again parse_uuid sha256 id id' activity activity' now now' e t t' row h =
    elim (Option-cases (find (is_event e.tenant_id e.id) t.logs)) [
      | inr (r, known) ↦ cc (
        h,
        ingest_known parse_uuid sha256 id activity now e t r known,
        ingest_known parse_uuid sha256 id' activity' now' e t r known,
      )
      | inl fresh ↦ elim (Option-cases (user_of parse_uuid e)) [
        | inl bad ↦ absurd (cc (h, ingest_rejected parse_uuid sha256 id activity now e t fresh bad))
        | inr (u, ok) ↦
            let new = new_log sha256 id now e (hash_of (latest e.tenant_id t.logs)) in
            let after = appended parse_uuid sha256 id activity now e t u in
            cc (
              h,
              ingest_new parse_uuid sha256 id activity now e t u fresh ok,
              ingest_known parse_uuid sha256 id' activity' now' e after new (
                  find-append_one (is_event e.tenant_id e.id) t.logs new fresh
                    (is_event_self e new refl refl)),
            )
      ]
    ]
