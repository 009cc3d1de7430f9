-- ===== src/Audit/Relay/Log.antt =====
-- What one event that `ingest` takes does to the log.
use sentinel_keyvault.Common.{
  ℕ, ◌≡◌, refl, sym, ap, ◌∙◌, inl, inr, Option, some, List, Text, find, find-Has, All, All-Has,
  All-append_one, Has, Has-append_one, Has-append_last, Distinct, Distinct-Has, arith, Option-cases,
}
use sentinel_keyvault.Platform.Events.{AuditEvent}
use sentinel_keyvault.Audit.Models.{AuditLog, Evidence, evidence, evidence_of_row}
use sentinel_keyvault.Audit.Ingest.{
  Tables, is_event, latest, hash_of, new_log, user_of, ingest, ingest_known, ingest_rejected,
  ingest_new, appended,
}
use sentinel_keyvault.Audit.Chain.{IsUnique, IsUnique-append_one, find-none-All}

abbrev pub event_id : AuditEvent → ℕ
event_id e = e.id

module _ {Hash : Type 0} where
  -- The log has a row with the evidence of the event.
  abbrev pub IsRecorded : AuditEvent → List (AuditLog Hash) → Type 0
  IsRecorded e logs = (row : AuditLog Hash) × Has row logs × (evidence_of_row row ≡ evidence e)

  abbrev pub IsHonest : List AuditEvent → AuditLog Hash → Type 0
  IsHonest events row = (e : AuditEvent) × Has e events × (evidence_of_row row ≡ evidence e)

  -- The log has the evidence of these events alone, and no event twice.
  pub record IsFaithful (events : List AuditEvent) (logs : List (AuditLog Hash)) : Type 0 where
    pub unique : IsUnique logs
    pub honest : All (IsHonest events) logs

  module _ (parse_uuid : Text → Option ℕ) (sha256 : Evidence → Option Hash → Hash)
      (events : List AuditEvent) (distinct : Distinct event_id events) (e : AuditEvent)
      (m : Has e events) where
    known_row :
        (t : Tables Hash) (r : AuditLog Hash)
        → find (is_event e.tenant_id e.id) t.logs ≡ some r
        → IsFaithful events t.logs
        → IsRecorded e t.logs
    known_row t r known f =
        let (n, same) = find-Has (is_event e.tenant_id e.id) t.logs known in
        let (e', m', q) = All-Has (IsHonest events) t.logs f.honest n in
        let ids : r.event_id ≡ e.id = ground arith in
        let p : r.event_id ≡ e'.id = ap (λ (v : Evidence). v.event_id) q in
        let eq : e' ≡ e = Distinct-Has event_id events distinct m' m (sym p ∙ ids) in
        (r, n, q ∙ ap evidence eq)

    -- What one call of `ingest` that succeeds does for its event, and for all others.
    pub ingest-IsFaithful :
        (id activity_id now : ℕ) (t t' : Tables Hash) (row : AuditLog Hash)
        → ingest parse_uuid sha256 id activity_id now e t ≡ some (row, t')
        → IsFaithful events t.logs
        → IsFaithful events t'.logs
          × IsRecorded e t'.logs
          × ((x : AuditEvent) → IsRecorded x t.logs → IsRecorded x t'.logs)
    ingest-IsFaithful id activity_id now t t' row h f =
        elim (Option-cases (find (is_event e.tenant_id e.id) t.logs)) [
          | inr (r, known) ↦
              let same : t' ≡ t =
                cc (h, ingest_known parse_uuid sha256 id activity_id now e t r known) in
              rw same (f, known_row t r known f, λ x r. r)
          | inl fresh ↦ elim (Option-cases (user_of parse_uuid e)) [
            | inl bad ↦
                absurd (cc (h, ingest_rejected parse_uuid sha256 id activity_id now e t fresh bad))
            | inr (u, ok) ↦
                let new = new_log sha256 id now e (hash_of (latest e.tenant_id t.logs)) in
                let after = appended parse_uuid sha256 id activity_id now e t u in
                let same : t' ≡ after =
                  cc (h, ingest_new parse_uuid sha256 id activity_id now e t u fresh ok) in
                rw same (
                  record {
                    unique =
                        IsUnique-append_one t.logs new f.unique
                          (find-none-All (is_event e.tenant_id e.id) t.logs fresh);
                    honest = All-append_one (IsHonest events) t.logs f.honest (e, m, refl);
                  },
                  (new, Has-append_last t.logs new, refl),
                  λ x (r, n, q). (r, Has-append_one t.logs new r n, q),
                )
          ]
        ]
