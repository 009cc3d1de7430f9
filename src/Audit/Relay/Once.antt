-- ===== src/Audit/Relay/Once.antt =====
-- The relay delivers at least once, and what it delivers is in the log once.
use sentinel_keyvault.Common.{
  ℕ, ◌≡◌, ◌≢◌, sym, inl, inr, Bool, Option, none, some, List, [], Text, All, All-Has, Has, Has-map,
  Has-write_self,
}
use sentinel_keyvault.Platform.Events.{AuditEvent}
use sentinel_keyvault.Platform.Settings.{Settings}
use sentinel_keyvault.Platform.Outbox.{
  OutboxRecord, record_id, Outcome, enqueue_audit, claimed, claim_outbox, settle,
}
use sentinel_keyvault.Platform.Outbox.Queue.{Claims}
use sentinel_keyvault.Platform.Outbox.Settled.{
  claim_outbox-cases, claimed-same, settle-same, relay-eq-write,
}
use sentinel_keyvault.Audit.Models.{AuditLog, Evidence}
use sentinel_keyvault.Audit.Ingest.{Tables}
use sentinel_keyvault.Audit.Chain.{IsUnique}
use sentinel_keyvault.Platform.Outbox.Status.{published}
use sentinel_keyvault.Audit.Relay.{Call, Pipeline, publish, run_round, stopped_round}
use sentinel_keyvault.Audit.Relay.Log.{event_id, IsRecorded, IsHonest, ingest-IsFaithful}
use sentinel_keyvault.Audit.Relay.Written.{
  payload_of, events_of, IsDelivered, IsSound, write-IsSound, append_one-IsSound, All-mono,
  Published, publish-Published,
}

abbrev pub empty : {Hash : Type 0} → Pipeline Hash
empty = record { outbox = []; tables = record { logs = []; activity = [] } }

module _ {Hash : Type 0} (parse_uuid : Text → Option ℕ) (sha256 : Evidence → Option Hash → Hash)
    (settings audit_settings : Settings) (status_error : ℕ → Text) where
  -- What can happen: a service enqueues an event with new keys, a worker stops after its claim or
  -- after its publication, or makes a whole round. Workers are taken one at a time.
  pub data Step (p : Pipeline Hash) : Pipeline Hash → Type 0 where
    enqueues :
        (id now : ℕ) (destination : Text) (event : AuditEvent)
        → All (λ r. r.id ≢ id) p.outbox
        → All (λ e. event_id e ≢ event_id event) (events_of p.outbox)
        → Step p
            (record { outbox = enqueue_audit id now destination event p.outbox; tables = p.tables })
    stops :
        (now : ℕ) (locked : ℕ → Bool)
        → Step p (record { outbox = (claim_outbox now locked p.outbox).1; tables = p.tables })
    publishes :
        (now : ℕ) (locked : ℕ → Bool) (call : Call)
        → Step p
            (stopped_round parse_uuid sha256 settings audit_settings status_error now locked call p)
    works :
        (now later : ℕ) (locked : ℕ → Bool) (call : Call)
        → Step p (
            run_round parse_uuid sha256 settings audit_settings status_error now later locked call
              p)

  -- The tables after a publication of an event of the outbox, and that event where it succeeds.
  Published-IsSound :
      (outbox : List OutboxRecord) (t t' : Tables Hash) (call : Call) (r : OutboxRecord)
      (outcome : Outcome)
      → Has r outbox
      → Published parse_uuid sha256 settings audit_settings status_error call r.payload t
          (outcome, t')
      → IsSound (record { outbox = outbox; tables = t })
      → IsSound (record { outbox = outbox; tables = t' })
        × (outcome ≡ none → IsRecorded r.payload t'.logs)
  Published-IsSound outbox t t' call r outcome m (inl (same, failed)) s =
      rw same (s, λ e. absurd (failed e))
  Published-IsSound outbox t t' call r outcome m (inr (row, done)) s =
      let (log, recorded, mono) =
        ingest-IsFaithful parse_uuid sha256 (events_of outbox) s.events r.payload
          (Has-map payload_of outbox r m) call.id call.activity_id call.now t t' row done s.log in
      (
        record {
          keyed = s.keyed;
          events = s.events;
          log = log;
          delivered = All-mono t.logs t'.logs outbox mono s.delivered;
        },
        λ e. recorded,
      )

  -- A claim: the claimed row, which is in the table that it leaves, and the table.
  claim-IsSound :
      (now : ℕ) (locked : ℕ → Bool) (outbox outbox' : List OutboxRecord) (t : Tables Hash)
      (r' : OutboxRecord)
      → Claims now locked outbox (some r', outbox')
      → IsSound (record { outbox = outbox; tables = t })
      → Has r' outbox' × IsSound (record { outbox = outbox'; tables = t })
  claim-IsSound now locked outbox outbox' t r' (r, m, ok, old, e, w) s =
      let (id, payload, status) = claimed-same now r in
      rw (w, e)
        (
          Has-write_self record_id (claimed now r) outbox m (sym id),
          write-IsSound outbox t r (claimed now r) m (sym id) (sym payload) (λ e. absurd (cc)) s,
        )

  -- A round up to the settlement: the claimed row is in the table, and what was published is in
  -- the log.
  published_claim :
      (now : ℕ) (locked : ℕ → Bool) (call : Call) (outbox outbox' : List OutboxRecord)
      (t : Tables Hash) (r : OutboxRecord)
      → Claims now locked outbox (some r, outbox')
      → IsSound (record { outbox = outbox; tables = t })
      → let (outcome, t') =
          publish parse_uuid sha256 settings audit_settings status_error call r.payload t in
        Has r outbox'
        × IsSound (record { outbox = outbox'; tables = t' })
        × (outcome ≡ none → IsRecorded r.payload t'.logs)
  published_claim now locked call outbox outbox' t r c s =
      let (outcome, t') =
        publish parse_uuid sha256 settings audit_settings status_error call r.payload t in
      let (m, s') = claim-IsSound now locked outbox outbox' t r c s in
      let (after, recorded) =
        Published-IsSound outbox' t t' call r outcome m
          (publish-Published parse_uuid sha256 settings audit_settings status_error call r.payload
            t)
          s' in
      (m, after, recorded)

  run_round-IsSound :
      (now later : ℕ) (locked : ℕ → Bool) (call : Call) (p : Pipeline Hash)
      → IsSound p
      → IsSound
          (run_round parse_uuid sha256 settings audit_settings status_error now later locked call p)
  unfolding run_round
  run_round-IsSound now later locked call p s = elim (claim_outbox-cases now locked p.outbox) [
    | inl e ↦ rw (e, run_round) s
    | inr (r, outbox', e, c) ↦
        let (outcome, t') =
          publish parse_uuid sha256 settings audit_settings status_error call r.payload p.tables in
        let (m, s', recorded) = published_claim now locked call p.outbox outbox' p.tables r c s in
        let (id, payload, status) = settle-same later outcome r in
        rw (e, run_round)
          (rw (relay-eq-write now later locked outcome p.outbox outbox' r e) (
            write-IsSound outbox' t' r (settle later outcome r) m (sym id) (sym payload)
              (λ q. rw payload (recorded (status q))) s'))
  ]

  stopped_round-IsSound :
      (now : ℕ) (locked : ℕ → Bool) (call : Call) (p : Pipeline Hash)
      → IsSound p
      → IsSound
          (stopped_round parse_uuid sha256 settings audit_settings status_error now locked call p)
  unfolding stopped_round
  stopped_round-IsSound now locked call p s = elim (claim_outbox-cases now locked p.outbox) [
    | inl e ↦ rw (e, stopped_round) s
    | inr (r, outbox', e, c) ↦
        let left : (claim_outbox now locked p.outbox).1 ≡ outbox' = cc in
        rw (e, stopped_round)
          (rw left (published_claim now locked call p.outbox outbox' p.tables r c s).1)
  ]

  Step-IsSound : {p p' : Pipeline Hash} → Step p p' → IsSound p → IsSound p'
  Step-IsSound {p} (enqueues id now destination event fresh new) s =
      unfold enqueue_audit in append_one-IsSound p.outbox p.tables _ fresh new (λ e. cc) s
  Step-IsSound {p} (stops now locked) s = elim (claim_outbox-cases now locked p.outbox) [
    | inl e ↦ rw e s
    | inr (r, outbox', e, c) ↦ rw e (claim-IsSound now locked p.outbox outbox' p.tables r c s).1
  ]
  Step-IsSound {p} (publishes now locked call) s = stopped_round-IsSound now locked call p s
  Step-IsSound {p} (works now later locked call) s = run_round-IsSound now later locked call p s

  pub data Reach (p : Pipeline Hash) : Pipeline Hash → Type 0 where
    here : Reach p p
    next : {a b : Pipeline Hash} → Reach p a → Step a b → Reach p b

  Reach-IsSound : {p : Pipeline Hash} → Reach empty p → IsSound p
  Reach-IsSound here = record {
    keyed = tt;
    events = tt;
    log = record { unique = tt; honest = tt };
    delivered = tt;
  }
  Reach-IsSound (next r s) = Step-IsSound s (Reach-IsSound r)

-- Whatever services enqueue with new keys, and however often workers run, fail, lose an answer or
-- stop before they settle a row: each event of a published row is in the audit log with its
-- evidence, the log has no event twice, and every row of the log is the evidence of an event of
-- the outbox.
pub Reach-once :
    {Hash : Type 0} (parse_uuid : Text → Option ℕ) (sha256 : Evidence → Option Hash → Hash)
    (settings audit_settings : Settings) (status_error : ℕ → Text) (p : Pipeline Hash)
    → Reach parse_uuid sha256 settings audit_settings status_error empty p
    → ((r : OutboxRecord)
        → Has r p.outbox
        → r.status ≡ published
        → IsRecorded r.payload p.tables.logs)
      × IsUnique p.tables.logs
      × ((row : AuditLog Hash) → Has row p.tables.logs → IsHonest (events_of p.outbox) row)
Reach-once parse_uuid sha256 settings audit_settings status_error p reached =
    let s = Reach-IsSound parse_uuid sha256 settings audit_settings status_error reached in
    (
      λ r m. All-Has (IsDelivered p.tables.logs) p.outbox s.delivered m,
      s.log.unique,
      λ row m. All-Has (IsHonest (events_of p.outbox)) p.tables.logs s.log.honest m,
    )
