-- ===== src/Audit/Relay/Written.antt =====
-- What a write to a row of the outbox, or a call of `publish`, leaves as it was.
use sentinel_keyvault.Common.{
  ℕ, ◌≡◌, ◌⊎◌, refl, sym, ap, ◌∙◌, inl, inr, Option, none, some, List, [], ◌∷◌, ◌++◌, map, Text,
  Has-append_one, All-append_one, Distinct-append_one, ◌==◌, ==→eq, Option-cases, ◌≢◌, All,
  All-write, Has, Distinct, Distinct-Has, Distinct-write, write, Bool-cases,
}
use sentinel_keyvault.Platform.Events.{AuditEvent}
use sentinel_keyvault.Platform.Reply.{Reply-cases}
use sentinel_keyvault.Platform.Settings.{Settings, present}
use sentinel_keyvault.Platform.Actor.{check_internal}
use sentinel_keyvault.Platform.Outbox.{OutboxRecord, record_id, Outcome}
use sentinel_keyvault.Platform.Outbox.Status.{published}
use sentinel_keyvault.Audit.Models.{AuditLog, Evidence}
use sentinel_keyvault.Audit.Ingest.{Tables, ingest}
use sentinel_keyvault.Audit.Handlers.{ingest_event}
use sentinel_keyvault.Audit.Relay.{Transport, Call, Pipeline, answered, publish}
use sentinel_keyvault.Audit.Relay.Transport.{answers, unreachable, loses}
use sentinel_keyvault.Audit.Relay.Log.{event_id, IsRecorded, IsHonest, IsFaithful}

map-write :
    {A B : Type 0} (key : A → ℕ) (f : A → B) (r : A) (xs : List A)
    → ((x : A) → Has x xs → key x ≡ key r → f x ≡ f r)
    → map f (write key r xs) ≡ map f xs
map-write key f r [] h = refl
map-write key f r (x ∷ xs) h = elim (Bool-cases (key x == key r)) [
  | inl e ↦ rw e (ap (λ y. y ∷ map f xs) (sym (h x (inl refl) (==→eq (key x) (key r) e))))
  | inr e ↦ rw e (ap (λ ys. f x ∷ ys) (map-write key f r xs (λ y m. h y (inr m))))
]

map-append_one :
    {A B : Type 0} (f : A → B) (xs : List A) (y : A) → map f (xs ++ y ∷ []) ≡ map f xs ++ f y ∷ []
map-append_one f [] y = refl
map-append_one f (x ∷ xs) y = ap (λ ys. f x ∷ ys) (map-append_one f xs y)

abbrev pub payload_of : OutboxRecord → AuditEvent
payload_of r = r.payload

abbrev pub events_of : List OutboxRecord → List AuditEvent
events_of = map payload_of

module _ {Hash : Type 0} where
  -- A published row's event is in the log.
  abbrev pub IsDelivered : List (AuditLog Hash) → OutboxRecord → Type 0
  IsDelivered logs r = r.status ≡ published → IsRecorded r.payload logs

  -- What holds of the outbox and the log whatever has happened.
  pub record IsSound (p : Pipeline Hash) : Type 0 where
    pub keyed : Distinct record_id p.outbox
    pub events : Distinct event_id (events_of p.outbox)
    pub log : IsFaithful (events_of p.outbox) p.tables.logs
    pub delivered : All (IsDelivered p.tables.logs) p.outbox

  pub write-IsSound :
      (outbox : List OutboxRecord) (tables : Tables Hash) (r x : OutboxRecord)
      → Has r outbox
      → r.id ≡ x.id
      → r.payload ≡ x.payload
      → IsDelivered tables.logs x
      → IsSound (record { outbox = outbox; tables = tables })
      → IsSound (record { outbox = write record_id x outbox; tables = tables })
  write-IsSound outbox tables r x m id payload d s =
      let same : events_of (write record_id x outbox) ≡ events_of outbox =
        map-write record_id payload_of x outbox (λ y n q.
          ap payload_of (Distinct-Has record_id outbox s.keyed n m (q ∙ sym id)) ∙ payload) in
      record {
        keyed = Distinct-write record_id x outbox s.keyed;
        events = rw same s.events;
        log = rw same s.log;
        delivered = All-write record_id (IsDelivered tables.logs) x outbox d s.delivered;
      }

  IsHonest-append_one :
      (events : List AuditEvent) (e : AuditEvent) (logs : List (AuditLog Hash))
      → All (IsHonest events) logs
      → All (IsHonest (events ++ e ∷ [])) logs
  IsHonest-append_one events e [] h = tt
  IsHonest-append_one events e (row ∷ rows) ((x, m, q), h) =
      ((x, Has-append_one events e x m, q), IsHonest-append_one events e rows h)

  pub append_one-IsSound :
      (outbox : List OutboxRecord) (tables : Tables Hash) (r : OutboxRecord)
      → All (λ x. x.id ≢ r.id) outbox
      → All (λ e. event_id e ≢ event_id r.payload) (events_of outbox)
      → r.status ≢ published
      → IsSound (record { outbox = outbox; tables = tables })
      → IsSound (record { outbox = outbox ++ r ∷ []; tables = tables })
  append_one-IsSound outbox tables r fresh new ne s =
      let same : events_of (outbox ++ r ∷ []) ≡ events_of outbox ++ r.payload ∷ [] =
        map-append_one payload_of outbox r in
      record {
        keyed = Distinct-append_one record_id outbox r s.keyed fresh;
        events = rw same (Distinct-append_one event_id (events_of outbox) r.payload s.events new);
        log = rw same (record {
          unique = s.log.unique;
          honest = IsHonest-append_one (events_of outbox) r.payload tables.logs s.log.honest;
        });
        delivered =
            All-append_one (IsDelivered tables.logs) outbox s.delivered (λ e. absurd (ne e));
      }

  pub All-mono :
      (logs logs' : List (AuditLog Hash)) (outbox : List OutboxRecord)
      → ((x : AuditEvent) → IsRecorded x logs → IsRecorded x logs')
      → All (IsDelivered logs) outbox
      → All (IsDelivered logs') outbox
  All-mono logs logs' [] f h = tt
  All-mono logs logs' (r ∷ rs) f h = (λ e. f r.payload (h.0 e), All-mono logs logs' rs f h.1)

  module _ (parse_uuid : Text → Option ℕ) (sha256 : Evidence → Option Hash → Hash)
      (settings audit_settings : Settings) (status_error : ℕ → Text) where
    -- A publication changes nothing and fails, or the event is ingested.
    abbrev pub Published : Call → AuditEvent → Tables Hash → Outcome × Tables Hash → Type 0
    Published call event t (outcome, t') =
        ((t' ≡ t) × (outcome ≢ none))
        ⊎ ((row : AuditLog Hash) × (ingest parse_uuid sha256 call.id call.activity_id call.now event
                t
              ≡ some (row, t')))

    answer-Published :
        (call : Call) (event : AuditEvent) (t : Tables Hash)
        → Published call event t (
            answered parse_uuid sha256 settings audit_settings status_error t (
              ingest_event parse_uuid sha256 audit_settings call.id call.activity_id call.now event
                (present settings.internal_api_token)
                t))
    unfolding ingest_event
    answer-Published call event t =
        let guard = check_internal audit_settings (present settings.internal_api_token) in
        let done = ingest parse_uuid sha256 call.id call.activity_id call.now event t in
        elim (Reply-cases guard) [
          | inr (inl (s, d, e)) ↦ rw (e, ingest_event) (inl (refl, λ q. cc))
          | inr (inr e) ↦ rw (e, ingest_event) (inl (refl, λ q. cc))
          | inl (u, e) ↦ elim (Option-cases done) [
            | inl f ↦ rw (e, f, ingest_event) (inl (refl, λ q. cc))
            | inr ((row, t'), f) ↦ rw (e, ingest_event) (rw f (inr (row, refl)))
          ]
        ]

    pub publish-Published :
        (call : Call) (event : AuditEvent) (t : Tables Hash)
        → Published call event t
            (publish parse_uuid sha256 settings audit_settings status_error call event t)
    unfolding publish
    publish-Published call event t = go call.transport
      where
        answer : Outcome × Tables Hash
        answer = answered parse_uuid sha256 settings audit_settings status_error t (
            ingest_event parse_uuid sha256 audit_settings call.id call.activity_id call.now event
              (present settings.internal_api_token) t)

        go :
            (transport : Transport)
            → Published call event t (elim transport [
              | answers ↦ answer
              | unreachable error ↦ (some error, t)
              | loses error ↦ (some error, answer.1)
            ])
        go answers = answer-Published call event t
        go (unreachable error) = inl (refl, λ q. cc)
        go (loses error) = elim (answer-Published call event t) [
          | inl (q, _) ↦ inl (q, λ q. cc)
          | inr done ↦ inr done
        ]
