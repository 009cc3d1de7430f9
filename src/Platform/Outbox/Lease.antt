-- ===== src/Platform/Outbox/Lease.antt =====
-- For how long nobody else can claim the row that `claim_outbox` has taken.
use sentinel_keyvault.Common.{ℕ, ◌<◌, ◌≢◌, Bool, List, Text, Distinct, Has, All}
use sentinel_keyvault.Platform.Events.{AuditEvent}
use sentinel_keyvault.Platform.Outbox.{
  OutboxRecord, record_id, Outcome, enqueue_audit, claim_outbox, settle_held,
}

-- What can happen to the table before the time `until` while the worker of the row `id` is at work:
-- events are enqueued under new ids, other workers claim, and settle rows that are not this one,
-- within or after their leases.
pub data Others (id until : ℕ) (a : List OutboxRecord) : List OutboxRecord → Type 0 where
  here : Others id until a a
  enqueues :
      {b : List OutboxRecord} (new now : ℕ) (destination : Text) (event : AuditEvent)
      → Others id until a b
      → All (λ r. r.id ≢ new) b
      → Others id until a (enqueue_audit new now destination event b)
  claims :
      {b : List OutboxRecord} (now : ℕ) (locked : ℕ → Bool)
      → Others id until a b
      → now < until
      → Others id until a (claim_outbox now locked b).1
  settles :
      {b : List OutboxRecord} (later : ℕ) (outcome : Outcome) (held : OutboxRecord)
      → Others id until a b
      → held.id ≢ id
      → Others id until a (settle_held later outcome held b)

-- The table has the claimed row, and each id once.
abbrev Keeps : OutboxRecord → List OutboxRecord → Type 0
Keeps r outbox = Distinct record_id outbox × Has r outbox
