-- ===== src/Platform/Outbox.antt =====
-- The transactional outbox: `enqueue_audit` and `claim_outbox` of
-- packages/python/sentinel_common/audit.py, and the loop body of
-- packages/python/sentinel_common/outbox_worker.py.
pub mod Delay
pub mod Retries
pub mod Queue
pub mod Lifecycle
pub mod Settled
pub mod Workers
pub mod Lease
mod Tests
use sentinel_keyvault.Common.{
  ℕ, zero, suc, ◌+◌, ◌*◌, ◌^◌, min, Bool, ◌&&◌, ◌||◌, not, Option, none, some, List, [], ◌∷◌, ◌++◌,
  Text, ltb, leb, ◌==◌, take, write, modify, text_eq, if◌then◌else◌,
}
use sentinel_keyvault.Platform.Events.{AuditEvent}

pub data Status : Type 0 where
  pending publishing published dead : Status

pub record OutboxRecord : Type 0 where
  pub id : ℕ
  pub tenant_id : ℕ
  pub destination : Text
  pub event_type : Text
  pub payload : AuditEvent
  pub status : Status
  pub attempts : ℕ
  pub available_at : ℕ
  pub created_at : ℕ
  pub published_at : Option ℕ
  pub last_error : Option Text

abbrev pub seconds : ℕ → ℕ
seconds n = n * 1000000

-- `id`, `now` and `destination` are the column defaults and the literal `"audit"`.
unfoldable pub enqueue_audit : ℕ → ℕ → Text → AuditEvent → List OutboxRecord → List OutboxRecord
enqueue_audit id now destination event outbox =
    outbox
    ++ record {
      id = id;
      tenant_id = event.tenant_id;
      destination = destination;
      event_type = event.type;
      payload = event;
      status = pending;
      attempts = 0;
      available_at = now;
      created_at = now;
      published_at = none;
      last_error = none;
    }
      ∷ []

abbrev pub is_open : Status → Bool
is_open pending = Bool.true
is_open publishing = Bool.true
is_open _ = Bool.false

-- The `where` of `claim_outbox`; `locked` tells the rows that other transactions hold, which
-- `skip_locked` passes over.
unfoldable pub claimable : ℕ → (ℕ → Bool) → OutboxRecord → Bool
claimable now locked r = is_open r.status && leb r.available_at now && not (locked r.id)

-- `order_by(created_at).limit(1)`
abbrev earlier : OutboxRecord → Option OutboxRecord → Option OutboxRecord
earlier r none = some r
earlier r (some best) = if leb r.created_at best.created_at then some r else some best

unfoldable pub oldest : (OutboxRecord → Bool) → List OutboxRecord → Option OutboxRecord
oldest p [] = none
oldest p (r ∷ rs) = if p r then earlier r (oldest p rs) else oldest p rs

-- The assignments of a claim.
unfoldable pub claimed : ℕ → OutboxRecord → OutboxRecord
claimed now r = record r {
  status = publishing;
  attempts = r.attempts + 1;
  available_at = now + seconds 300;
}

abbrev pub record_id : OutboxRecord → ℕ
record_id r = r.id

unfoldable pub claim_outbox :
    ℕ → (ℕ → Bool) → List OutboxRecord → Option OutboxRecord × List OutboxRecord
unfolding claimable oldest claimed
claim_outbox now locked outbox = elim (oldest (claimable now locked) outbox) [
  | none ↦ (none, outbox)
  | some r ↦ (some (claimed now r), write record_id (claimed now r) outbox)
]

-- What `publisher.publish` does: `none`, or the text of the exception.
abbrev pub Outcome : Type 0
Outcome = Option Text

-- The delay before the next attempt, in seconds.
unfoldable pub retry_delay : ℕ → ℕ
retry_delay attempts = min 300 (2 ^ min attempts 8)

unfoldable pub settle : ℕ → Outcome → OutboxRecord → OutboxRecord
unfolding retry_delay
settle now none r = record r { status = published; published_at = some now; last_error = none }
settle now (some error) r = record r {
  status = if ltb r.attempts 20 then pending else dead;
  available_at = now + seconds (retry_delay r.attempts);
  last_error = some (take 2000 error);
}

-- `UPDATE` writes the columns that the worker assigns another value than it read at its claim.
abbrev pub column {ℓ} : {A : Type ℓ} → Bool → A → A → A
column is_same stored assigned = if is_same then stored else assigned

abbrev pub is_same_error : Option Text → Option Text → Bool
is_same_error none none = Bool.true
is_same_error (some e) (some f) = text_eq e f
is_same_error _ _ = Bool.false

-- A settlement is a transaction of its own: what it makes of the stored row, by the record that the
-- worker holds since its claim.
unfoldable pub settle_row : ℕ → Outcome → OutboxRecord → OutboxRecord → OutboxRecord
unfolding settle
settle_row later outcome held stored =
    let settled = settle later outcome held in
    record stored {
      status = settled.status;
      available_at =
          column (settled.available_at == held.available_at) stored.available_at
            settled.available_at;
      published_at = elim outcome [
        | none ↦ settled.published_at
        | some error ↦ stored.published_at
      ];
      last_error =
          column (is_same_error settled.last_error held.last_error) stored.last_error
            settled.last_error;
    }

unfoldable pub settle_held : ℕ → Outcome → OutboxRecord → List OutboxRecord → List OutboxRecord
unfolding settle_row
settle_held later outcome held =
    modify (λ stored. stored.id == held.id) (settle_row later outcome held)

unfoldable pub finish :
    ℕ → Outcome → Option OutboxRecord × List OutboxRecord → Option OutboxRecord × List OutboxRecord
unfolding settle
finish later outcome (none, outbox) = (none, outbox)
finish later outcome (some r, outbox) =
    (some (settle later outcome r), write record_id (settle later outcome r) outbox)

-- One round of the loop in `run`: what was claimed, if anything, as it was settled, and the table.
-- `now` is the time of the claim and `later` that of the settlement.
unfoldable pub relay :
    ℕ → ℕ → (ℕ → Bool) → Outcome → List OutboxRecord → Option OutboxRecord × List OutboxRecord
unfolding claim_outbox finish
relay now later locked outcome outbox = finish later outcome (claim_outbox now locked outbox)
