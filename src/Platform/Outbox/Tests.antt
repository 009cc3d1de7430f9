-- ===== src/Platform/Outbox/Tests.antt =====
-- The properties of the outbox at two concrete rows.
use sentinel_keyvault.Common.{
  map, inl, ℕ, ◌+◌, ◌≡◌, ◌≤◌, refl, Bool, false, Option, none, some, List, [], ◌∷◌, arith, codes,
  Has,
}
use sentinel_keyvault.Platform.Json.{Json}
use sentinel_keyvault.Platform.Events.{AuditEvent}
use sentinel_keyvault.Platform.Outbox.{
  OutboxRecord, Status, settle, settle_row, settle_held, retry_delay, pending, published, dead,
  claim_outbox, claimed, seconds,
}
use sentinel_keyvault.Platform.Outbox.Retries.{Failure, failures, failures_lem}
use sentinel_keyvault.Platform.Outbox.Lease.Others.{here, claims, settles}
use sentinel_keyvault.Platform.Outbox.Lifecycle.{IsClosed}
use sentinel_keyvault.Platform.Outbox.Workers.{Workers, Step, Reach, IsSound, Reach-IsSound}
use sentinel_keyvault.Platform.Outbox.Workers.Reach.{next}

abbrev event : AuditEvent
event = record {
  event = record {
    specversion = codes "1.0";
    id = 7;
    source = codes "test";
    type = codes "t.v1";
    subject = codes "s";
    time = 3;
    datacontenttype = codes "application/json";
    tenant_id = 1;
    correlation_id = 9;
    payload = Json.null;
  };
  actor_type = codes "user";
  actor_id = codes "u";
  action = codes "a";
  entity_type = codes "e";
  entity_id = none;
  outcome = codes "ok";
}

abbrev row : ℕ → Status → ℕ → Option ℕ → OutboxRecord
row id status attempts published_at = record {
  id = id;
  tenant_id = 1;
  destination = codes "audit";
  event_type = codes "t.v1";
  payload = event;
  status = status;
  attempts = attempts;
  available_at = 0;
  created_at = id;
  published_at = published_at;
  last_error = none;
}

abbrev two_rows : List OutboxRecord
two_rows = row 1 pending 0 none ∷ row 2 pending 0 none ∷ []

abbrev unlocked : ℕ → Bool
unlocked n = false

abbrev failure : Failure
failure = record { claimed_at = 5; failed_at = 6; error = codes "refused" }

failures_lem_example :
    ((failures (failure ∷ []) (row 1 pending 19 none)).attempts ≡ 20)
    × ((failures (failure ∷ []) (row 1 pending 19 none)).status ≡ dead)
    × (6 + seconds 2 ≤ (failures (failure ∷ []) (row 1 pending 19 none)).available_at)
    × ((failures (failure ∷ []) (row 1 pending 19 none)).available_at ≤ 6 + seconds 256)
failures_lem_example = failures_lem failure [] (row 1 pending 19 none)

-- Another worker claims row 2 beside row 1, fails, and the row is claimed again two seconds later.
abbrev failed_two : OutboxRecord
failed_two =
    settle_row 7 (some (codes "e")) (claimed 6 (row 2 pending 0 none))
      (claimed 6 (row 2 pending 0 none))

abbrev after_failure : List OutboxRecord
after_failure =
    settle_held 7 (some (codes "e")) (claimed 6 (row 2 pending 0 none))
      (claim_outbox 6 unlocked (claim_outbox 5 unlocked two_rows).1).1

abbrev started : Workers
started = record {
  outbox = row 1 published 1 (some 4) ∷ row 2 pending 0 none ∷ [];
  held = [];
  clock = 5;
}

started-IsSound : IsSound started
started-IsSound = record {
  table = record {
    keyed = ((omega arith, tt), (tt, tt));
    rows = ((omega arith, (λ e. absurd (cc)), refl), ((omega arith, refl), tt));
  };
  leased = λ x h lease. absurd h;
}

abbrev held_two : OutboxRecord
held_two = claimed 6 (row 2 pending 0 none)

abbrev settled_two : Workers
settled_two = record {
  outbox = settle_held 7 none held_two (claim_outbox 6 unlocked started.outbox).1;
  held = [];
  clock = 7;
}

Reach-IsSound_example :
    IsSound settled_two
    × ((x : OutboxRecord) → Has x started.outbox → IsClosed x → Has x settled_two.outbox)
unfolding claim_outbox claimed
Reach-IsSound_example =
    Reach-IsSound
      (next (next Reach.here (Step.claims 6 unlocked (omega arith)))
        (Step.settles 7 none held_two (inl refl) (omega arith) (omega arith)))
      started-IsSound

-- A worker whose publication fails after its lease has ended makes a row pending again that another
-- worker has published in the meantime.
abbrev republished : List OutboxRecord
republished = settle_held 400000002 (some (codes "e")) (claimed 5 (row 1 pending 0 none)) (
    settle_held 400000001 none (claimed 400000000 (claimed 5 (row 1 pending 0 none)))
      (claimed 400000000 (claimed 5 (row 1 pending 0 none)) ∷ []))

late_settlement_test :
    (map (λ r. r.status) republished ≡ pending ∷ [])
    × (map (λ r. r.published_at) republished ≡ some 400000001 ∷ [])
unfolding claimed settle settle_row settle_held retry_delay
late_settlement_test = (refl, refl)
