-- ===== src/Platform/Outbox/Retries.antt =====
-- What repeated failures do to one record.
use sentinel_keyvault.Common.{
  ℕ, suc, ◌+◌, ◌≡◌, ◌≤◌, List, [], ◌∷◌, some, Text, arith, ltb, length, if◌then◌else◌,
}
use sentinel_keyvault.Platform.Outbox.{OutboxRecord, pending, dead, seconds, claimed, settle}
use sentinel_keyvault.Platform.Outbox.Delay.{retry_delay_bounds}

-- A failed round: the time of the claim, that of the failure, and the exception's text.
pub record Failure : Type 0 where
  pub claimed_at : ℕ
  pub failed_at : ℕ
  pub error : Text

-- The record after these failed rounds, in order.
pub failures : List Failure → OutboxRecord → OutboxRecord
failures [] r = r
failures (f ∷ fs) r = failures fs (settle f.failed_at (some f.error) (claimed f.claimed_at r))

abbrev pub last_failure : Failure → List Failure → Failure
last_failure f [] = f
last_failure f (g ∷ fs) = last_failure g fs

-- One failed round moves the record by a delay within the bounds.
settle-delay :
    (f : Failure) (r : OutboxRecord)
    → let r' = settle f.failed_at (some f.error) (claimed f.claimed_at r) in
      (f.failed_at + seconds 2 ≤ r'.available_at) × (r'.available_at ≤ f.failed_at + seconds 256)
unfolding settle claimed
settle-delay f r =
    let (low, high) = retry_delay_bounds (r.attempts + 1) (omega arith) in
    (omega arith, omega arith)

settle-counts :
    (f : Failure) (r : OutboxRecord)
    → let r' = settle f.failed_at (some f.error) (claimed f.claimed_at r) in
      (r'.attempts ≡ r.attempts + 1)
      × (r'.status ≡ (if ltb (r.attempts + 1) 20 then pending else dead))
unfolding settle claimed
settle-counts f r = ground arith

settle-attempts :
    (f : Failure) (r : OutboxRecord) (fs : List Failure)
    → (settle f.failed_at (some f.error) (claimed f.claimed_at r)).attempts + suc (length fs)
      ≡ r.attempts + suc (suc (length fs))
unfolding settle claimed
settle-attempts f r fs = omega arith

-- A record that fails in round after round has counted every attempt, is pending after fewer than
-- 20 attempts in all and dead from the 20th on, and is due between 2 and 256 seconds after the last
-- failure, so that the cap of 300 seconds never applies.
pub failures_lem :
    (f : Failure) (fs : List Failure) (r : OutboxRecord)
    → ((failures (f ∷ fs) r).attempts ≡ r.attempts + length (f ∷ fs))
      × ((failures (f ∷ fs) r).status
          ≡ (if ltb (r.attempts + length (f ∷ fs)) 20 then pending else dead))
      × ((last_failure f fs).failed_at + seconds 2 ≤ (failures (f ∷ fs) r).available_at)
      × ((failures (f ∷ fs) r).available_at ≤ (last_failure f fs).failed_at + seconds 256)
unfolding failures
failures_lem f [] r =
    let (low, high) = settle-delay f r in
    let (count, state) = settle-counts f r in (count, state, low, high)
failures_lem f (g ∷ fs) r =
    let r' : OutboxRecord = settle f.failed_at (some f.error) (claimed f.claimed_at r) in
    let ih = failures_lem g fs r' in
    let e : r'.attempts + suc (length fs) ≡ r.attempts + suc (suc (length fs)) =
      settle-attempts f r fs in
    rw (← e) ih
