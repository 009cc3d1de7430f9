-- ===== src/Platform/Outbox/Delay.antt =====
-- The back-off of `outbox_worker.run`: `min(300, 2 ** min(attempts, 8))` seconds.
use sentinel_keyvault.Common.{ℕ, zero, suc, ◌^◌, ◌≤◌, arith, min}
use sentinel_keyvault.Platform.Outbox.{retry_delay}

abbrev Delays : ℕ → Type 0
Delays k = (1 ≤ k → 2 ≤ 2 ^ k) × (2 ^ k ≤ 256)

delays_lem : (k : ℕ) → k ≤ 8 → Delays k
delays_lem zero h = omega arith
delays_lem (suc zero) h = omega arith
delays_lem (suc (suc zero)) h = omega arith
delays_lem (suc (suc (suc zero))) h = omega arith
delays_lem (suc (suc (suc (suc zero)))) h = omega arith
delays_lem (suc (suc (suc (suc (suc zero))))) h = omega arith
delays_lem (suc (suc (suc (suc (suc (suc zero)))))) h = omega arith
delays_lem (suc (suc (suc (suc (suc (suc (suc zero))))))) h = omega arith
delays_lem (suc (suc (suc (suc (suc (suc (suc (suc zero)))))))) h = omega arith
delays_lem (suc (suc (suc (suc (suc (suc (suc (suc (suc k))))))))) h = absurd (omega arith)

-- After at least one attempt the next one waits between 2 and 256 seconds, so the cap of 300
-- seconds in the source never applies.
pub retry_delay_bounds : (n : ℕ) → 1 ≤ n → (2 ≤ retry_delay n) × (retry_delay n ≤ 256)
unfolding retry_delay
retry_delay_bounds n h =
    let b = delays_lem (min n 8) (omega arith) in
    (omega (arith, b.0 (omega arith)), omega (arith, b.1))
