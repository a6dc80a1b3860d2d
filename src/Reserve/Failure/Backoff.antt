-- ===== src/Reserve/Failure/Backoff.antt =====
-- The back-off never stops the loop for good.
use native.Mathlib.Nat.{pow-suc}
use zcash_faucet.Base.{ℕ, ◌≤◌, ◌≡◌, zero, suc, ◌^◌, true, arith}
use zcash_faucet.Reserve.Failure.{max_backoff_ticks, backoff_ticks, should_attempt}

pow-mono_suc : (n : ℕ) → 2 ^ n ≤ 2 ^ suc n
pow-mono_suc n = rw (pow-suc 2 n) (omega arith)

-- However often a step has failed, the wait is at most `max_backoff_ticks`, and one more failure
-- never shortens it.
pub backoff_ticks_bounds :
    (n : ℕ) → (backoff_ticks n ≤ max_backoff_ticks) × (backoff_ticks n ≤ backoff_ticks (suc n))
unfolding backoff_ticks
backoff_ticks_bounds zero = omega arith
backoff_ticks_bounds (suc n) = omega (arith, pow-mono_suc n)

-- After `max_backoff_ticks` ticks without an attempt the next is made, whatever has failed.
pub should_attempt_after :
    (failures ticks : ℕ) → max_backoff_ticks ≤ ticks → should_attempt failures ticks ≡ true
unfolding should_attempt
should_attempt_after failures ticks h = ground (arith, backoff_ticks_bounds failures)
