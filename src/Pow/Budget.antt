-- ===== src/Pow/Budget.antt =====
-- src/lib/powBudget.ts: how hard a challenge may get, and how long it lives. The quotients are taken
-- exactly, where the code has floating point.
use zcash_faucet.Base.{ℕ, zero, suc, ◌+◌, ◌-◌, ◌*◌, ◌/◌, ◌^◌, Bool, leb, if◌then◌else◌}

abbrev pub slow_browser_hashes_per_sec : ℕ
slow_browser_hashes_per_sec = 100_000

unfoldable pub expected_hashes : ℕ → ℕ
expected_hashes bits = 2 ^ bits

-- `Math.round(baseTtlSeconds * (bits / baseBits))`.
unfoldable pub ttl_seconds_for : ℕ → ℕ → ℕ → ℕ
ttl_seconds_for bits base_bits base_ttl_seconds =
    if leb bits base_bits
    then base_ttl_seconds
    else (2 * (base_ttl_seconds * bits) + base_bits) / (2 * base_bits)

-- Not `solveSecondsFor(bits) > ttl * SOLVE_BUDGET_FRACTION`, both sides times twice the rate.
unfoldable pub within_budget : ℕ → ℕ → ℕ → ℕ → Bool
unfolding expected_hashes ttl_seconds_for
within_budget base_bits base_ttl_seconds hashes_per_sec bits =
    leb (2 * expected_hashes bits)
      (hashes_per_sec * ttl_seconds_for bits base_bits base_ttl_seconds)

-- The loop from `bits`, of which `best` is the last that was within the budget.
unfoldable pub walk : ℕ → ℕ → ℕ → ℕ → ℕ → ℕ → ℕ
walk base_bits base_ttl_seconds hashes_per_sec zero bits best = best
walk base_bits base_ttl_seconds hashes_per_sec (suc turns) bits best =
    let further = walk base_bits base_ttl_seconds hashes_per_sec turns (suc bits) bits in
    if within_budget base_bits base_ttl_seconds hashes_per_sec bits then further else best

-- The loop runs while `bits <= 40`.
unfoldable pub solvable_ceiling_bits : ℕ → ℕ → ℕ → ℕ
unfolding walk
solvable_ceiling_bits base_bits base_ttl_seconds hashes_per_sec =
    walk base_bits base_ttl_seconds hashes_per_sec (41 - base_bits) base_bits base_bits
