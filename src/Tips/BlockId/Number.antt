-- ===== src/Tips/BlockId/Number.antt =====
-- src/lib/zcash/externalTip.ts: `Number` of a height that a double holds.
use zcash_faucet.Base.{ℕ, suc, ◌*◌, ◌^◌, ◌<◌, ◌≡◌, true, ltb, lt→ltb, arith}
use zcash_faucet.Tips.BlockId.{nearest, number_at, to_number}

nearest_one : (v : ℕ) → nearest 1 v ≡ v
nearest_one v = ground arith

number_at-one : (fuel v : ℕ) → v < 2 ^ 53 → number_at (suc fuel) 1 v ≡ v
unfolding number_at
number_at-one fuel v h =
    let small : ltb v (2 ^ 53 * 1) ≡ true = lt→ltb v (2 ^ 53 * 1) (omega (arith, h)) in
    rw (number_at, small) (nearest_one v)

pub to_number_exact : (v : ℕ) → v < 2 ^ 53 → to_number v ≡ v
unfolding to_number
to_number_exact v h = number_at-one 971 v h
