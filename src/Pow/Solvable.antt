-- ===== src/Pow/Solvable.antt =====
-- Every challenge that is issued can be solved in a browser, within half of its own life.
use zcash_faucet.Base.{
  ℕ, zero, suc, ◌+◌, ◌-◌, ◌≤◌, ◌≡◌, refl, true, false, String, Option, ◌⊎◌, inl, inr, arith,
  Bool-cases, subst,
}
use native.Mathlib.Decide.{dec_le}
use native.Mathlib.Nat.{pow-le-pow_right}
use zcash_faucet.Pow.Budget.{
  slow_browser_hashes_per_sec, expected_hashes, ttl_seconds_for, within_budget, walk,
  solvable_ceiling_bits,
}
use zcash_faucet.Pow.Gate.{PowConfig, Attempts, solvable_ceiling, difficulty_for}

module _ (base ttl rate : ℕ) where
  abbrev Fits : ℕ → Type 0
  Fits bits = within_budget base ttl rate bits ≡ true

  -- The walk never leaves the bits that are within the budget.
  walk-Fits :
      (turns bits best b : ℕ)
      → ((i : ℕ) → base ≤ i → i ≤ best → Fits i)
      → bits ≤ best + 1
      → base ≤ b
      → b ≤ walk base ttl rate turns bits best
      → Fits b
  unfolding walk
  walk-Fits zero bits best b fits near lo hi = fits b lo hi
  walk-Fits (suc turns) bits best b fits near lo hi =
      elim (Bool-cases (within_budget base ttl rate bits)) [
        | inl fit ↦
            walk-Fits turns (suc bits) bits b (λ i from to. extend i from to fit) (omega arith) lo
              (ground (arith, fit, hi))
        | inr unfit ↦ fits b lo (ground (arith, unfit, hi))
      ]
    where
      extend : (i : ℕ) → base ≤ i → i ≤ bits → Fits bits → Fits i
      extend i from to fit = elim (dec_le i best) [
        | yes small ↦ fits i from small
        | no large ↦ subst Fits (omega arith) fit
      ]

  -- It stops for a reason: the bits after the last are over the budget, or the turns ran out.
  walk-stops :
      (turns best : ℕ)
      → (walk base ttl rate turns (suc best) best ≡ best + turns)
        ⊎ (within_budget base ttl rate (suc (walk base ttl rate turns (suc best) best)) ≡ false)
  unfolding walk
  walk-stops zero best = inl (omega arith)
  walk-stops (suc turns) best = elim (Bool-cases (within_budget base ttl rate (suc best))) [
    | inl fit ↦ rw fit (after (walk-stops turns (suc best)))
    | inr unfit ↦ rw unfit (inr unfit)
  ]
    where
      after :
          (walk base ttl rate turns (suc (suc best)) (suc best) ≡ suc best + turns)
            ⊎ (within_budget base ttl rate
                  (suc (walk base ttl rate turns (suc (suc best)) (suc best)))
                ≡ false)
          → (walk base ttl rate turns (suc (suc best)) (suc best) ≡ best + suc turns)
            ⊎ (within_budget base ttl rate
                  (suc (walk base ttl rate turns (suc (suc best)) (suc best)))
                ≡ false)
      after (inl e) = inl (omega (arith, e))
      after (inr e) = inr e

  first_turn :
      Fits base
      → base ≤ 40
      → solvable_ceiling_bits base ttl rate ≡ walk base ttl rate (40 - base) (suc base) base
  unfolding solvable_ceiling_bits walk
  first_turn fit forty = rw (turns, fit) refl
    where
      turns : 41 - base ≡ suc (40 - base)
      turns = omega arith

  ceiling-Fits : (b : ℕ) → Fits base → base ≤ b → b ≤ solvable_ceiling_bits base ttl rate → Fits b
  unfolding solvable_ceiling_bits
  ceiling-Fits b fit lo hi =
      walk-Fits (41 - base) base base b (λ i from to. subst Fits (omega arith) fit) (omega arith) lo
        hi

  -- The ceiling is exact: with a base that is within the budget and at most forty bits, every
  -- difficulty from the base to the ceiling can be solved within half of its life on the slowest
  -- browser, and the next one cannot, unless the ceiling is forty bits.
  pub ceiling_exact :
      (b : ℕ)
      → Fits base
      → base ≤ 40
      → base ≤ b
      → b ≤ solvable_ceiling_bits base ttl rate
      → (within_budget base ttl rate b ≡ true)
        × ((solvable_ceiling_bits base ttl rate ≡ 40)
            ⊎ (within_budget base ttl rate (suc (solvable_ceiling_bits base ttl rate)) ≡ false))
  ceiling_exact b fit forty lo hi =
      (ceiling-Fits b fit lo hi, rw (first_turn fit forty) (last (walk-stops (40 - base) base)))
    where
      last :
          (walk base ttl rate (40 - base) (suc base) base ≡ base + (40 - base))
            ⊎ (within_budget base ttl rate (suc (walk base ttl rate (40 - base) (suc base) base))
                ≡ false)
          → (walk base ttl rate (40 - base) (suc base) base ≡ 40)
            ⊎ (within_budget base ttl rate (suc (walk base ttl rate (40 - base) (suc base) base))
                ≡ false)
      last (inl e) = inl (omega (arith, e))
      last (inr e) = inr e

  -- A difficulty below the base lives as long as the base, and takes less work.
  lower-Fits : (b : ℕ) → Fits base → b ≤ base → Fits b
  unfolding within_budget expected_hashes ttl_seconds_for
  lower-Fits b fit le = ground (arith, pow-le-pow_right {n = 2} (omega arith) le)

difficulty_for-le :
    (c : PowConfig) (a : Attempts) (ip_hash : String) (subnet_hash : Option String) (now : ℕ)
    → difficulty_for c a ip_hash subnet_hash now ≤ solvable_ceiling c
unfolding difficulty_for
difficulty_for-le c a ip_hash subnet_hash now = omega arith

-- The difficulty that is issued, to any client after any attempts, can be solved within half of the
-- challenge's life on the slowest browser, provided that the base difficulty can.
pub difficulty_for-within_budget :
    (c : PowConfig) (a : Attempts) (ip_hash : String) (subnet_hash : Option String) (now : ℕ)
    → within_budget c.base_bits c.ttl_seconds slow_browser_hashes_per_sec c.base_bits ≡ true
    → within_budget c.base_bits c.ttl_seconds slow_browser_hashes_per_sec
        (difficulty_for c a ip_hash subnet_hash now)
      ≡ true
difficulty_for-within_budget c a ip_hash subnet_hash now fit =
    elim (dec_le c.base_bits (difficulty_for c a ip_hash subnet_hash now)) [
      | yes lo ↦
          ceiling-Fits c.base_bits c.ttl_seconds slow_browser_hashes_per_sec
            (difficulty_for c a ip_hash subnet_hash now) fit lo
            (difficulty_for-le c a ip_hash subnet_hash now)
      | no below ↦
          lower-Fits c.base_bits c.ttl_seconds slow_browser_hashes_per_sec
            (difficulty_for c a ip_hash subnet_hash now) fit (omega arith)
    ]
