-- ===== src/Reserve/Loop/Progress.antt =====
-- A reserve that runs low is refilled: no run of failures stops the loop for good.
use zcash_faucet.Base.{
  ℕ, ◌+◌, ◌≤◌, ◌<◌, ◌≡◌, suc, inl, inr, Bool, true, false, ◌||◌, some, List, [], ◌∷◌, arith, All,
  length, Option-cases, Bool-cases,
}
use zcash_faucet.Reserve.Decide.{decide_refilling, initial_refilling, should_start_step}
use zcash_faucet.Reserve.Failure.{max_backoff_ticks, should_attempt}
use zcash_faucet.Reserve.Failure.Backoff.{should_attempt_after}
use zcash_faucet.Reserve.Loop.{ReserveConfig, LoopState, tick}

-- Whether one of the ticks, each with a balance and a clock, over an empty queue, starts a step.
pub starts_in : ReserveConfig → LoopState → List (ℕ × ℕ) → Bool
starts_in c s [] = false
starts_in c s ((z, now) ∷ ticks) =
    (tick c (some z) now 0 s).1 || starts_in c (tick c (some z) now 0 s).0 ticks

-- A low balance makes the tick want a step; whether it starts is the back-off's answer.
tick-low :
    (c : ReserveConfig) (z now : ℕ) (s : LoopState)
    → c.levels.low_zat ≤ c.levels.target_zat
    → z < c.levels.low_zat
    → s.step_in_flight ≡ false
    → c.shield_coinbase ≡ true
    → (tick c (some z) now 0 s).1 ≡ should_attempt s.failed_steps (suc s.ticks_since_attempt)
unfolding tick should_start_step decide_refilling initial_refilling
tick-low c z now s levels low idle permitted = elim (Option-cases s.refilling) [
  | inl e ↦ ground arith
  | inr (b, e) ↦ ground arith
]

tick-waits :
    (c : ReserveConfig) (z now : ℕ) (s : LoopState)
    → c.levels.low_zat ≤ c.levels.target_zat
    → z < c.levels.low_zat
    → s.step_in_flight ≡ false
    → c.shield_coinbase ≡ true
    → (tick c (some z) now 0 s).1 ≡ false
    → ((tick c (some z) now 0 s).0.step_in_flight ≡ false)
      × ((tick c (some z) now 0 s).0.ticks_since_attempt ≡ suc s.ticks_since_attempt)
unfolding tick should_start_step decide_refilling initial_refilling
tick-waits c z now s levels low idle permitted waits = elim (Option-cases s.refilling) [
  | inl e ↦ ground arith
  | inr (b, e) ↦ ground arith
]

starts_in-some :
    (c : ReserveConfig) (s : LoopState) (ticks : List (ℕ × ℕ))
    → c.levels.low_zat ≤ c.levels.target_zat
    → c.shield_coinbase ≡ true
    → All (λ t. t.0 < c.levels.low_zat) ticks
    → s.step_in_flight ≡ false
    → 0 < length ticks
    → max_backoff_ticks ≤ length ticks + s.ticks_since_attempt
    → starts_in c s ticks ≡ true
unfolding starts_in
starts_in-some c s [] levels permitted low idle pos enough = absurd (omega arith)
starts_in-some c s ((z, now) ∷ []) levels permitted (low, _) idle pos enough = ground (
  arith,
  tick-low c z now s levels low idle permitted,
  should_attempt_after s.failed_steps (suc s.ticks_since_attempt),
)
starts_in-some c s ((z, now) ∷ t ∷ ticks) levels permitted (low, lows) idle pos enough =
    elim (Bool-cases (tick c (some z) now 0 s).1) [
      | inl go ↦ rw go
      | inr waits ↦
          let (idle', since) = tick-waits c z now s levels low idle permitted waits in
          rw waits (
            starts_in-some c (tick c (some z) now 0 s).0 (t ∷ ticks) levels permitted lows idle'
              (omega arith) (omega arith))
    ]

-- Where shielding is permitted and no step is in flight, some one of any `max_backoff_ticks`
-- successive ticks with a balance below the low mark and an empty queue starts a refill step,
-- whatever failures came before.
pub refill_starts :
    (c : ReserveConfig) (s : LoopState) (ticks : List (ℕ × ℕ))
    → c.levels.low_zat ≤ c.levels.target_zat
    → c.shield_coinbase ≡ true
    → All (λ t. t.0 < c.levels.low_zat) ticks
    → s.step_in_flight ≡ false
    → max_backoff_ticks ≤ length ticks
    → starts_in c s ticks ≡ true
refill_starts c s ticks levels permitted low idle enough =
    starts_in-some c s ticks levels permitted low idle (omega arith) (omega arith)
