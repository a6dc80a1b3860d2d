-- ===== src/Reserve/Loop/Tests.antt =====
-- Checks of the loop at concrete inputs.
use zcash_faucet.Base.{
  ℕ, ◌≡◌, refl, Bool, true, false, Option, none, some, List, [], ◌∷◌, ◌++◌, arith,
}
use zcash_faucet.Reserve.Decide.{
  decide_refilling, initial_refilling, should_start_step, should_harvest,
}
use zcash_faucet.Reserve.Failure.{should_attempt, backoff_ticks}
use zcash_faucet.Reserve.Loop.{
  ReserveConfig, StepResult, LoopState, new_loop, observe, decide, note_forbidden, harvest_due,
  may_start, attempt, launch, tick, step_returned,
}
use zcash_faucet.Reserve.Loop.Progress.{starts_in, refill_starts}

abbrev config : ReserveConfig
config = record {
  levels = record { low_zat = 100; target_zat = 300 };
  shield_coinbase = true;
  harvest_min_utxos = 20;
  harvest_interval_ms = 3_600_000;
}

abbrev queue_depth : ℕ
queue_depth = 0

abbrev full : Option ℕ
full = some 500

-- A full reserve: the first tick starts a harvest.
abbrev harvest_tick : LoopState × Bool
harvest_tick = tick config full 5_000 queue_depth new_loop

harvest_starts : (harvest_tick.1 ≡ true) × (harvest_tick.0.harvesting ≡ true)
unfolding tick observe decide note_forbidden harvest_due may_start attempt launch initial_refilling
    should_start_step should_harvest should_attempt backoff_ticks
harvest_starts = (refl, refl)

abbrev declined_step : StepResult
declined_step = record { refusal = some "node behind"; moved = false; remaining_utxos = none }

abbrev idle_step : StepResult
idle_step = record { refusal = none; moved = false; remaining_utxos = none }

abbrev after_refusal : LoopState
after_refusal = step_returned declined_step harvest_tick.0

-- The harvest moves nothing, and a minute later the balance is low.
abbrev second_tick : LoopState × Bool
second_tick = tick config (some 50) 65_000 queue_depth (step_returned idle_step harvest_tick.0)

second_starts : second_tick.1 ≡ true
unfolding tick observe decide note_forbidden harvest_due may_start attempt launch initial_refilling
    decide_refilling should_start_step should_harvest should_attempt backoff_ticks step_returned
second_starts = refl

-- Five failures in a row do not keep a low reserve from being refilled.
abbrev failing : LoopState
failing = record new_loop { refilling = some true; failed_steps = 5 }

abbrev five_ticks : ℕ → List (ℕ × ℕ)
five_ticks now = (50, now) ∷ (50, now) ∷ (50, now) ∷ (50, now) ∷ (50, now) ∷ []

abbrev low_ticks : ℕ → List (ℕ × ℕ)
low_ticks now = five_ticks now ++ five_ticks now ++ five_ticks now ++ five_ticks now

refill_starts_example : starts_in config failing (low_ticks 9_000) ≡ true
refill_starts_example =
    refill_starts config failing (low_ticks 9_000) (omega arith) refl (omega arith) refl
      (omega arith)
