-- ===== src/Reserve/Loop.antt =====
-- src/lib/reserve/reconciler.ts: the loop's state, one tick of it, and the two ways in which the
-- step that it put on the send queue ends. A tick reads the balance, the clock and the depth of
-- the queue once each. The log lines and the timer are left out.
pub mod Rules
pub mod Progress
mod Tests
use zcash_faucet.Base.{
  ℕ, ◌+◌, ◌-◌, suc, Bool, true, false, not, ◌&&◌, ◌||◌, String, Option, none, some, if◌then◌else◌,
}
use zcash_faucet.Reserve.Decide.{
  ReserveLevels, decide_refilling, initial_refilling, should_start_step, should_harvest,
}
use zcash_faucet.Reserve.Failure.{StepOutcome, classify_step_failure, should_attempt}

-- `config.reserve`.
pub record ReserveConfig : Type 0 where
  pub levels : ReserveLevels
  pub shield_coinbase : Bool
  pub harvest_min_utxos : ℕ
  pub harvest_interval_ms : ℕ

-- What the step returned: the gate's reason if it declined, else what the sweep did.
pub record StepResult : Type 0 where
  pub refusal : Option String
  pub moved : Bool
  pub remaining_utxos : Option ℕ

pub record LoopState : Type 0 where
  pub refilling : Option Bool
  pub spendable_zat : Option ℕ
  pub step_in_flight : Bool
  pub blind_ticks : ℕ
  pub empty_sweeps : ℕ
  pub shield_refusals : ℕ
  pub forbidden_ticks : ℕ
  pub failed_steps : ℕ
  pub last_failure : Option (StepOutcome × String)
  pub ticks_since_attempt : ℕ
  pub last_refusal : Option String
  pub remaining_utxos : Option ℕ
  pub last_harvest_at : Option ℕ
  pub last_sweep_moved : Bool
  pub moved_without_count : ℕ
  pub harvesting : Bool
  -- `harvestClockBefore`, which the step's callbacks hold.
  pub harvest_clock_before : Option ℕ

abbrev pub new_loop : LoopState
new_loop = record {
  refilling = none;
  spendable_zat = none;
  step_in_flight = false;
  blind_ticks = 0;
  empty_sweeps = 0;
  shield_refusals = 0;
  forbidden_ticks = 0;
  failed_steps = 0;
  last_failure = none;
  ticks_since_attempt = 0;
  last_refusal = none;
  remaining_utxos = none;
  last_harvest_at = none;
  last_sweep_moved = true;
  moved_without_count = 0;
  harvesting = false;
  harvest_clock_before = none;
}

abbrev pub is_known : Option ℕ → Bool
is_known none = false
is_known (some z) = true

-- `this.refilling === true`.
abbrev pub is_true : Option Bool → Bool
is_true none = false
is_true (some b) = b

abbrev pub ms_since : ℕ → Option ℕ → Option ℕ
ms_since now none = none
ms_since now (some t) = some (now - t)

-- The balance that was read, and the ticks without one.
observe : Option ℕ → LoopState → LoopState
observe balance s = record s {
  spendable_zat = balance;
  blind_ticks = if is_known balance then 0 else suc s.blind_ticks;
}

abbrev decided : Option Bool → Option ℕ → ReserveLevels → Option Bool
decided none balance levels = initial_refilling balance levels
decided (some refilling) balance levels = some (decide_refilling refilling balance levels)

decide : ReserveConfig → LoopState → LoopState
decide c s = record s { refilling = decided s.refilling s.spendable_zat c.levels }

note_forbidden : ReserveConfig → LoopState → LoopState
note_forbidden c s = record s {
  forbidden_ticks =
      if is_true s.refilling && not c.shield_coinbase then suc s.forbidden_ticks else 0;
}

pub harvest_due : ReserveConfig → ℕ → LoopState → Bool
harvest_due c now s = should_harvest (record {
  spendable_known = is_known s.spendable_zat;
  known_remaining_utxos = s.remaining_utxos;
  min_utxos = c.harvest_min_utxos;
  last_sweep_moved = s.last_sweep_moved;
  ms_since_last_harvest = ms_since now s.last_harvest_at;
  interval_ms = c.harvest_interval_ms;
})

may_start : ReserveConfig → Bool → ℕ → LoopState → Bool
may_start c harvest queue_depth s = should_start_step (record {
  refilling = is_true s.refilling;
  harvesting = harvest;
  can_act = c.shield_coinbase;
  step_in_flight = s.step_in_flight;
  queue_depth = queue_depth;
})

-- The step goes on the queue, and the clock of a harvest is stamped.
launch : ℕ → LoopState → LoopState
launch now s = record s {
  ticks_since_attempt = 0;
  step_in_flight = true;
  harvest_clock_before = s.last_harvest_at;
  last_harvest_at = if s.harvesting then some now else s.last_harvest_at;
}

-- A tick that is to start: it may still back off.
attempt : ℕ → Bool → LoopState → LoopState × Bool
unfolding launch
attempt now harvest s =
    let t = record s {
      harvesting = harvest && not (is_true s.refilling);
      ticks_since_attempt = suc s.ticks_since_attempt;
    } in
    if should_attempt t.failed_steps t.ticks_since_attempt
    then (launch now t, true)
    else (record t { harvesting = false }, false)

-- `tick`, and whether it put a step on the queue.
pub tick : ReserveConfig → Option ℕ → ℕ → ℕ → LoopState → LoopState × Bool
unfolding observe decide note_forbidden harvest_due may_start attempt
tick c balance now queue_depth s =
    let t = note_forbidden c (decide c (observe balance s)) in
    let harvest = harvest_due c now t in
    if may_start c harvest queue_depth t
    then attempt now harvest t
    else (record t { harvesting = t.harvesting && t.step_in_flight }, false)

abbrev asked : StepResult → LoopState → LoopState
asked r s = record s {
  remaining_utxos = r.remaining_utxos;
  last_sweep_moved = r.moved;
  shield_refusals = 0;
  last_refusal = none;
}

abbrev counted : StepResult → LoopState → LoopState
counted r s =
    if r.moved
    then record s {
      empty_sweeps = 0;
      moved_without_count = if is_known r.remaining_utxos then 0 else suc s.moved_without_count;
    }
    else record s { empty_sweeps = suc s.empty_sweeps }

abbrev declined : String → LoopState → LoopState
declined reason s = record s {
  last_harvest_at = s.harvest_clock_before;
  shield_refusals = suc s.shield_refusals;
  last_refusal = some reason;
}

-- The step's `then`, and its `finally`.
pub step_returned : StepResult → LoopState → LoopState
step_returned r s =
    let t = record s { failed_steps = 0; last_failure = none; step_in_flight = false } in
    elim r.refusal [ none ↦ counted r (asked r t) | some reason ↦ declined reason t ]

-- The step's `catch`, and its `finally`.
pub step_threw : String → LoopState → LoopState
step_threw message s = record s {
  failed_steps = suc s.failed_steps;
  last_failure = some (classify_step_failure message, message);
  last_sweep_moved = false;
  step_in_flight = false;
}
