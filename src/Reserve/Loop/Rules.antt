-- ===== src/Reserve/Loop/Rules.antt =====
-- When a tick acts, and what a step that ends leaves of the loop's knowledge.
use zcash_faucet.Base.{
  ℕ, ◌+◌, ◌<◌, ◌≡◌, refl, ◌∙◌, ◌⊎◌, inl, inr, true, false, String, Option, none, some, arith,
}
use zcash_faucet.Reserve.Decide.{should_start_step, should_harvest}
use zcash_faucet.Reserve.Loop.{
  ReserveConfig, StepResult, LoopState, is_known, is_true, tick, step_returned, step_threw,
}

-- A step starts only on an idle queue, with no other step in flight and where shielding is
-- permitted, for a refill that was decided on or a harvest with a readable balance, and the state
-- says that it is in flight.
pub tick_starts :
    (c : ReserveConfig) (balance : Option ℕ) (now depth : ℕ) (s : LoopState)
    → (tick c balance now depth s).1 ≡ true
    → (depth ≡ 0)
      × (s.step_in_flight ≡ false)
      × (c.shield_coinbase ≡ true)
      × ((tick c balance now depth s).0.step_in_flight ≡ true)
      × ((is_true (tick c balance now depth s).0.refilling ≡ true) ⊎ (is_known balance ≡ true))
unfolding tick should_start_step should_harvest
tick_starts c balance now depth s h = ground arith

-- A harvest that the gate refuses costs nothing: after it the harvest clock, the reported count
-- and the progress flag are as before the tick that started it.
pub refused_harvest_restores :
    (c : ReserveConfig) (balance : Option ℕ) (now depth : ℕ) (s : LoopState) (r : StepResult)
    (reason : String)
    → (tick c balance now depth s).1 ≡ true
    → r.refusal ≡ some reason
    → let t = step_returned r (tick c balance now depth s).0 in
      (t.last_harvest_at ≡ s.last_harvest_at)
      × (t.remaining_utxos ≡ s.remaining_utxos)
      × (t.last_sweep_moved ≡ s.last_sweep_moved)
      × (t.empty_sweeps ≡ s.empty_sweeps)
unfolding tick step_returned
refused_harvest_restores c balance now depth s r reason h e = ground arith

-- A sweep that ended without moving anything: it threw, or it returned so and was not refused.
abbrev pub IsFruitless : LoopState → LoopState → Type 0
IsFruitless s t =
    ((message : String) × (t ≡ step_threw message s))
    ⊎ ((r : StepResult) × (r.refusal ≡ none) × (r.moved ≡ false) × (t ≡ step_returned r s))

fruitless-keeps :
    (s t : LoopState)
    → IsFruitless s t
    → (t.last_sweep_moved ≡ false) × (t.last_harvest_at ≡ s.last_harvest_at)
unfolding step_threw step_returned
fruitless-keeps s t (inl (message, e)) = rw e (refl, refl)
fruitless-keeps s t (inr (r, n, m, e)) = rw e (ground arith)

fruitless-waits :
    (c : ReserveConfig) (balance : Option ℕ) (now depth t0 : ℕ) (s : LoopState)
    → s.last_sweep_moved ≡ false
    → s.last_harvest_at ≡ some t0
    → now < t0 + c.harvest_interval_ms
    → (tick c balance now depth s).1 ≡ true
    → is_true (tick c balance now depth s).0.refilling ≡ true
unfolding tick should_start_step should_harvest
fruitless-waits c balance now depth t0 s m h lt go = ground arith

launched-stamped :
    (c : ReserveConfig) (balance : Option ℕ) (now depth : ℕ) (s : LoopState)
    → (tick c balance now depth s).1 ≡ true
    → (tick c balance now depth s).0.harvesting ≡ true
    → (tick c balance now depth s).0.last_harvest_at ≡ some now
unfolding tick
launched-stamped c balance now depth s go h = ground arith

-- The harvest is bounded: when the sweep of a harvest moved nothing, then within an interval of
-- its tick only a refill starts a step.
pub fruitless_harvest_waits :
    (c : ReserveConfig) (balance later : Option ℕ) (now soon depth d : ℕ) (s t : LoopState)
    → (tick c balance now depth s).1 ≡ true
    → (tick c balance now depth s).0.harvesting ≡ true
    → IsFruitless (tick c balance now depth s).0 t
    → soon < now + c.harvest_interval_ms
    → (tick c later soon d t).1 ≡ true
    → is_true (tick c later soon d t).0.refilling ≡ true
fruitless_harvest_waits c balance later now soon depth d s t go h f lt again =
    fruitless-waits c later soon d now t (fruitless-keeps _ t f).0
      ((fruitless-keeps _ t f).1 ∙ launched-stamped c balance now depth s go h) lt again
