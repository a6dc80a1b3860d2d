-- ===== src/Pow/Tests.antt =====
-- Checks of the proof of work at concrete inputs.
use zcash_faucet.Base.{◌+◌, ◌≤◌, ◌≡◌, refl, min, true, false, none, [], arith}
use zcash_faucet.Base.Map.{insert}
use zcash_faucet.Pow.Budget.{
  expected_hashes, ttl_seconds_for, within_budget, walk, solvable_ceiling_bits,
}
use zcash_faucet.Pow.Gate.{
  PowConfig, Attempts, Solution, solvable_ceiling, difficulty_for, record_request,
}
use zcash_faucet.Pow.Solvable.{difficulty_for-within_budget}
use zcash_faucet.Pow.Escalation.{record_request-escalates}

abbrev config : PowConfig
config = record {
  base_bits = 20;
  max_bits = 26;
  escalate_bits = 2;
  ttl_seconds = 180;
  window_ms = 3_600_000;
}

abbrev no_attempts : Attempts
no_attempts = record { per_ip = []; per_subnet = []; global = [] }

abbrev solution : Solution
solution = record {
  seed = "s";
  difficulty = 20;
  exp = 1_180;
  sig = "sig";
  signature_ok = true;
  zero_bits = 21;
}

abbrev forged : Solution
forged = record solution { signature_ok = false }

-- A live setting: of 26 bits asked for, 23 can be solved in time.
ceiling_of_config : solvable_ceiling_bits 20 180 100_000 ≡ 23
unfolding solvable_ceiling_bits walk within_budget expected_hashes ttl_seconds_for
ceiling_of_config = refl

difficulty_for-within_budget_example :
    within_budget 20 180 100_000 (difficulty_for config no_attempts "ip" none 1_000_000) ≡ true
unfolding within_budget expected_hashes ttl_seconds_for
difficulty_for-within_budget_example =
    difficulty_for-within_budget config no_attempts "ip" none 1_000_000 refl

record_request-escalates_example :
    min
      (min 26 (solvable_ceiling config))
      (difficulty_for config no_attempts "ip" none 1_060_000 + 2)
    ≤ difficulty_for config
        (record_request config "ip" none 1_000_000 no_attempts)
        "ip"
        none
        1_060_000
unfolding insert
record_request-escalates_example =
    record_request-escalates config no_attempts "ip" 1_000_000 1_060_000 (omega arith) (omega arith)
      (omega arith) none
