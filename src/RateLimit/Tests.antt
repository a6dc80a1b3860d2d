-- ===== src/RateLimit/Tests.antt =====
-- Checks of the limiter at concrete inputs.
use zcash_faucet.Base.{ℕ, ◌≡◌, refl, String, List, [], ◌∷◌, arith}
use zcash_faucet.RateLimit.{RateLimiter}
use zcash_faucet.RateLimit.Bound.{IsValid, opened}
use zcash_faucet.Base.Map.{lookup}
use zcash_faucet.RateLimit.Refines.{verdicts-refine}
use zcash_faucet.RateLimit.Spec.{verdicts, spec_verdicts}

-- One client at its limit of two, one below it.
abbrev busy : RateLimiter
busy = record {
  window_seconds = 60;
  max_count = 2;
  windows = ("a", opened 100 2) ∷ ("b", opened 110 1) ∷ [];
  next_sweep = 160;
}

busy-IsValid : IsValid busy
busy-IsValid = record {
  bounded = omega arith;
  distinct = (refl, (refl, tt));
  some_allowed = omega arith;
}

abbrev calls : List (String × ℕ)
calls = ("b", 120) ∷ ("a", 121) ∷ ("b", 130) ∷ []

-- The sweep at 165 forgets the window of "a".
abbrev over_a_minute : List (String × ℕ)
over_a_minute = ("a", 120) ∷ ("b", 165) ∷ ("a", 166) ∷ []

verdicts-refine_example :
    verdicts over_a_minute busy ≡ spec_verdicts 60 2 over_a_minute (λ k. lookup k busy.windows)
verdicts-refine_example =
    verdicts-refine over_a_minute busy 110 busy-IsValid (omega arith) (omega arith)
