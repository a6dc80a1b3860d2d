-- ===== src/RateLimit/Spec.antt =====
-- The limiter's abstract view: a window for each key, that nothing sweeps and that no table bounds.
use zcash_faucet.Base.{
  ℕ, ◌+◌, ◌-◌, max, true, false, String, Option, none, some, List, [], ◌∷◌, ltb, if◌then◌else◌,
  str_eq,
}
use zcash_faucet.RateLimit.{RateLimiter, RateLimitVerdict, Window, rolled_over, check}
use zcash_faucet.RateLimit.Bound.{opened}

-- The abstract state: the window of each key that was ever checked.
abbrev pub Windows : Type 0
Windows = String → Option Window

-- The window that counts at a time.
abbrev pub live : ℕ → ℕ → Option Window → Option Window
live window_seconds at none = none
live window_seconds at (some w) = if rolled_over window_seconds at w then none else some w

abbrev pub set_key : String → Window → Windows → Windows
set_key key w f = λ k. if str_eq key k then some w else f k

abbrev pub spec_live : ℕ → ℕ → String → ℕ → Windows → Option Window → Windows × RateLimitVerdict
spec_live window_seconds max_count key at f none =
    (set_key key (opened at 1) f, record { allowed = true; retry_after_seconds = 0 })
spec_live window_seconds max_count key at f (some w) =
    if ltb w.count max_count
    then (
      set_key key (opened w.started_at (w.count + 1)) f,
      record { allowed = true; retry_after_seconds = 0 },
    )
    else (
      f,
      record { allowed = false; retry_after_seconds = max 1 (w.started_at + window_seconds - at) },
    )

-- A check of the abstract limiter.
abbrev pub spec_check : ℕ → ℕ → String → ℕ → Windows → Windows × RateLimitVerdict
spec_check window_seconds max_count key at f =
    spec_live window_seconds max_count key at f (live window_seconds at (f key))

unfoldable pub verdicts : List (String × ℕ) → RateLimiter → List RateLimitVerdict
verdicts [] l = []
verdicts ((key, at) ∷ calls) l = (check l key at).1 ∷ verdicts calls (check l key at).0

unfoldable pub spec_verdicts : ℕ → ℕ → List (String × ℕ) → Windows → List RateLimitVerdict
spec_verdicts window_seconds max_count [] f = []
spec_verdicts window_seconds max_count ((key, at) ∷ calls) f =
    (spec_check window_seconds max_count key at f).1
    ∷ spec_verdicts window_seconds max_count calls (spec_check window_seconds max_count key at f).0
