-- ===== src/RateLimit.antt =====
-- src/lib/rateLimit.ts: the fixed-window limiter of the read endpoints. Times are seconds; a
-- window that started at `s` has rolled over at `t` when `s + window <= t`.
pub mod Bound
pub mod Quota
pub mod Refines
pub mod Spec
mod Tests
use zcash_faucet.Base.{
  ℕ, ◌+◌, ◌-◌, max, Bool, true, false, not, ◌&&◌, ◌||◌, String, Option, none, some, List, [],
  length, ltb, leb, if◌then◌else◌,
}
use zcash_faucet.Base.Map.{lookup, insert, keep_values}

pub record RateLimitVerdict : Type 0 where
  pub allowed : Bool
  pub retry_after_seconds : ℕ

abbrev pub max_tracked_keys : ℕ
max_tracked_keys = 20_000

pub record Window : Type 0 where
  pub started_at : ℕ
  pub count : ℕ

pub record RateLimiter : Type 0 where
  pub window_seconds : ℕ
  pub max_count : ℕ
  pub windows : List (String × Window)
  pub next_sweep : ℕ

-- `createRateLimiter`; the options are whole numbers.
pub create_rate_limiter : ℕ → ℕ → ℕ → RateLimiter
create_rate_limiter window_seconds max_count now = record {
  window_seconds = max 1 window_seconds;
  max_count = max 1 max_count;
  windows = [];
  next_sweep = now + max 1 window_seconds;
}

abbrev pub rolled_over : ℕ → ℕ → Window → Bool
rolled_over window_seconds at w = leb (w.started_at + window_seconds) at

unfoldable pub sweep : RateLimiter → ℕ → RateLimiter
sweep l at = record l {
  windows = keep_values (λ w. not (rolled_over l.window_seconds at w)) l.windows;
  next_sweep = at + l.window_seconds;
}

abbrev allow : RateLimitVerdict
allow = record { allowed = true; retry_after_seconds = 0 }

abbrev set_window : RateLimiter → String → ℕ → ℕ → RateLimiter
set_window l key started_at count = record l {
  windows = insert key (record { started_at = started_at; count = count }) l.windows;
}

-- A new window for the key. An unknown key is not tracked while the table is full.
abbrev open_window : RateLimiter → String → ℕ → Option Window → RateLimiter × RateLimitVerdict
open_window l key at none =
    if leb max_tracked_keys (length l.windows) then (l, allow) else (set_window l key at 1, allow)
open_window l key at (some w) = (set_window l key at 1, allow)

abbrev hit_window : RateLimiter → String → ℕ → Window → RateLimiter × RateLimitVerdict
hit_window l key at w =
    if ltb w.count l.max_count then (set_window l key w.started_at (w.count + 1), allow) else (
      l,
      record {
        allowed = false;
        retry_after_seconds = max 1 (w.started_at + l.window_seconds - at);
      },
    )

-- `check` behind the sweep.
unfoldable pub check_swept : RateLimiter → String → ℕ → RateLimiter × RateLimitVerdict
check_swept l key at = elim (lookup key l.windows) [
  | none ↦ open_window l key at none
  | some w ↦
      if rolled_over l.window_seconds at w
      then open_window l key at (some w)
      else hit_window l key at w
]

-- `if (at >= nextSweep || windows.size > MAX_TRACKED_KEYS) sweep(at)`.
abbrev pub swept : RateLimiter → ℕ → RateLimiter
swept l at =
    if leb l.next_sweep at || ltb max_tracked_keys (length l.windows) then sweep l at else l

unfoldable pub check : RateLimiter → String → ℕ → RateLimiter × RateLimitVerdict
unfolding check_swept sweep
check l key at = check_swept (swept l at) key at
