-- ===== src/RateLimit/Bound.antt =====
-- The limiter's memory is bounded, and its table holds one window to a key.
use zcash_faucet.Base.{ℕ, ◌+◌, ◌≤◌, inl, inr, not, String, arith, length, Option-cases}
use zcash_faucet.Base.Map.{
  lookup, length-insert, length-keep_values-le, HasDistinctKeys, keep_values-HasDistinctKeys,
  insert-HasDistinctKeys,
}
use zcash_faucet.RateLimit.{
  RateLimiter, Window, max_tracked_keys, rolled_over, sweep, check_swept, check,
}

abbrev pub opened : ℕ → ℕ → Window
opened started_at count = record { started_at = started_at; count = count }

pub record IsValid (l : RateLimiter) : Type 0 where
  pub bounded : length l.windows ≤ max_tracked_keys
  pub distinct : HasDistinctKeys l.windows
  pub some_allowed : 1 ≤ l.max_count

pub sweep-IsValid : (l : RateLimiter) (at : ℕ) → IsValid l → IsValid (sweep l at)
unfolding sweep
sweep-IsValid l at v = record {
  bounded = omega (
    arith,
    length-keep_values-le (λ (w : Window). not (rolled_over l.window_seconds at w)) l.windows,
    v.bounded,
  );
  distinct = keep_values-HasDistinctKeys _ l.windows v.distinct;
  some_allowed = v.some_allowed;
}

pub check_swept-IsValid :
    (l : RateLimiter) (key : String) (at : ℕ) → IsValid l → IsValid (check_swept l key at).0
unfolding check_swept
check_swept-IsValid l key at v = elim (Option-cases (lookup key l.windows)) [
  | inl e ↦ ground (
    arith,
    length-insert key (opened at 1) l.windows,
    insert-HasDistinctKeys key (opened at 1) l.windows v.distinct,
  )
  | inr (w, e) ↦ ground (
    arith,
    length-insert key (opened at 1) l.windows,
    insert-HasDistinctKeys key (opened at 1) l.windows v.distinct,
    length-insert key (opened w.started_at (w.count + 1)) l.windows,
    insert-HasDistinctKeys key (opened w.started_at (w.count + 1)) l.windows v.distinct,
  )
]

-- A new limiter is valid, and every check keeps it so: at most `max_tracked_keys` windows, one to
-- a key, and a quota of at least one.
pub check-IsValid :
    (l : RateLimiter) (key : String) (at : ℕ) → IsValid l → IsValid (check l key at).0
unfolding check
check-IsValid l key at v = ground (
  arith,
  check_swept-IsValid l key at v,
  check_swept-IsValid (sweep l at) key at (sweep-IsValid l at v),
)
