-- ===== src/RateLimit/Quota.antt =====
-- The quota of one window, and the wait that a denied caller is told.
use native.Mathlib.Decide.{dec_le}
use zcash_faucet.Base.{
  ℕ, ◌+◌, ◌-◌, ◌≤◌, ◌<◌, ◌≡◌, refl, inl, inr, true, false, not, ◌&&◌, String, str_eq, eq_refl,
  eq_iff, some, List, [], ◌∷◌, arith, ltb, leb, min, if◌then◌else◌, one_if, Option-cases,
  Bool-cases, All,
}
use zcash_faucet.Base.Map.{
  lookup, is_some, lookup-insert, lookup-keep_values, lookup-keep_values_gone,
}
use zcash_faucet.RateLimit.{RateLimiter, rolled_over, sweep, swept, check_swept, check}
use zcash_faucet.RateLimit.Bound.{IsValid, opened, check-IsValid}

-- The key's window is open at `at`, with this start and count.
abbrev pub IsOpen : RateLimiter → String → ℕ → ℕ → ℕ → Type 0
IsOpen l key at s c = (lookup key l.windows ≡ some (opened s c)) × (at < s + l.window_seconds)

pub sweep-lookup :
    (l : RateLimiter) (key : String) (at s c : ℕ)
    → IsOpen l key at s c
    → lookup key (sweep l at).windows ≡ some (opened s c)
unfolding sweep
sweep-lookup l key at s c (e, h) =
    lookup-keep_values key (λ w. not (rolled_over l.window_seconds at w)) (opened s c) l.windows e
      (ground arith)

pub sweep-same :
    (l : RateLimiter) (at : ℕ)
    → ((sweep l at).window_seconds ≡ l.window_seconds) × ((sweep l at).max_count ≡ l.max_count)
unfolding sweep
sweep-same l at = (refl, refl)

-- What a check answers, and what it leaves of the window of any key.
check_swept-open :
    (l : RateLimiter) (key : String) (at s c : ℕ)
    → IsOpen l key at s c
    → ((check_swept l key at).1.allowed ≡ ltb c l.max_count)
      × (lookup key (check_swept l key at).0.windows
          ≡ some (opened s (if ltb c l.max_count then c + 1 else c)))
      × ((check_swept l key at).0.window_seconds ≡ l.window_seconds)
      × ((check_swept l key at).0.max_count ≡ l.max_count)
unfolding check_swept
check_swept-open l key at s c (e, h) =
    ground (arith, eq_refl key, lookup-insert key key (opened s (c + 1)) l.windows)

check-open :
    (l : RateLimiter) (key : String) (at s c : ℕ)
    → IsOpen l key at s c
    → ((check l key at).1.allowed ≡ ltb c l.max_count)
      × (lookup key (check l key at).0.windows
          ≡ some (opened s (if ltb c l.max_count then c + 1 else c)))
      × ((check l key at).0.window_seconds ≡ l.window_seconds)
      × ((check l key at).0.max_count ≡ l.max_count)
unfolding check
check-open l key at s c o = ground (
  arith,
  check_swept-open l key at s c o,
  check_swept-open (sweep l at) key at s c
      (sweep-lookup l key at s c o, rw ((sweep-same l at).0) o.1),
  sweep-same l at,
)

-- Another key's check leaves the window of this key.
check_swept-other :
    (l : RateLimiter) (key other : String) (at s c : ℕ)
    → lookup key l.windows ≡ some (opened s c)
    → str_eq other key ≡ false
    → (lookup key (check_swept l other at).0.windows ≡ some (opened s c))
      × ((check_swept l other at).0.window_seconds ≡ l.window_seconds)
      × ((check_swept l other at).0.max_count ≡ l.max_count)
unfolding check_swept
check_swept-other l key other at s c e ne = elim (Option-cases (lookup other l.windows)) [
  | inl none_there ↦ ground (arith, lookup-insert other key (opened at 1) l.windows)
  | inr (w, there) ↦ ground (
    arith,
    lookup-insert other key (opened at 1) l.windows,
    lookup-insert other key (opened w.started_at (w.count + 1)) l.windows,
  )
]

check-other :
    (l : RateLimiter) (key other : String) (at s c : ℕ)
    → IsOpen l key at s c
    → str_eq other key ≡ false
    → (lookup key (check l other at).0.windows ≡ some (opened s c))
      × ((check l other at).0.window_seconds ≡ l.window_seconds)
      × ((check l other at).0.max_count ≡ l.max_count)
unfolding check
check-other l key other at s c o ne = ground (
  arith,
  check_swept-other l key other at s c o.0 ne,
  check_swept-other (sweep l at) key other at s c (sweep-lookup l key at s c o) ne,
  sweep-same l at,
)

-- The checks of a key among the calls, and those of them that are allowed.
abbrev pub asked_for : String → List (String × ℕ) → ℕ
asked_for key [] = 0
asked_for key ((k, at) ∷ calls) = one_if (str_eq k key) + asked_for key calls

pub allowed_for : String → RateLimiter → List (String × ℕ) → ℕ
allowed_for key l [] = 0
allowed_for key l ((k, at) ∷ calls) =
    one_if (str_eq k key && (check l k at).1.allowed) + allowed_for key (check l k at).0 calls

-- While a key's window is open, and whatever other keys are checked between, exactly the checks
-- of the key that its quota has left are allowed: the first ones, until the count is at the limit.
pub allowed_for-open :
    (l : RateLimiter) (key : String) (s c : ℕ) (calls : List (String × ℕ))
    → lookup key l.windows ≡ some (opened s c)
    → All (λ call. call.1 < s + l.window_seconds) calls
    → allowed_for key l calls ≡ min (asked_for key calls) (l.max_count - c)
unfolding allowed_for
allowed_for-open l key s c [] e h = omega arith
allowed_for-open l key s c ((k, at) ∷ calls) e (h, hs) = elim (Bool-cases (str_eq k key)) [
  | inl same ↦
      let here : k ≡ key = (eq_iff k key).0 same in
      rw here (
        ground (
          arith,
          eq_refl key,
          check-open l key at s c (e, h),
          allowed_for-open (check l key at).0 key s (if ltb c l.max_count then c + 1 else c) calls
              (check-open l key at s c (e, h)).1 (rw ((check-open l key at s c (e, h)).2) hs),
        ))
  | inr other ↦ ground (
    arith,
    check-other l key k at s c (e, h) other,
    allowed_for-open (check l k at).0 key s c calls (check-other l key k at s c (e, h) other).0
        (rw ((check-other l key k at s c (e, h) other).1) hs),
  )
]

check_swept-rolled :
    (l : RateLimiter) (key : String) (u s c : ℕ)
    → lookup key l.windows ≡ some (opened s c)
    → s + l.window_seconds ≤ u
    → (check_swept l key u).1.allowed ≡ true
unfolding check_swept
check_swept-rolled l key u s c e h = ground arith

check_swept-unknown :
    (l : RateLimiter) (key : String) (u : ℕ)
    → is_some (lookup key l.windows) ≡ false
    → (check_swept l key u).1.allowed ≡ true
unfolding check_swept
check_swept-unknown l key u e = ground arith

pub sweep-gone :
    (l : RateLimiter) (key : String) (u s c : ℕ)
    → IsValid l
    → lookup key l.windows ≡ some (opened s c)
    → s + l.window_seconds ≤ u
    → is_some (lookup key (sweep l u).windows) ≡ false
unfolding sweep
sweep-gone l key u s c v e h =
    lookup-keep_values_gone key (λ w. not (rolled_over l.window_seconds u w)) (opened s c) l.windows
      v.distinct e (ground arith)

check-rolled :
    (l : RateLimiter) (key : String) (u s c : ℕ)
    → IsValid l
    → lookup key l.windows ≡ some (opened s c)
    → s + l.window_seconds ≤ u
    → (check l key u).1.allowed ≡ true
unfolding check
check-rolled l key u s c v e h = ground (
  arith,
  check_swept-rolled l key u s c e h,
  check_swept-unknown (sweep l u) key u (sweep-gone l key u s c v e h),
)

-- A denied check found a full window, and left the table as it found it.
record Denied (l : RateLimiter) (key : String) (at : ℕ) (wait : ℕ) : Type 0 where
  start : ℕ
  count : ℕ
  held : lookup key l.windows ≡ some (opened start count)
  full : l.max_count ≤ count
  runs : at < start + l.window_seconds
  told : wait ≡ start + l.window_seconds - at

check_swept-Denied :
    (l : RateLimiter) (key : String) (at : ℕ)
    → (check_swept l key at).1.allowed ≡ false
    → Denied (check_swept l key at).0 key at (check_swept l key at).1.retry_after_seconds
unfolding check_swept
check_swept-Denied l key at d = elim (Option-cases (lookup key l.windows)) [
  | inl e ↦ absurd (ground arith)
  | inr (w, e) ↦ record {
    start = w.started_at;
    count = w.count;
    held = ground arith;
    full = ground arith;
    runs = ground arith;
    told = ground arith;
  }
]

check-Denied :
    (l : RateLimiter) (key : String) (at : ℕ)
    → (check l key at).1.allowed ≡ false
    → Denied (check l key at).0 key at (check l key at).1.retry_after_seconds
unfolding check
check-Denied l key at d = check_swept-Denied (swept l at) key at d

-- The wait that a denied caller is told is exact: with no other check between, the key is allowed
-- at `at + wait` and after, and denied before.
pub check_retry_exact :
    (l : RateLimiter) (key : String) (at u : ℕ)
    → IsValid l
    → at ≤ u
    → (check l key at).1.allowed ≡ false
    → (check (check l key at).0 key u).1.allowed
      ≡ leb (at + (check l key at).1.retry_after_seconds) u
check_retry_exact l key at u v le d = after (check-Denied l key at d)
  where
    l' : RateLimiter
    l' = (check l key at).0

    after :
        Denied l' key at (check l key at).1.retry_after_seconds
        → (check l' key u).1.allowed ≡ leb (at + (check l key at).1.retry_after_seconds) u
    after x = elim (dec_le (x.start + l'.window_seconds) u) [
      | yes over ↦ ground (
        arith,
        x.told,
        x.runs,
        check-rolled l' key u x.start x.count (check-IsValid l key at v) x.held over,
      )
      | no early ↦
          ground (
            arith,
            x.told,
            x.runs,
            x.full,
            check-open l' key u x.start x.count (x.held, omega arith),
          )
    ]
