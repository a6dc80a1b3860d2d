-- ===== src/Reserve/Decide/Harvest.antt =====
-- When a harvest is due.
use zcash_faucet.Base.{ℕ, ◌≤◌, ◌<◌, ◌≡◌, refl, ◌↔◌, ◌⊎◌, true, Option, none, some, arith}
use zcash_faucet.Reserve.Decide.{HarvestQuery, at_least, never_or_past, should_harvest}

abbrev pub IsAtLeast : ℕ → Option ℕ → Type 0
IsAtLeast n none = ⊥
IsAtLeast n (some m) = n ≤ m

abbrev pub IsPast : ℕ → Option ℕ → Type 0
IsPast interval none = Unit
IsPast interval (some ms) = interval ≤ ms

at_least_iff : (n : ℕ) (o : Option ℕ) → (at_least n o ≡ true) ↔ IsAtLeast n o
at_least_iff n none = (λ h. cc, λ h. absurd h)
at_least_iff n (some m) = ground arith

never_or_past_iff : (n : ℕ) (o : Option ℕ) → (never_or_past n o ≡ true) ↔ IsPast n o
never_or_past_iff n none = (λ h. tt, λ h. refl)
never_or_past_iff n (some m) = ground arith

-- A backlog that the last sweep moved, or no attempt within the interval.
abbrev pub IsDue : HarvestQuery → Type 0
IsDue q =
    ((q.last_sweep_moved ≡ true) × IsAtLeast q.min_utxos q.known_remaining_utxos)
    ⊎ IsPast q.interval_ms q.ms_since_last_harvest

-- A harvest is due exactly when harvesting is on, the balance was read, and there is a reported
-- backlog that the last sweep moved, or no attempt yet, or the last attempt is an interval ago.
pub should_harvest_iff :
    (q : HarvestQuery)
    → (should_harvest q ≡ true) ↔ ((0 < q.interval_ms) × (q.spendable_known ≡ true) × IsDue q)
unfolding should_harvest
should_harvest_iff q = (
  λ h. ground (
    arith,
    (at_least_iff q.min_utxos q.known_remaining_utxos).0,
    (never_or_past_iff q.interval_ms q.ms_since_last_harvest).0,
  ),
  λ h. ground (
    arith,
    (at_least_iff q.min_utxos q.known_remaining_utxos).1,
    (never_or_past_iff q.interval_ms q.ms_since_last_harvest).1,
  ),
)
