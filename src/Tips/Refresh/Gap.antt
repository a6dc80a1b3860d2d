-- ===== src/Tips/Refresh/Gap.antt =====
-- How often the servers are dialled.
use zcash_faucet.Base.{ℕ, ◌+◌, ◌-◌, ◌*◌, ◌≤◌, List, [], ◌∷◌, one_if, arith}
use zcash_faucet.Tips.Refresh.{
  TipState, Event, time_of, refresh, kick_if_stale, get_external_tip_reading, finish_refresh, step,
}

unfoldable pub dials : List Event → TipState → ℕ
dials [] s = 0
dials (e ∷ es) s = one_if (step e s).1 + dials es (step e s).0

-- The events are in order of time, from `from` to `until`.
abbrev pub InOrder : ℕ → ℕ → List Event → Type 0
InOrder from until [] = from ≤ until
InOrder from until (e ∷ es) = (from ≤ time_of e) × InOrder (time_of e) until es

-- A dial is an attempt of its own, at least the gap after the last one.
step_gap :
    (e : Event) (s : TipState)
    → s.last_attempt_at ≤ time_of e
    → ((step e s).0.last_attempt_at ≤ time_of e)
      × (s.last_attempt_at + 1000 * one_if (step e s).1 ≤ (step e s).0.last_attempt_at)
unfolding step kick_if_stale get_external_tip_reading refresh finish_refresh
step_gap (Event.references_read now) s le = ground arith
step_gap (Event.tip_read now) s le = ground arith
step_gap (Event.warmed now) s le = ground arith
step_gap (Event.answered now both) s le = ground arith

-- Whatever is read and answered, in whatever order, the servers are dialled at most once a second.
pub dials-le :
    (s : TipState) (from until : ℕ) (es : List Event)
    → s.last_attempt_at ≤ from
    → InOrder from until es
    → 1000 * dials es s ≤ until - s.last_attempt_at
unfolding dials
dials-le s from until [] le order = omega arith
dials-le s from until (e ∷ es) le (here, order) = omega (
  arith,
  step_gap e s (omega arith),
  last_le until (time_of e) es order,
  dials-le (step e s).0 (time_of e) until es (step_gap e s (omega arith)).0 order,
)
  where
    last_le : (until from : ℕ) (es : List Event) → InOrder from until es → from ≤ until
    last_le until from [] o = o
    last_le until from (e ∷ es) (o, os) = omega (arith, last_le until (time_of e) es os)
