-- ===== src/Status/Heartbeat/Active.antt =====
-- When the miner counts as active.
use zcash_faucet.Base.{
  ℕ, ◌+◌, ◌*◌, ◌≤◌, ◌≡◌, refl, true, false, inl, inr, Option, none, some, arith, Bool-cases,
  Option-cases,
}
use zcash_faucet.Status.Heartbeat.{
  Heartbeat, age_at, is_active, is_one, judged, older_than, positive_number, reading_for, state_of,
  template_stale,
}

-- A stamp that is not ahead of now, and not older than the limit, which is a positive number.
abbrev pub IsWithin : Option ℕ → Option ℕ → ℕ → Type 0
IsWithin (some t) (some seconds) now = (1 ≤ seconds) × (t ≤ now) × (now ≤ t + 1000 * seconds)
IsWithin _ _ now = ⊥

state_running :
    (a b c : ℕ) (h : Heartbeat) (now : ℕ)
    → is_active (state_of a b c h now) ≡ true
    → (older_than a c ≡ false) × (template_stale b (age_at h.last_template_at now) ≡ false)
unfolding is_active
state_running a b c h now e = elim (Bool-cases (older_than a c)) [
  | inl old ↦ absurd (ground arith)
  | inr fresh ↦ (fresh, ground arith)
]

stamp-IsWithin :
    (limit stamp : Option ℕ) (now l age : ℕ)
    → positive_number limit ≡ some l
    → age_at stamp now ≡ some age
    → older_than l age ≡ false
    → IsWithin stamp limit now
stamp-IsWithin none stamp now l age e f o = cc
stamp-IsWithin (some s) none now l age e f o = cc
stamp-IsWithin (some s) (some t) now l age e f o = ground arith

template-IsWithin :
    (limit stamp : Option ℕ) (now l : ℕ)
    → positive_number limit ≡ some l
    → template_stale l (age_at stamp now) ≡ false
    → IsWithin stamp limit now
template-IsWithin limit none now l e o = cc
template-IsWithin limit (some t) now l e o = elim (Option-cases (age_at (some t) now)) [
  | inl ahead ↦ absurd (ground arith)
  | inr (age, behind) ↦ stamp-IsWithin limit (some t) now l age e behind (ground arith)
]

judged_active :
    (a b c : Option ℕ) (h : Heartbeat) (now : ℕ)
    → positive_number h.stale_after_seconds ≡ a
    → positive_number h.template_stale_after_seconds ≡ b
    → age_at h.written_at now ≡ c
    → is_active (judged a b c h now).rest.state ≡ true
    → IsWithin h.written_at h.stale_after_seconds now
      × IsWithin h.last_template_at h.template_stale_after_seconds now
unfolding is_active
judged_active none b c h now ea eb ec e = cc
judged_active (some a) none c h now ea eb ec e = cc
judged_active (some a) (some b) none h now ea eb ec e = cc
judged_active (some a) (some b) (some c) h now ea eb ec e =
    let (fresh, fetched) = state_running a b c h now e in
    (
      stamp-IsWithin h.stale_after_seconds h.written_at now a c ea ec fresh,
      template-IsWithin h.template_stale_after_seconds h.last_template_at now b eb fetched,
    )

-- The miner counts as active only when its file and its last template are both there, both stamped
-- at or before now, and both within the positive limits that the file itself names: a broken
-- clock, a file without a template or a miner that only errors is never active.
pub reading_for-is_active :
    (h : Heartbeat) (now : ℕ)
    → is_active (reading_for (some h) now).rest.state ≡ true
    → IsWithin h.written_at h.stale_after_seconds now
      × IsWithin h.last_template_at h.template_stale_after_seconds now
unfolding reading_for is_active
reading_for-is_active h now e = elim (Bool-cases (is_one h.schema)) [
  | inl known ↦
      judged_active (positive_number h.stale_after_seconds)
        (positive_number h.template_stale_after_seconds) (age_at h.written_at now) h now refl refl
        refl (ground arith)
  | inr unknown ↦ absurd (ground arith)
]
