-- ===== src/Status/Box.antt =====
-- src/lib/boxIntegrity.ts: does the box have installed what the repository says it must? Times are
-- milliseconds; the reasons, which are sentences, are left out.
use zcash_faucet.Base.{
  ℕ, ◌+◌, ◌-◌, ◌/◌, ◌≤◌, ◌≡◌, ◌↔◌, refl, sym, subst, Bool, true, false, ◌||◌, inl, inr, Option,
  none, some, leb, ltb, ◌==◌, if◌then◌else◌, arith, Bool-cases,
}

-- How an audit ended, and what it found and could not check.
pub record DriftAuditCounts : Type 0 where
  pub rc : ℕ
  pub findings : ℕ
  pub unverified : ℕ

pub record DriftReport : Type 0 where
  pub config : DriftAuditCounts
  pub access : DriftAuditCounts
  pub at : ℕ

pub data DriftState : Type 0 where
  clean drift incomplete_audit stale unknown_drift : DriftState

pub record DriftStatus : Type 0 where
  pub state : DriftState
  pub findings : Option ℕ
  pub unverified : Option ℕ
  pub age_seconds : Option ℕ

-- `drift`: a field that the report predates, null, or a report.
pub data DriftField : Type 0 where
  predates unpublished : DriftField
  published : DriftReport → DriftField

abbrev pub drift_findings : DriftReport → ℕ
drift_findings d = d.config.findings + d.access.findings

abbrev pub drift_unverified : DriftReport → ℕ
drift_unverified d = d.config.unverified + d.access.unverified

abbrev pub stale_after_ms : ℕ
stale_after_ms = 1_800_000

abbrev pub drift_stale_after_ms : ℕ
drift_stale_after_ms = 5_400_000

abbrev drift_state : DriftReport → ℕ → DriftState
drift_state d now =
    if ltb drift_stale_after_ms (now - d.at)
    then stale
    else if leb 3 d.config.rc || leb 3 d.access.rc
    then incomplete_audit
    else if (d.config.rc == 1 || d.access.rc == 1) || ltb 0 (drift_findings d)
    then drift
    else if ltb 0 (drift_unverified d) || (d.config.rc == 2 || d.access.rc == 2)
    then incomplete_audit
    else clean

-- `classifyDrift`.
unfoldable pub classify_drift : DriftField → ℕ → DriftStatus
classify_drift (published d) now = record {
  state = drift_state d now;
  findings = some (drift_findings d);
  unverified = some (drift_unverified d);
  age_seconds = some ((now - d.at + 500) / 1000);
}
classify_drift _ now = record {
  state = unknown_drift;
  findings = none;
  unverified = none;
  age_seconds = none;
}

-- The fields of a report that its class rests on; those that are only passed on are left out.
pub record IntegrityReport : Type 0 where
  pub expected : ℕ
  pub present : ℕ
  pub not_enabled : ℕ
  pub at : Option ℕ
  pub readable : Bool
  pub drift_field : DriftField

pub data IntegrityState : Type 0 where
  complete incomplete unknown : IntegrityState

pub record IntegrityStatus : Type 0 where
  pub state : IntegrityState
  pub expected : Option ℕ
  pub present : Option ℕ
  pub missing : Option ℕ
  pub not_enabled : Option ℕ
  pub age_seconds : Option ℕ
  pub drift : DriftStatus

abbrev pub report_drift : Option IntegrityReport → DriftField
report_drift none = predates
report_drift (some r) = r.drift_field

abbrev unknown_status : Option ℕ → DriftStatus → IntegrityStatus
unknown_status age d = record {
  state = unknown;
  expected = none;
  present = none;
  missing = none;
  not_enabled = none;
  age_seconds = age;
  drift = d;
}

abbrev counted_status : IntegrityReport → ℕ → DriftStatus → IntegrityStatus
counted_status r age d = record {
  state = if ltb 0 (r.expected - r.present) || ltb 0 r.not_enabled then incomplete else complete;
  expected = some (r.expected);
  present = some (r.present);
  missing = some (r.expected - r.present);
  not_enabled = some (r.not_enabled);
  age_seconds = some age;
  drift = d;
}

abbrev dated_status : IntegrityReport → Option ℕ → DriftStatus → ℕ → IntegrityStatus
dated_status r none d now = unknown_status none d
dated_status r (some at) d now =
    if ltb stale_after_ms (now - at)
    then unknown_status (some ((now - at + 500) / 1000)) d
    else counted_status r ((now - at + 500) / 1000) d

-- `classifyIntegrity`.
unfoldable pub classify_integrity : Option IntegrityReport → ℕ → IntegrityStatus
unfolding classify_drift
classify_integrity none now = unknown_status none (classify_drift predates now)
classify_integrity (some r) now =
    let d = classify_drift r.drift_field now in
    if r.readable then dated_status r r.at d now else unknown_status none d

unfoldable pub is_integrity_failing : IntegrityStatus → Bool
is_integrity_failing s = elim s.state [ complete ↦ false | incomplete ↦ true | unknown ↦ true ]

-- The audits ran, found nothing, checked everything, and their report is not too old.
abbrev pub IsClean : DriftReport → ℕ → Type 0
IsClean d now =
    (d.config.rc ≡ 0)
    × (d.access.rc ≡ 0)
    × (drift_findings d ≡ 0)
    × (drift_unverified d ≡ 0)
    × (now ≤ d.at + drift_stale_after_ms)

clean_state : (d : DriftReport) (now : ℕ) → drift_state d now ≡ clean → IsClean d now
clean_state d now e = elim (Bool-cases (ltb drift_stale_after_ms (now - d.at))) [
  | inl old ↦ absurd (ground arith)
  | inr fresh ↦ ground arith
]

abbrev pub PassesDrift : DriftField → ℕ → Type 0
PassesDrift (published d) now = IsClean d now
PassesDrift _ now = ⊥

-- The drift verdict is clean only on a published report whose two audits both exited 0 with no
-- finding and nothing unverified, and which is at most 90 minutes old; a count that disagrees with
-- an exit code is never clean.
pub classify_drift-clean :
    (f : DriftField) (now : ℕ) → (classify_drift f now).state ≡ clean → PassesDrift f now
unfolding classify_drift
classify_drift-clean predates now e = cc
classify_drift-clean unpublished now e = cc
classify_drift-clean (published d) now e = clean_state d now e

abbrev pub IsRecent : Option ℕ → ℕ → Type 0
IsRecent none now = ⊥
IsRecent (some at) now = now ≤ at + stale_after_ms

-- A report of the present that says that everything is there and enabled.
abbrev pub PassesGate : Option IntegrityReport → ℕ → Type 0
PassesGate none now = ⊥
PassesGate (some r) now =
    (r.readable ≡ true) × (r.expected ≤ r.present) × (r.not_enabled ≡ 0) × IsRecent r.at now

counted_iff :
    (r : IntegrityReport) (at : Option ℕ) (d : DriftStatus) (now : ℕ)
    → (is_integrity_failing (dated_status r at d now) ≡ false)
      ↔ ((r.expected ≤ r.present) × (r.not_enabled ≡ 0) × IsRecent at now)
unfolding is_integrity_failing
counted_iff r none d now = (λ e. absurd (ground arith), λ h. absurd h.2)
counted_iff r (some at) d now = elim (Bool-cases (ltb stale_after_ms (now - at))) [
  | inl old ↦ rw old (λ e. absurd (ground arith), λ h. absurd (ground arith))
  | inr fresh ↦ rw fresh (λ e. ground arith, λ h. ground arith)
]

-- The gate on the box passes at a time exactly when there is a readable report, stamped at most 30
-- minutes before, with every expected file present and every unit enabled: silence never passes.
pub is_integrity_failing_iff :
    (r : Option IntegrityReport) (now : ℕ)
    → (is_integrity_failing (classify_integrity r now) ≡ false) ↔ PassesGate r now
unfolding classify_integrity is_integrity_failing
is_integrity_failing_iff none now = (λ e. cc, λ h. absurd h)
is_integrity_failing_iff (some r) now = elim (Bool-cases r.readable) [
  | inr unreadable ↦ rw unreadable (λ e. cc, λ h. cc)
  | inl readable ↦
      let d = classify_drift r.drift_field now in
      let iff = counted_iff r r.at d now in
      subst
        (λ (b : Bool).
          (is_integrity_failing (if b then dated_status r r.at d now else unknown_status none d)
            ≡ false)
          ↔ ((b ≡ true) × (r.expected ≤ r.present) × (r.not_enabled ≡ 0) × IsRecent r.at now))
        (sym readable) (λ e. let i = iff.0 e in (refl, i.0, i.1, i.2), λ h. iff.1 (h.1, h.2, h.3))
]
