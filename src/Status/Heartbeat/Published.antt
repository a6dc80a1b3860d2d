-- ===== src/Status/Heartbeat/Published.antt =====
-- What is published of the miner's heartbeat.
use zcash_faucet.Base.{ℕ, ◌≡◌, refl, inl, inr, String, Option, none, some, Bool-cases}
use zcash_faucet.Status.Heartbeat.{
  Heartbeat, age_at, is_one, judged, positive_number, public_miner_view, reading_for,
}

-- The heartbeat with other facts for the operator alone.
abbrev pub with_operator : Heartbeat → Option String → Option ℕ → Option ℕ → Heartbeat
with_operator h reason count at = record h {
  last_reject_reason = reason;
  abandoned_count = count;
  last_abandoned_at = at;
}

judged-public :
    (a b c : Option ℕ) (h : Heartbeat) (now : ℕ) (reason : Option String) (count at : Option ℕ)
    → (judged a b c (with_operator h reason count at) now).rest ≡ (judged a b c h now).rest
judged-public none b c h now reason count at = refl
judged-public (some a) none c h now reason count at = refl
judged-public (some a) (some b) none h now reason count at = refl
judged-public (some a) (some b) (some c) h now reason count at = refl

-- What is published does not depend on why a block was refused, nor on the solves that were
-- dropped: heartbeats that differ in these alone have one public view, at any time.
pub public_miner_view-withholds :
    (h : Heartbeat) (now : ℕ) (reason : Option String) (count at : Option ℕ)
    → public_miner_view (reading_for (some (with_operator h reason count at)) now)
      ≡ public_miner_view (reading_for (some h) now)
unfolding public_miner_view reading_for
public_miner_view-withholds h now reason count at = elim (Bool-cases (is_one h.schema)) [
  | inl e ↦ rw e (
      judged-public (positive_number h.stale_after_seconds)
        (positive_number h.template_stale_after_seconds) (age_at h.written_at now) h now reason
        count at)
  | inr e ↦ rw e refl
]
