-- ===== src/Status/Heartbeat.antt =====
-- src/lib/miner/heartbeat.ts: what the miner is doing, from the file that it writes. The fields of
-- the parsed JSON come by their types, none for a field that is absent or of another type, with the
-- stamps as milliseconds; ages are kept in milliseconds and limits in whole seconds.
pub mod Active
pub mod Published
use zcash_faucet.Base.{
  ℕ, ◌+◌, ◌-◌, ◌*◌, ◌≤◌, ◌≡◌, refl, Bool, true, false, inl, inr, String, Option, none, some, ltb,
  ◌==◌, if◌then◌else◌, str_eq, arith, Bool-cases, Option-cases,
}

pub data MinerState : Type 0 where
  running waiting stalled not_writing cannot_verify not_configured : MinerState

pub data Mode : Type 0 where
  submit proposal : Mode

pub record Heartbeat : Type 0 where
  pub schema : Option ℕ
  pub written_at : Option ℕ
  pub stale_after_seconds : Option ℕ
  pub template_stale_after_seconds : Option ℕ
  pub mode : Option Mode
  pub last_template_at : Option ℕ
  pub last_template_height : Option ℕ
  pub last_error_stage : Option String
  pub consecutive_errors : Option ℕ
  pub solved_count : Option ℕ
  pub submitted_accepted : Option ℕ
  pub submitted_rejected : Option ℕ
  pub last_solved_at : Option ℕ
  pub node_lag : Option ℕ
  pub waiting_since : Option ℕ
  pub waiting_reason : Option String
  pub last_reject_reason : Option String
  pub abandoned_count : Option ℕ
  pub last_abandoned_at : Option ℕ

pub record MinerOperatorReading : Type 0 where
  pub last_reject_reason : Option String
  pub abandoned_count : Option ℕ
  pub abandoned_ago : Option ℕ

-- The half of a reading that may be published.
pub record PublicReading : Type 0 where
  pub state : MinerState
  pub beat_ago : Option ℕ
  pub template_ago : Option ℕ
  pub last_template_height : Option ℕ
  pub mode : Option Mode
  pub last_error_stage : Option String
  pub consecutive_errors : Option ℕ
  pub solved_count : Option ℕ
  pub submitted_accepted : Option ℕ
  pub submitted_rejected : Option ℕ
  pub solved_ago : Option ℕ
  pub node_lag : Option ℕ
  pub waiting_ago : Option ℕ
  pub waiting_reason : Option String

-- `MinerReading`: the public half and `operator`.
pub record MinerReading : Type 0 where
  pub rest : PublicReading
  pub operator : MinerOperatorReading

unfoldable pub public_miner_view : MinerReading → PublicReading
public_miner_view r = r.rest

-- `{ state, ...NOTHING }`.
abbrev pub nothing_known : MinerState → MinerReading
nothing_known state = record {
  rest = record {
    state = state;
    beat_ago = none;
    template_ago = none;
    last_template_height = none;
    mode = none;
    last_error_stage = none;
    consecutive_errors = none;
    solved_count = none;
    submitted_accepted = none;
    submitted_rejected = none;
    solved_ago = none;
    node_lag = none;
    waiting_ago = none;
    waiting_reason = none;
  };
  operator = record { last_reject_reason = none; abandoned_count = none; abandoned_ago = none };
}

-- `ageSeconds`: a stamp ahead of now is not one.
abbrev pub age_at : Option ℕ → ℕ → Option ℕ
age_at none now = none
age_at (some t) now = if ltb now t then none else some (now - t)

abbrev pub positive_number : Option ℕ → Option ℕ
positive_number none = none
positive_number (some v) = if ltb 0 v then some v else none

abbrev pub nonempty : Option String → Option String
nonempty none = none
nonempty (some s) = if str_eq s "" then none else some s

abbrev pub older_than : ℕ → ℕ → Bool
older_than seconds age = ltb (1000 * seconds) age

abbrev pub honoured_wait : Option ℕ → Option ℕ → Bool
honoured_wait (some age) (some errors) = errors == 0
honoured_wait _ _ = false

abbrev pub template_stale : ℕ → Option ℕ → Bool
template_stale limit none = true
template_stale limit (some age) = older_than limit age

-- The state of a file that can be judged.
abbrev pub state_of : ℕ → ℕ → ℕ → Heartbeat → ℕ → MinerState
state_of stale_after template_stale_after beat_ago h now =
    if older_than stale_after beat_ago
    then not_writing
    else if honoured_wait (age_at h.waiting_since now) h.consecutive_errors
    then waiting
    else if template_stale template_stale_after (age_at h.last_template_at now)
    then stalled
    else running

abbrev pub facts_of : ℕ → ℕ → ℕ → Heartbeat → ℕ → MinerReading
facts_of stale_after template_stale_after beat_ago h now = record {
  rest = record {
    state = state_of stale_after template_stale_after beat_ago h now;
    beat_ago = some beat_ago;
    template_ago = age_at h.last_template_at now;
    last_template_height = h.last_template_height;
    mode = h.mode;
    last_error_stage = h.last_error_stage;
    consecutive_errors = h.consecutive_errors;
    solved_count = h.solved_count;
    submitted_accepted = h.submitted_accepted;
    submitted_rejected = h.submitted_rejected;
    solved_ago = age_at h.last_solved_at now;
    node_lag = h.node_lag;
    waiting_ago = age_at h.waiting_since now;
    waiting_reason = nonempty h.waiting_reason;
  };
  operator = record {
    last_reject_reason = nonempty h.last_reject_reason;
    abandoned_count = h.abandoned_count;
    abandoned_ago = age_at h.last_abandoned_at now;
  };
}

abbrev judged : Option ℕ → Option ℕ → Option ℕ → Heartbeat → ℕ → MinerReading
judged (some stale_after) (some template_stale_after) (some beat_ago) h now =
    facts_of stale_after template_stale_after beat_ago h now
judged _ _ _ h now = nothing_known cannot_verify

abbrev is_one : Option ℕ → Bool
is_one none = false
is_one (some n) = n == 1

-- `readingFor`.
unfoldable pub reading_for : Option Heartbeat → ℕ → MinerReading
reading_for none now = nothing_known cannot_verify
reading_for (some h) now =
    if is_one h.schema
    then judged (positive_number h.stale_after_seconds)
        (positive_number h.template_stale_after_seconds) (age_at h.written_at now) h now
    else nothing_known cannot_verify

unfoldable pub is_active : MinerState → Bool
is_active running = true
is_active _ = false
