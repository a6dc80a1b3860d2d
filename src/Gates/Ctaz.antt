-- ===== src/Gates/Ctaz.antt =====
-- src/lib/crosslink/recency.ts: is the Crosslink node current enough to hand out cTAZ?
-- A reply's field that is not a finite number is `none`; the numbers are natural numbers.
use zcash_faucet.Base.{
  ℕ, ◌+◌, ◌-◌, Bool, true, false, ◌&&◌, Option, none, some, ltb, ◌==◌, if◌then◌else◌,
}
use zcash_faucet.Base.Int.{ℤ, pos, sub_ℕ, lebℤ}

pub data CtazState : Type 0 where
  ready behind stale not_activated cannot_verify : CtazState

-- What is read of a reply; `finalizers` is the length of the array, if it is one.
pub record RecencyStatus : Type 0 where
  pub now_utc : Option ℕ
  pub my_height : Option ℕ
  pub my_round : Option ℕ
  pub my_locked_round : Option ℕ
  pub finalizers : Option ℕ

pub record CtazReading : Type 0 where
  pub state : CtazState
  pub height : Option ℕ
  pub round_lag : Option ℤ
  pub age_seconds : Option ℕ
  pub finalizers : Option ℕ

abbrev pub unverifiable_reading : CtazReading
unverifiable_reading = record {
  state = cannot_verify;
  height = none;
  round_lag = none;
  age_seconds = none;
  finalizers = none;
}

abbrev pub max_age_seconds : ℕ
max_age_seconds = 120

abbrev pub max_round_lag : ℕ
max_round_lag = 2

abbrev is_zero : Option ℕ → Bool
is_zero none = false
is_zero (some n) = n == 0

abbrev facts : ℕ → ℕ → ℕ → ℕ → Option ℕ → CtazState → CtazReading
facts age height round locked finalizers state = record {
  state = state;
  height = some height;
  round_lag = some (sub_ℕ round locked);
  age_seconds = some age;
  finalizers = finalizers;
}

abbrev classify : ℕ → ℕ → ℕ → ℕ → Option ℕ → CtazReading
classify age height round locked finalizers =
    if ltb max_age_seconds age
    then facts age height round locked finalizers stale
    else if ltb round locked
    then record unverifiable_reading {
      height = some height;
      age_seconds = some age;
      finalizers = finalizers;
    }
    else if ltb (locked + max_round_lag) round
    then facts age height round locked finalizers behind
    else if is_zero finalizers
    then facts age height round locked finalizers not_activated
    else facts age height round locked finalizers ready

-- The fields of a reply, all four readable.
abbrev read_fields : ℕ → Option ℕ → Option ℕ → Option ℕ → Option ℕ → Option ℕ → CtazReading
read_fields now (some utc) (some height) (some round) (some locked) finalizers =
    if ltb now utc
    then unverifiable_reading
    else classify (now - utc) height round locked finalizers
read_fields now _ _ _ _ _ = unverifiable_reading

-- `now` is `Math.floor(nowMs / 1000)`; `none` is a reply that is not an object.
unfoldable pub reading_for : Option RecencyStatus → ℕ → CtazReading
reading_for none now = unverifiable_reading
reading_for (some r) now =
    read_fields now r.now_utc r.my_height r.my_round r.my_locked_round r.finalizers

abbrev pub max_sync_lag_blocks : ℕ
max_sync_lag_blocks = 2

pub data Source : Type 0 where
  from_file from_rpc from_nowhere : Source

abbrev is_rpc : Source → Bool
is_rpc from_rpc = true
is_rpc _ = false

abbrev is_ready : CtazState → Bool
is_ready ready = true
is_ready _ = false

abbrev synced : Option ℕ → Option ℕ → Bool
synced (some blocks) (some tip) = lebℤ (sub_ℕ tip blocks) (pos max_sync_lag_blocks)
synced _ _ = false

unfoldable pub can_serve_ctaz : CtazState → Option ℕ → Option ℕ → Source → Bool
can_serve_ctaz state blocks tip source = (is_rpc source && is_ready state) && synced blocks tip
