-- ===== src/Reserve/Decide.antt =====
-- src/lib/reserve/decide.ts and select.ts: the rules, as pure functions of what a tick has read.
pub mod Hysteresis
pub mod Harvest
use zcash_faucet.Base.{
  ℕ, Bool, true, false, not, ◌&&◌, ◌||◌, String, str_eq, Option, none, some, ltb, leb, ◌==◌,
  if◌then◌else◌,
}

pub record ReserveLevels : Type 0 where
  pub low_zat : ℕ
  pub target_zat : ℕ

abbrev decide_known : Bool → ℕ → ReserveLevels → Bool
decide_known refilling spendable levels =
    if ltb spendable levels.low_zat
    then true
    else if leb levels.target_zat spendable
    then false
    else refilling

unfoldable pub decide_refilling : Bool → Option ℕ → ReserveLevels → Bool
decide_refilling refilling none levels = refilling
decide_refilling refilling (some spendable) levels = decide_known refilling spendable levels

-- `null` is undecided.
unfoldable pub initial_refilling : Option ℕ → ReserveLevels → Option Bool
initial_refilling none levels = none
initial_refilling (some spendable) levels = some (ltb spendable levels.target_zat)

pub record StepQuery : Type 0 where
  pub refilling : Bool
  pub harvesting : Bool
  pub can_act : Bool
  pub step_in_flight : Bool
  pub queue_depth : ℕ

unfoldable pub should_start_step : StepQuery → Bool
should_start_step q =
    (((q.refilling || q.harvesting) && q.can_act) && not q.step_in_flight) && (q.queue_depth == 0)

pub record HarvestQuery : Type 0 where
  pub spendable_known : Bool
  pub known_remaining_utxos : Option ℕ
  pub min_utxos : ℕ
  pub last_sweep_moved : Bool
  pub ms_since_last_harvest : Option ℕ
  pub interval_ms : ℕ

abbrev pub at_least : ℕ → Option ℕ → Bool
at_least n none = false
at_least n (some m) = leb n m

abbrev pub never_or_past : ℕ → Option ℕ → Bool
never_or_past interval none = true
never_or_past interval (some ms) = leb interval ms

unfoldable pub should_harvest : HarvestQuery → Bool
should_harvest q =
    if q.interval_ms == 0
    then false
    else if not q.spendable_known
    then false
    else if q.last_sweep_moved && at_least q.min_utxos q.known_remaining_utxos
    then true
    else never_or_past q.interval_ms q.ms_since_last_harvest

pub data SweepVerdict : Type 0 where
  refused moved nothing_visible present_but_unspendable count_not_reported : SweepVerdict

abbrev classify_count : Option ℕ → SweepVerdict
classify_count none = count_not_reported
classify_count (some n) = if ltb 0 n then present_but_unspendable else nothing_visible

-- Whether the outcome has a refusal, whether it moved, and the count that it reported.
unfoldable pub classify_sweep : Bool → Bool → Option ℕ → SweepVerdict
classify_sweep refusal has_moved remaining =
    if refusal then refused else if has_moved then moved else classify_count remaining

pub data RefillerKind : Type 0 where
  noop zallet : RefillerKind

pub select_refiller_kind : Bool → String → RefillerKind
select_refiller_kind shield_coinbase sender =
    if not shield_coinbase then noop else if str_eq sender "zallet" then zallet else noop
