-- ===== src/SendHealth.antt =====
-- src/lib/zcash/sendHealth.ts: the verdict on the wallet from the outcomes of its recent sends.
-- Times are milliseconds. The log lists its records oldest first, as the array does.
pub mod Verdict
pub mod Log
pub mod Served
mod Tests
use zcash_faucet.Base.{
  ℕ, ◌+◌, ◌-◌, ◌*◌, ◌/◌, max, Bool, true, false, not, ◌&&◌, Option, none, some, List, [], ◌∷◌, ◌++◌,
  ltb, leb, ◌==◌, if◌then◌else◌, keep, count_if, map,
}
use zcash_faucet.Network.{Network, taz, default_network, networks, same_network}

pub data SendOutcome : Type 0 where
  ok failed unknown refused : SendOutcome

abbrev pub same_outcome : SendOutcome → SendOutcome → Bool
same_outcome ok ok = true
same_outcome failed failed = true
same_outcome unknown unknown = true
same_outcome refused refused = true
same_outcome _ _ = false

-- A record with no network predates the field; one with no `unanswered` reads as false.
pub record SendRecord : Type 0 where
  pub outcome : SendOutcome
  pub at : ℕ
  pub network : Option Network
  pub unanswered : Bool

abbrev pub min_sample : ℕ
min_sample = 3

abbrev pub fail_alone : ℕ
fail_alone = 2

unfoldable pub window_for : ℕ → ℕ
window_for send_task_deadline_ms =
    max (15 * 60_000) ((min_sample - 1) * send_task_deadline_ms + 60_000)

pub data SendHealthState : Type 0 where
  healthy degraded undecided : SendHealthState

-- The sentence, with the numbers that it quotes; the Boolean is whether it says "or went
-- unanswered". The last names a network that is not the primary one.
pub data Reason : Type 0 where
  never_resolved : ℕ → ℕ → Reason
  none_succeeded : ℕ → Bool → Reason
  too_few : ℕ → ℕ → Reason
  many_failed : ℕ → ℕ → Bool → Reason
  succeeded : ℕ → ℕ → Reason
  on_network : Network → Reason → Reason

pub record SendHealth : Type 0 where
  pub state : SendHealthState
  pub ok_count : ℕ
  pub failed_count : ℕ
  pub unknown_count : ℕ
  pub unanswered_count : ℕ
  pub refused_count : ℕ
  pub reason : Reason

-- `Math.round(windowMs / 60_000)`.
abbrev pub window_minutes : ℕ → ℕ
window_minutes window_ms = (2 * window_ms + 60_000) / 120_000

abbrev pub or_default : Option Network → Network
or_default none = default_network
or_default (some n) = n

-- The filter of `readSendHealth`.
abbrev pub is_live : ℕ → ℕ → Network → SendRecord → Bool
is_live window now n r = leb now (r.at + window) && same_network (or_default r.network) n

abbrev pub has_outcome : SendOutcome → SendRecord → Bool
has_outcome o r = same_outcome r.outcome o

abbrev pub is_unanswered : SendRecord → Bool
is_unanswered r = same_outcome r.outcome unknown && r.unanswered

-- The four counts of the live records that the verdict is made of.
pub record Tally : Type 0 where
  pub oks : ℕ
  pub fails : ℕ
  pub unknowns : ℕ
  pub lost : ℕ
  pub refusals : ℕ

unfoldable pub tally : List SendRecord → Tally
tally live = record {
  oks = count_if (has_outcome ok) live;
  fails = count_if (has_outcome failed) live;
  unknowns = count_if (has_outcome unknown) live;
  lost = count_if is_unanswered live;
  refusals = count_if (has_outcome refused) live;
}

abbrev pub failing : Tally → ℕ
failing t = t.fails + t.lost

abbrev pub held_back : Tally → ℕ
held_back t = t.unknowns - t.lost

abbrev answer : Tally → SendHealthState → Reason → SendHealth
answer t state reason = record {
  state = state;
  ok_count = t.oks;
  failed_count = t.fails;
  unknown_count = t.unknowns;
  unanswered_count = t.lost;
  refused_count = t.refusals;
  reason = reason;
}

-- The ladder of `readSendHealth` over the counts; `failing / decided >= 0.5` is on integers.
unfoldable pub judge : ℕ → Tally → SendHealth
judge window t =
    let decided = t.oks + failing t in
    let wording = ltb 0 t.lost in
    if ltb decided min_sample
    then if (t.oks == 0) && leb min_sample (held_back t + failing t)
      then answer t degraded (never_resolved t.unknowns (t.unknowns + t.fails))
      else if (t.oks == 0) && leb fail_alone (failing t)
      then answer t degraded (none_succeeded (failing t) wording)
      else answer t undecided (too_few decided (window_minutes window))
    else if leb decided (2 * failing t)
    then answer t degraded (many_failed (failing t) decided wording)
    else answer t healthy (succeeded t.oks decided)

unfoldable pub read_send_health : ℕ → ℕ → List SendRecord → Network → SendHealth
unfolding judge tally
read_send_health window now records n = judge window (tally (keep (is_live window now n) records))

-- `while (l.length && l[0].at < cut) l.shift()`.
unfoldable pub trim : ℕ → ℕ → List SendRecord → List SendRecord
trim window now [] = []
trim window now (r ∷ rs) =
    let rest = trim window now rs in if ltb (r.at + window) now then rest else r ∷ rs

unfoldable pub record_send :
    ℕ → SendOutcome → Network → ℕ → Bool → List SendRecord → List SendRecord
unfolding trim
record_send window outcome n now unanswered log =
    trim window now (
      log ++ record { outcome = outcome; at = now; network = some n; unanswered = unanswered } ∷ [])

pub served_networks : Bool → List Network
served_networks crosslink_enabled = if crosslink_enabled then networks else default_network ∷ []

unfoldable pub send_health_blocks_serving : SendHealth → Bool
send_health_blocks_serving h = elim h.state [ degraded ↦ true | _ ↦ false ]

abbrev pub is_degraded : SendHealth → Bool
is_degraded h = elim h.state [ degraded ↦ true | _ ↦ false ]

-- `each.find(e => e.h.state === "degraded")`.
pub first_bad : ℕ → ℕ → List SendRecord → List Network → Option Network
unfolding read_send_health
first_bad window now records [] = none
first_bad window now records (n ∷ ns) =
    let rest = first_bad window now records ns in
    if is_degraded (read_send_health window now records n) then some n else rest

abbrev pub named : Network → SendHealth → SendHealth
named n h =
    if same_network n default_network then h else record h { reason = on_network n h.reason }

-- `readSendHealthServed`, over the first network and the others.
pub read_send_health_served : ℕ → ℕ → List SendRecord → Network → List Network → SendHealth
unfolding first_bad
read_send_health_served window now records n ns = elim (first_bad window now records (n ∷ ns)) [
  | none ↦ read_send_health window now records n
  | some bad ↦ named bad (read_send_health window now records bad)
]
