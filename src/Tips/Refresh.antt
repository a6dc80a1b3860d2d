-- ===== src/Tips/Refresh.antt =====
-- src/lib/zcash/externalTip.ts: the process-wide cache of the tip and of its references, the
-- background refresh and its two guards. A fetch begins in one step and its answers arrive in a
-- later one, so that reads, kicks and answers come in any order.
pub mod Gap
pub mod Provenance
use zcash_faucet.Base.{
  ℕ, ◌+◌, ◌-◌, max, Bool, true, false, not, ◌&&◌, ◌||◌, String, Option, none, some, List, [], ◌∷◌,
  ltb, leb, ◌==◌, if◌then◌else◌,
}
use zcash_faucet.Tips.Fetch.{References}
use zcash_faucet.Tips.References.{
  ReferenceName, hosh, lightwalletd, Source, Sources, find_source, set_source, rate_anchor,
}

pub data TipSource : Type 0 where
  from_aggregate from_direct from_none : TipSource

pub record TipCache : Type 0 where
  pub height : Option ℕ
  pub at : ℕ
  pub source : TipSource
  pub host : Option String

pub record TipReading : Type 0 where
  pub height : Option ℕ
  pub source : TipSource
  pub host : Option String

-- What is kept on `globalThis`.
pub record TipState : Type 0 where
  pub cache : TipCache
  pub refreshing : Bool
  pub last_attempt_at : ℕ
  pub sources : Sources

abbrev pub stale_ms : ℕ
stale_ms = 30_000

abbrev pub max_age_ms : ℕ
max_age_ms = 300_000

abbrev pub min_attempt_gap_ms : ℕ
min_attempt_gap_ms = 1000

-- `resetExternalTipForTests`, and a process that has just started.
abbrev pub cold : TipState
cold = record {
  cache = record { height = none; at = 0; source = from_none; host = none };
  refreshing = false;
  last_attempt_at = 0;
  sources = [];
}

-- `readingFor`.
unfoldable pub reading_for : TipCache → ℕ → TipReading
reading_for c now =
    if (c.at == 0) || ltb max_age_ms (now - c.at)
    then record { height = none; source = from_none; host = none }
    else (elim c.height [
      | none ↦ record { height = none; source = from_none; host = none }
      | some h ↦ record { height = some h; source = c.source; host = c.host }
    ])

-- `refresh` up to its fetch: the state, and whether the servers are dialled.
unfoldable pub refresh : Bool → ℕ → TipState → TipState × Bool
refresh waive_gap now s =
    if s.refreshing
    then (s, false)
    else if not waive_gap && ltb now (s.last_attempt_at + min_attempt_gap_ms)
    then (s, false)
    else (record s { refreshing = true; last_attempt_at = now }, true)

abbrev pub note_source : ReferenceName → Option String → ℕ → ℕ → Sources → Sources
note_source name host now height sources =
    set_source name
      (record {
        height = height;
        at = now;
        host = host;
        prev = rate_anchor (find_source name sources) height now;
      })
      sources

abbrev pub note_hosh : Option ℕ → ℕ → Sources → Sources
note_hosh none now sources = sources
note_hosh (some h) now sources = note_source hosh none now h sources

abbrev pub note_direct : Option (ℕ × String) → ℕ → Sources → Sources
note_direct none now sources = sources
note_direct (some (h, host)) now sources = note_source lightwalletd (some host) now h sources

abbrev pub keep_tip : ℕ → ℕ → TipSource → Option String → TipCache → TipCache
keep_tip h now source host c =
    if ltb 0 h then record { height = some h; at = now; source = source; host = host } else c

abbrev pub next_cache : References → ℕ → TipCache → TipCache
next_cache both now c = elim both.hosh [
  | some h ↦ keep_tip h now from_aggregate none c
  | none ↦ elim both.direct [ some (h, host) ↦ keep_tip h now from_direct (some host) c | none ↦ c ]
]

-- `refresh` behind its fetch.
unfoldable pub finish_refresh : References → ℕ → TipState → TipState
finish_refresh both now s = record {
  cache = next_cache both now s.cache;
  refreshing = false;
  last_attempt_at = s.last_attempt_at;
  sources = note_direct both.direct now (note_hosh both.hosh now s.sources);
}

abbrev pub newest : Sources → ℕ
newest [] = 0
newest ((n, v) ∷ rest) = max v.at (newest rest)

unfoldable pub kick_if_stale : ℕ → TipState → TipState × Bool
unfolding refresh
kick_if_stale now s =
    if ltb stale_ms (now - newest s.sources) then refresh false now s else (s, false)

-- `getExternalTipReading`: the kick; the reading is `reading_for` of the cache.
unfoldable pub get_external_tip_reading : ℕ → TipState → TipState × Bool
unfolding refresh
get_external_tip_reading now s =
    if ltb stale_ms (now - s.cache.at) then refresh false now s else (s, false)

-- What happens to the cache: `readTipReferences` or `referenceTip`, `getExternalTip` or its
-- reading, `warmExternalTip`, and the end of a fetch.
pub data Event : Type 0 where
  references_read tip_read warmed : ℕ → Event
  answered : ℕ → References → Event

abbrev pub time_of : Event → ℕ
time_of (references_read now) = now
time_of (tip_read now) = now
time_of (warmed now) = now
time_of (answered now both) = now

-- One event, and whether it dials the servers.
unfoldable pub step : Event → TipState → TipState × Bool
unfolding kick_if_stale get_external_tip_reading refresh finish_refresh
step (references_read now) s = kick_if_stale now s
step (tip_read now) s = get_external_tip_reading now s
step (warmed now) s = refresh false now s
step (answered now both) s = (finish_refresh both now s, false)

unfoldable pub run : List Event → TipState → TipState
run [] s = s
run (e ∷ es) s = run es (step e s).0
