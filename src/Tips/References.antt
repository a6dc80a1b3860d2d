-- ===== src/Tips/References.antt =====
-- src/lib/zcash/externalTip.ts: what each reference last said, whether the references agree, and
-- the height that a node is judged against. Rates are exact: a rate is a number of milliseconds
-- for a number of blocks, and the published one counts hundredths of a second.
pub mod Highest
pub mod Rate
use zcash_faucet.Base.{
  ℕ, suc, ◌+◌, ◌-◌, ◌*◌, ◌/◌, max, min, Bool, true, false, not, ◌||◌, String, Option, none, some,
  List, [], ◌∷◌, length, map, keep, ltb, leb, ◌==◌, if◌then◌else◌,
}

pub data ReferenceName : Type 0 where
  hosh lightwalletd : ReferenceName

abbrev pub same_name : ReferenceName → ReferenceName → Bool
same_name hosh hosh = true
same_name lightwalletd lightwalletd = true
same_name _ _ = false

-- A source's last answer, and the anchor `prevHeight`, `prevAt` of its rate, set together.
pub record Source : Type 0 where
  pub height : ℕ
  pub at : ℕ
  pub host : Option String
  pub prev : Option (ℕ × ℕ)

-- `__faucetTipSources`, in the order in which the sources first answered.
abbrev pub Sources : Type 0
Sources = List (ReferenceName × Source)

-- TIP_AGREE_BLOCKS and TIP_AGREE_SECONDS, as configured.
pub record Agreement : Type 0 where
  pub agree_blocks : ℕ
  pub agree_seconds : ℕ

abbrev pub reference_max_age_ms : ℕ
reference_max_age_ms = 300_000

abbrev pub rate_baseline_ms : ℕ
rate_baseline_ms = 300_000

abbrev pub find_source {ℓ} : {A : Type ℓ} → ReferenceName → List (ReferenceName × A) → Option A
find_source name [] = none
find_source name ((n, v) ∷ rest) = if same_name n name then some v else find_source name rest

-- `sources[name] = v`.
unfoldable pub set_source : ReferenceName → Source → Sources → Sources
set_source name v [] = (name, v) ∷ []
set_source name v ((n, w) ∷ rest) =
    let after = set_source name v rest in if same_name n name then (n, v) ∷ rest else (n, w) ∷ after

abbrev moved_anchor : Source → ℕ → Option (ℕ × ℕ)
moved_anchor was height = if was.height == height then was.prev else some (was.height, was.at)

unfoldable pub rate_anchor : Option Source → ℕ → ℕ → Option (ℕ × ℕ)
rate_anchor none height now = none
rate_anchor (some was) height now = elim was.prev [
  | none ↦ moved_anchor was height
  | some (prev_height, prev_at) ↦
      if ltb now (prev_at + rate_baseline_ms) then was.prev else moved_anchor was height
]

-- The blocks and the milliseconds that one source adds to the pool.
abbrev pub pooled : Source → ℕ × ℕ
pooled v = elim v.prev [
  | none ↦ (0, 0)
  | some (prev_height, prev_at) ↦
      if ltb prev_height v.height
      then (if ltb prev_at v.at then (v.height - prev_height, v.at - prev_at) else (0, 0))
      else (0, 0)
]

abbrev pub pool : Sources → ℕ × ℕ
pool [] = (0, 0)
pool ((n, v) ∷ rest) = ((pooled v).0 + (pool rest).0, (pooled v).1 + (pool rest).1)

-- `observedSecondsPerBlock`: null, or milliseconds for a number of blocks that is not 0.
abbrev pub observed_seconds_per_block : Sources → Option (ℕ × ℕ)
observed_seconds_per_block sources =
    let (blocks, millis) = pool sources in if blocks == 0 then none else some (millis, blocks)

-- Below a second a block the rate reads as none; else it is rounded to hundredths.
abbrev pub plausible_rate : Option (ℕ × ℕ) → Option ℕ
plausible_rate none = none
plausible_rate (some (millis, blocks)) =
    if ltb millis (1000 * blocks) then none else some ((2 * millis + 10 * blocks) / (20 * blocks))

pub record TipReference : Type 0 where
  pub height : ℕ
  pub age_seconds : ℕ
  pub stale : Bool
  pub host : Option String

abbrev pub is_stale : ℕ → Source → Bool
is_stale now v = ltb reference_max_age_ms (now - v.at)

abbrev pub reference_at : ℕ → Source → TipReference
reference_at now v = record {
  height = v.height;
  age_seconds = (now - v.at + 500) / 1000;
  stale = is_stale now v;
  host = v.host;
}

abbrev pub references_at : ℕ → Sources → List (ReferenceName × TipReference)
references_at now [] = []
references_at now ((n, v) ∷ rest) = (n, reference_at now v) ∷ references_at now rest

abbrev pub fresh_sources : ℕ → Sources → Sources
fresh_sources now = keep (λ e. not (is_stale now e.1))

abbrev pub heights : Sources → List ℕ
heights [] = []
heights ((n, v) ∷ rest) = v.height ∷ heights rest

-- `Math.max` and `Math.min` of a first height and more.
abbrev pub highest : ℕ → List ℕ → ℕ
highest h [] = h
highest h (x ∷ xs) = highest (max h x) xs

abbrev pub lowest : ℕ → List ℕ → ℕ
lowest h [] = h
lowest h (x ∷ xs) = lowest (min h x) xs

abbrev pub spread : List ℕ → Option ℕ
spread [] = none
spread (x ∷ []) = none
spread (x ∷ (y ∷ rest)) = some (highest x (y ∷ rest) - lowest x (y ∷ rest))

-- `fresh.reduce((a, b) => (b.height > a.height ? b : a))`: the first of the highest.
unfoldable pub leader : ReferenceName → ℕ → Sources → ReferenceName
leader name height [] = name
leader name height ((n, v) ∷ rest) =
    if ltb height v.height then leader n v.height rest else leader name height rest

abbrev pub used_of : Sources → Option ReferenceName
used_of [] = none
used_of ((n, v) ∷ rest) = some (leader n v.height rest)

abbrev pub height_of : ReferenceName → List (ReferenceName × TipReference) → Option ℕ
height_of name refs = elim (find_source name refs) [ none ↦ none | some r ↦ some (r.height) ]

pub record TipReferences : Type 0 where
  pub sources : List (ReferenceName × TipReference)
  pub spread_blocks : Option ℕ
  pub corroborated : Option Bool
  pub spread_seconds : Option ℕ
  pub seconds_per_block : Option ℕ
  pub agree_blocks : ℕ
  pub used : Option ReferenceName
  pub used_height : Option ℕ
  pub hosh_height : Option ℕ
  pub lightwalletd_height : Option ℕ

abbrev pub seconds_of : Option ℕ → Option ℕ → Option ℕ
seconds_of (some blocks) (some rate) = some ((blocks * rate + 50) / 100)
seconds_of _ _ = none

abbrev pub corroboration : Agreement → Option ℕ → Option ℕ → Option Bool
corroboration a none seconds = none
corroboration a (some blocks) (some seconds) = some (leb seconds a.agree_seconds)
corroboration a (some blocks) none = some (leb blocks a.agree_blocks)

abbrev pub tolerance : Agreement → Option ℕ → ℕ
tolerance a none = a.agree_blocks
tolerance a (some rate) =
    if rate == 0 then a.agree_blocks else (200 * a.agree_seconds + rate) / (2 * rate)

unfoldable pub get_tip_references : Agreement → Sources → ℕ → TipReferences
get_tip_references a raw now =
    let refs = references_at now raw in
    let fresh = fresh_sources now raw in
    let rate = plausible_rate (observed_seconds_per_block fresh) in
    let blocks = spread (heights fresh) in
    let seconds = seconds_of blocks rate in
    let used = used_of fresh in
    record {
      sources = refs;
      spread_blocks = blocks;
      corroborated = corroboration a blocks seconds;
      spread_seconds = seconds;
      seconds_per_block = rate;
      agree_blocks = tolerance a rate;
      used = used;
      used_height = elim used [ none ↦ none | some name ↦ height_of name refs ];
      hosh_height = height_of hosh refs;
      lightwalletd_height = height_of lightwalletd refs;
    }

pub record ReferenceTipReading : Type 0 where
  pub height : Option ℕ
  pub source : Option ReferenceName
  pub stale : Bool

-- `referenceTipAt`.
unfoldable pub reference_tip_at : Agreement → Sources → ℕ → ReferenceTipReading
unfolding get_tip_references
reference_tip_at a raw now =
    let refs = get_tip_references a raw now in
    elim refs.used [
      | some name ↦ record {
        height = height_of name refs.sources;
        source = some name;
        stale = false;
      }
      | none ↦ record { height = none; source = none; stale = ltb 0 (length refs.sources) }
    ]
