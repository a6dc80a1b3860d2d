-- ===== src/Tips/Expiry.antt =====
-- src/lib/zcash/expiryTip.ts: the tip from which a transparent send stamps its expiry. What a
-- server answers to GetLatestBlock is a parameter; the sentence for the operator is the data that
-- it quotes.
pub mod Stamp
use zcash_faucet.Base.{
  ℕ, ◌-◌, max, min, Bool, not, String, Option, none, some, List, [], ◌∷◌, map, length, leb, ltb,
  ◌==◌, if◌then◌else◌,
}
use zcash_faucet.Base.Int.{ℤ, pos, lebℤ}
use zcash_faucet.Tips.Fetch.{max_height, positive}

pub record EndpointTip : Type 0 where
  pub endpoint : String
  pub height : Option ℕ

pub record ExpiryTip : Type 0 where
  pub height : Option ℕ
  pub readings : List EndpointTip
  pub answered : ℕ
  pub spread : Option ℕ

-- `heights`: the usable ones, in the order of the readings.
abbrev pub usable : List EndpointTip → List ℕ
usable [] = []
usable (r ∷ rest) = elim (positive r.height) [ none ↦ usable rest | some h ↦ h ∷ usable rest ]

abbrev pub min_height : List ℕ → Option ℕ
min_height [] = none
min_height (h ∷ hs) = elim (min_height hs) [ none ↦ some h | some m ↦ some (min h m) ]

abbrev pub spread_of : List ℕ → Option ℕ
spread_of hs =
    if leb 2 (length hs)
    then (elim (max_height hs) [
      | none ↦ none
      | some top ↦ elim (min_height hs) [ none ↦ none | some low ↦ some (top - low) ]
    ])
    else none

unfoldable pub summarize : List EndpointTip → ExpiryTip
summarize readings =
    let heights : List ℕ = usable readings in
    record {
      height = max_height heights;
      readings = readings;
      answered = length heights;
      spread = spread_of heights;
    }

-- What is told the operator: the one server that answered, or the spread, the tip in use and the
-- servers behind it.
pub data Note : Type 0 where
  only_one : Option String → Note
  spread_out : ℕ → Option ℕ → List EndpointTip → Note

abbrev pub first_endpoint : List EndpointTip → Option String
first_endpoint [] = none
first_endpoint (r ∷ rest) = elim r.height [ none ↦ first_endpoint rest | some h ↦ some r.endpoint ]

abbrev pub is_below : Option ℕ → Option ℕ → Bool
is_below (some h) (some top) = ltb h top
is_below _ _ = Bool.false

abbrev pub behind : Option ℕ → List EndpointTip → List EndpointTip
behind top [] = []
behind top (r ∷ rest) =
    let later = behind top rest in if is_below r.height top then r ∷ later else later

unfoldable pub disagreement : ℤ → ExpiryTip → Option Note
disagreement max_lag tip =
    if tip.answered == 0
    then none
    else if tip.answered == 1
    then some (only_one (first_endpoint tip.readings))
    else (elim tip.spread [
      | none ↦ none
      | some spread ↦
          if not (lebℤ (pos spread) max_lag)
          then some (spread_out spread tip.height (behind tip.height tip.readings))
          else none
    ])

abbrev pub ask_all : (String → Option ℕ) → List String → List EndpointTip
ask_all ask_one = map (λ e. record { endpoint = e; height = ask_one e })

-- `tipForExpiry`: the warning, if any, and the tip; none is the thrown error.
unfoldable pub tip_for_expiry :
    (String → Option ℕ) → ℤ → List String → Option Note × Option ExpiryTip
unfolding summarize
tip_for_expiry ask_one max_lag endpoints =
    let tip = summarize (ask_all ask_one endpoints) in
    (disagreement max_lag tip, elim tip.height [ none ↦ none | some h ↦ some tip ])
