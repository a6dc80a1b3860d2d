-- ===== src/Tips/Fetch.antt =====
-- src/lib/zcash/externalTip.ts: one round of questions, to the aggregate (`fromHosh`) and to the
-- configured servers that are a third party's (`fetchDirectTip`). The aggregate's reply is a
-- parameter, parsed, and so is a dial of one server: the height it answers, if any, and the
-- milliseconds that it took.
pub mod Budget
use zcash_faucet.Base.{
  ℕ, suc, ◌+◌, ◌-◌, ◌/◌, max, Bool, true, false, ◌&&◌, String, Option, none, some, List, [], ◌∷◌,
  length, leb, ltb, if◌then◌else◌, str_eq,
}

pub record Server : Type 0 where
  pub chain : String
  pub online : Bool
  pub height : Option ℕ

abbrev pub server_heights : List Server → List ℕ
server_heights [] = []
server_heights (s ∷ rest) = elim s.height [
  | none ↦ server_heights rest
  | some h ↦
      if str_eq s.chain "test" && s.online then h ∷ server_heights rest else server_heights rest
]

abbrev pub max_height : List ℕ → Option ℕ
max_height [] = none
max_height (h ∷ hs) = elim (max_height hs) [ none ↦ some h | some m ↦ some (max h m) ]

-- `fromHosh`, of the reply's servers; none when it is refused, late or not the JSON expected.
abbrev pub from_hosh : Option (List Server) → Option ℕ
from_hosh none = none
from_hosh (some servers) = max_height (server_heights servers)

abbrev pub positive : Option ℕ → Option ℕ
positive none = none
positive (some h) = if ltb 0 h then some h else none

-- A dial of a server with a timeout at a time.
abbrev pub Dial : Type 0
Dial = String → ℕ → ℕ → Option ℕ × ℕ

-- `Math.ceil(remaining / (legs.length - i))`, of the legs left behind this one.
abbrev pub share_of : ℕ → ℕ → ℕ
share_of remaining behind = (remaining + behind) / (behind + 1)

-- The loop of `fetchDirectTip`, from a time on; it gives the time at which it ends too.
unfoldable pub ask_legs : Dial → ℕ → List String → ℕ → Option (ℕ × String) × ℕ
ask_legs dial ends_at [] now = (none, now)
ask_legs dial ends_at (leg ∷ legs) now =
    if leb ends_at now
    then (none, now)
    else (let (answer, took) = dial leg (share_of (ends_at - now) (length legs)) now in
        elim (positive answer) [
          | some height ↦ (some (height, leg), now + took)
          | none ↦ ask_legs dial ends_at legs (now + took)
        ])

abbrev pub fetch_direct_tip : Dial → ℕ → List String → ℕ → Option (ℕ × String) × ℕ
fetch_direct_tip dial fallback_total_ms legs now = ask_legs dial (now + fallback_total_ms) legs now

pub record References : Type 0 where
  pub hosh : Option ℕ
  pub direct : Option (ℕ × String)

-- `fetchBothReferencesWithin`: the two are asked at once, and each fails on its own.
abbrev pub fetch_both_references : Option (List Server) → Option (ℕ × String) → References
fetch_both_references reply direct = record { hosh = positive (from_hosh reply); direct = direct }
