-- ===== src/Reserve/Decide/Hysteresis.antt =====
-- The two levels keep the refill from flapping.
use zcash_faucet.Base.{ℕ, ◌<◌, ◌≡◌, refl, Bool, true, Option, none, some, List, [], ◌∷◌, arith, All}
use zcash_faucet.Reserve.Decide.{ReserveLevels, decide_refilling}

-- The decisions of successive readings, each from the one before.
abbrev pub decide_all : Bool → List (Option ℕ) → ReserveLevels → Bool
decide_all refilling [] levels = refilling
decide_all refilling (reading ∷ later) levels =
    decide_all (decide_refilling refilling reading levels) later levels

-- A reading that is unknown, or stays below the target.
abbrev pub IsShort : ReserveLevels → Option ℕ → Type 0
IsShort levels none = Unit
IsShort levels (some spendable) = spendable < levels.target_zat

-- A refill that has begun goes on through every reading short of the target.
pub decide_all-refilling :
    (levels : ReserveLevels) (readings : List (Option ℕ))
    → All (IsShort levels) readings
    → decide_all true readings levels ≡ true
unfolding decide_refilling
decide_all-refilling levels [] h = refl
decide_all-refilling levels (none ∷ later) (h, hs) = decide_all-refilling levels later hs
decide_all-refilling levels (some z ∷ later) (h, hs) =
    ground (arith, decide_all-refilling levels later hs)
