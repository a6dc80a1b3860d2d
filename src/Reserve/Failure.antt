-- ===== src/Reserve/Failure.antt =====
-- src/lib/reserve/stepFailure.ts: what a refill step that throws means, and the back-off. The
-- expressions are matched without regard to case, so a message is its list of code points and the
-- needles are written in lower case; an expression with alternatives is the list of its needles.
pub mod Backoff
use Prim.Native.Char.{code}
use Prim.Native.String
use zcash_faucet.Base.{
  ℕ, ◌+◌, ◌-◌, ◌^◌, zero, suc, min, Bool, true, false, ◌&&◌, ◌||◌, String, List, [], ◌∷◌, map, any,
  leb, ◌==◌, if◌then◌else◌,
}

pub data StepOutcome : Type 0 where
  waiting resyncing error : StepOutcome

abbrev pub codes : String → List ℕ
codes String.[] = []
codes (String.◌∷◌ c s) = code c ∷ codes s

abbrev pub lower : ℕ → ℕ
lower c = if leb b'A' c && leb c b'Z' then c + 32 else c

-- The text begins with the needle, or holds it somewhere.
pub begins_with : List ℕ → List ℕ → Bool
begins_with [] text = true
begins_with (n ∷ needle) [] = false
begins_with (n ∷ needle) (c ∷ text) = (lower c == n) && begins_with needle text

pub contains : List ℕ → List ℕ → Bool
unfolding begins_with
contains needle [] = begins_with needle []
contains needle (c ∷ text) = begins_with needle (c ∷ text) || contains needle text

-- `/insufficient balance/i` and `/no (spendable )?(coinbase|utxos?) /i`.
abbrev pub nothing_to_shield : List String
nothing_to_shield =
    "insufficient balance" ∷ "no coinbase " ∷ "no utxo " ∷ "no utxos " ∷ "no spendable coinbase "
    ∷ "no spendable utxo " ∷ "no spendable utxos " ∷ []

-- `/recovering from a chain reorgani[sz]ation/i`.
abbrev pub resyncing_marks : List String
resyncing_marks =
    "recovering from a chain reorganisation" ∷ "recovering from a chain reorganization" ∷ []

pub classify_step_failure : String → StepOutcome
unfolding contains
classify_step_failure message =
    if any (λ n. contains (codes n) (codes message)) resyncing_marks
    then resyncing
    else if any (λ n. contains (codes n) (codes message)) nothing_to_shield
    then waiting
    else error

abbrev pub max_backoff_ticks : ℕ
max_backoff_ticks = 20

unfoldable pub backoff_ticks : ℕ → ℕ
backoff_ticks zero = 0
backoff_ticks (suc failures) = min max_backoff_ticks (2 ^ failures)

unfoldable pub should_attempt : ℕ → ℕ → Bool
unfolding backoff_ticks
should_attempt consecutive_failures ticks_since_last_attempt =
    leb (backoff_ticks consecutive_failures) ticks_since_last_attempt
