-- ===== src/Tips/Tests.antt =====
-- Checks of the tip's readers at concrete inputs.
use zcash_faucet.Base.{
  ℕ, ◌-◌, ◌*◌, ◌≤◌, ◌≡◌, refl, true, String, Option, none, some, List, [], ◌∷◌, ◌++◌, arith, str_eq,
  All, if◌then◌else◌,
}
use zcash_faucet.Base.Map.{is_some}
use zcash_faucet.Tips.Block.{parse_block, encode_block_id_height}
use zcash_faucet.Tips.Block.RoundTrip.{height_from_block_id-encode_block_id_height}
use zcash_faucet.Tips.BlockId.{
  parsed, running, parse, to_number, number_at, as_number, height_from_block_id,
}
use zcash_faucet.Tips.BlockId.RoundTrip.{
  Field, number, bytes, encode, first_height, IsExact, height_from_block_id-encode,
}
use zcash_faucet.Tips.BlockId.Number.{to_number_exact}
use zcash_faucet.Tips.BlockId.Stuck.{rewinding, parse-rewinding}
use zcash_faucet.Base.Int.{pos}
use zcash_faucet.Tips.Expiry.{Note, usable, ask_all, summarize, disagreement, tip_for_expiry}
use zcash_faucet.Tips.Expiry.Stamp.{IsStamp, IsTold, stamped, tip_for_expiry-IsStamp}
use zcash_faucet.Tips.Fetch.{Dial, fetch_direct_tip, References}
use zcash_faucet.Tips.Fetch.Budget.{IsTimely, fetch_direct_tip-answer}
use zcash_faucet.Tips.References.{
  Sources, hosh, lightwalletd, Agreement, heights, fresh_sources, get_tip_references,
  reference_tip_at,
}
use zcash_faucet.Tips.References.Highest.{highest_of, reference_tip_at-highest}
use zcash_faucet.Tips.References.Rate.{Bounds, get_tip_references-Bounds}
use zcash_faucet.Tips.Refresh.{Event, cold, run, reading_for}
use zcash_faucet.Tips.Refresh.Gap.{dials, dials-le}
use zcash_faucet.Tips.Refresh.Provenance.{IsAnswered, run-IsAnswered}

abbrev newest_block : List Field
newest_block = bytes 2 (1 ∷ 2 ∷ 3 ∷ []) ∷ (number 1 4_335_553 ∷ [])

height_from_block_id-encode_example :
    (height_from_block_id (encode newest_block) ≡ parsed (as_number (first_height newest_block)))
    × All IsExact newest_block
height_from_block_id-encode_example = height_from_block_id-encode newest_block (omega arith)

parse-rewinding_example :
    (parse 100 (rewinding ++ (8 ∷ [])) (rewinding ++ (8 ∷ [])) ≡ running)
    × (parse_block 100 (rewinding ++ (8 ∷ [])) (rewinding ++ (8 ∷ [])) ≡ running)
parse-rewinding_example = parse-rewinding 100 (8 ∷ [])

height_from_block_id-encode_block_id_height_example :
    height_from_block_id (encode_block_id_height 4_335_553) ≡ parsed (some 4_335_553)
height_from_block_id-encode_block_id_height_example =
    height_from_block_id-encode_block_id_height 4_335_553 (to_number_exact 4_335_553 (omega arith))

-- The first number that no double holds.
rounded_height : to_number 9_007_199_254_740_993 ≡ 9_007_199_254_740_992
unfolding to_number number_at
rounded_height = refl

-- The aggregate a hundred blocks behind a server, each asked half a minute ago.
abbrev two_sources : Sources
two_sources =
    (hosh, record { height = 1000; at = 900_000; host = none; prev = some (970, 540_000) })
    ∷ (
      lightwalletd,
      record { height = 1020; at = 900_000; host = none; prev = some (990, 540_000) },
    )
    ∷ []

abbrev defaults : Agreement
defaults = record { agree_blocks = 20; agree_seconds = 300 }

abbrev best : Option ℕ
best = some 1020

reference_tip_at-highest_example :
    ((reference_tip_at defaults two_sources 930_000).height
      ≡ highest_of (heights (fresh_sources 930_000 two_sources)))
    × ((get_tip_references defaults two_sources 930_000).used_height
        ≡ (reference_tip_at defaults two_sources 930_000).height)
reference_tip_at-highest_example =
    reference_tip_at-highest defaults two_sources 930_000 (refl, (refl, tt))

get_tip_references-Bounds_example :
    Bounds defaults
      (get_tip_references defaults two_sources 930_000).seconds_per_block
      20
      (get_tip_references defaults two_sources 930_000).agree_blocks
      true
unfolding get_tip_references
get_tip_references-Bounds_example =
    get_tip_references-Bounds defaults two_sources 930_000 20 true refl refl

-- One server hangs, any other answers at once.
abbrev dial_of : Dial
dial_of leg timeout now = if str_eq leg "slow" then (none, timeout) else (some 4000, 0)

dial_of-IsTimely : IsTimely dial_of
dial_of-IsTimely leg timeout now = ground arith

fetch_direct_tip-answer_example :
    is_some ((fetch_direct_tip dial_of 3000 (("slow" ∷ []) ++ ("fast" ∷ [])) 100).0) ≡ true
fetch_direct_tip-answer_example =
    fetch_direct_tip-answer dial_of 3000 1500 ("slow" ∷ []) [] "fast" 100 dial_of-IsTimely
      (λ timeout now le. refl) (omega arith) (omega arith)

abbrev answer_now : References
answer_now = record { hosh = none; direct = some (4000, "direct") }

-- A read that dials, its answer, two reads while it is fresh, and one that dials again.
abbrev busy_minute : List Event
busy_minute =
    Event.tip_read 500_000
    ∷ Event.references_read 500_100
    ∷ Event.answered 500_200 answer_now
    ∷ Event.references_read 501_000
    ∷ Event.tip_read 531_000
    ∷ []

dials-le_example : 1000 * dials busy_minute cold ≤ 600_000 - 0
dials-le_example = dials-le cold 400_000 600_000 busy_minute (omega arith) (omega arith)

abbrev Plausible : ℕ → ℕ → Type 0
Plausible h at = (h ≤ 5000) × (500_000 ≤ at)

run-IsAnswered_example :
    IsAnswered Plausible 540_000 (reading_for (run busy_minute cold).cache 540_000)
run-IsAnswered_example = run-IsAnswered Plausible busy_minute 540_000 (omega arith)

-- A server that lags by two blocks, one that reports nothing usable, and one at the tip.
abbrev lagging : String → Option ℕ
lagging host =
    if str_eq host "slow" then some 3998 else if str_eq host "new" then some 0 else some 4000

abbrev three_hosts : List String
three_hosts = "new" ∷ "slow" ∷ "fast" ∷ []

tip_for_expiry-IsStamp_example :
    (let answers : List ℕ = usable (ask_all lagging three_hosts) in
      let (note, tip) = tip_for_expiry lagging (pos 5) three_hosts in
      IsStamp answers (stamped tip) × IsTold answers (pos 5) (stamped tip) note)
tip_for_expiry-IsStamp_example = tip_for_expiry-IsStamp lagging (pos 5) three_hosts

-- The server that is named as the only one that answered is the one that reported height 0.
only_one_named :
    disagreement (pos 5) (summarize (ask_all lagging ("new" ∷ "fast" ∷ [])))
    ≡ some (Note.only_one (some "new"))
unfolding disagreement summarize
only_one_named = refl
