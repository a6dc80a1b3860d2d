-- ===== src/Tips/BlockId/Stuck.antt =====
-- A message on which the reader goes round for ever: the length of its string, read as a signed
-- 32-bit number, is -6, which takes the index back to the first byte.
use zcash_faucet.Base.{ℕ, zero, suc, ◌+◌, ◌-◌, ◌≡◌, refl, List, [], ◌∷◌, ◌++◌, length, arith}
use zcash_faucet.Tips.Block.{parse_block}
use zcash_faucet.Tips.BlockId.{running, read_length, advance, parse}

abbrev pub rewinding : List ℕ
rewinding = 0x12 ∷ 0xfa ∷ 0xff ∷ 0xff ∷ 0xff ∷ 0x0f ∷ []

advance-rewinding :
    (tail : List ℕ) → advance (rewinding ++ tail) tail 0xfffffffa ≡ rewinding ++ tail
unfolding advance
advance-rewinding tail =
    let all : length (rewinding ++ tail) - (length tail + 6) ≡ 0 = omega arith in
    rw all (ground arith)

-- However many rounds the loops are given, and whatever bytes follow, neither the reader of a
-- height nor the reader of a block's hash has ended on a message that begins with these six bytes.
pub parse-rewinding :
    (fuel : ℕ) (tail : List ℕ)
    → (parse fuel (rewinding ++ tail) (rewinding ++ tail) ≡ running)
      × (parse_block fuel (rewinding ++ tail) (rewinding ++ tail) ≡ running)
unfolding parse parse_block read_length
parse-rewinding zero tail = (refl, refl)
parse-rewinding (suc fuel) tail = ground (arith, advance-rewinding tail, parse-rewinding fuel tail)
