-- ===== src/Tips/BlockId.antt =====
-- src/lib/zcash/externalTip.ts: `heightFromBlockID`, the hand-written reader of the protobuf
-- message in which a light-wallet server names its newest block. The index `i` into the buffer is
-- kept as the bytes that are left from it; before the start a read gives `undefined`, which the
-- bit operations take for 0. A byte is a number below 256.
pub mod Number
pub mod RoundTrip
pub mod Stuck
use Prim.Native.Nat.{bit_or}
use zcash_faucet.Base.{
  ℕ, zero, suc, ◌+◌, ◌-◌, ◌*◌, ◌/◌, ◌%◌, ◌^◌, Bool, true, false, ◌&&◌, ◌||◌, Option, none, some,
  List, [], ◌∷◌, ◌++◌, length, leb, ltb, ◌==◌, if◌then◌else◌,
}

-- What the parser does with the bytes: it answers a value or null, or it has not ended within
-- the fuel, which counts the rounds of the outer loop.
pub data Parse (A : Type 0) : Type 0 where
  running : Parse A
  parsed : Option A → Parse A

-- `v |= BigInt(b & 0x7f) << shift` with the weight 2 ^ shift: each group lies above those before.
unfoldable pub read_height : ℕ → ℕ → List ℕ → Option ℕ
read_height v weight [] = none
read_height v weight (b ∷ bs) =
    let grown : ℕ = v + b % 128 * weight in
    let rest = read_height grown (weight * 128) bs in if leb 128 b then rest else some grown

-- The multiple of a unit that is nearest, the even one of two.
abbrev pub nearest : ℕ → ℕ → ℕ
nearest unit v =
    let whole : ℕ = v / unit in
    let part : ℕ = 2 * (v % unit) in
    if ltb part unit || ((part == unit) && (whole % 2 == 0))
    then whole * unit
    else (whole + 1) * unit

unfoldable pub number_at : ℕ → ℕ → ℕ → ℕ
number_at zero unit v = v
number_at (suc fuel) unit v = elim (ltb v (2 ^ 53 * unit)) [
  | true ↦ nearest unit v
  | false ↦ number_at fuel (2 * unit) v
]

-- `Number(v)`, a double: of 53 bits, rounded to the nearest. From 2 ^ 1024 on, where it is Infinity,
-- the number is kept; the fuel is one round for each doubling of the unit below that.
unfoldable pub to_number : ℕ → ℕ
unfolding number_at
to_number v = number_at 972 1 v

abbrev pub as_number : Option ℕ → Option ℕ
as_number none = none
as_number (some v) = some (to_number v)

-- `len |= (b & 0x7f) << s` on 32-bit patterns, where the shift counts modulo 32.
unfoldable pub read_length : ℕ → ℕ → List ℕ → Option (ℕ × List ℕ)
read_length len s [] = none
read_length len s (b ∷ bs) =
    let grown : ℕ = bit_or len (b % 128 * 2 ^ (s % 32) % 2 ^ 32) in
    let rest = read_length grown (s + 7) bs in if leb 128 b then rest else some (grown, bs)

unfoldable pub skip_varint : List ℕ → Option (List ℕ)
skip_varint [] = none
skip_varint (b ∷ bs) = let rest = skip_varint bs in if leb 128 b then rest else some bs

abbrev pub drop_bytes : ℕ → List ℕ → List ℕ
drop_bytes zero bs = bs
drop_bytes (suc n) [] = []
drop_bytes (suc n) (b ∷ bs) = drop_bytes n bs

abbrev pub zeros_before : ℕ → List ℕ → List ℕ
zeros_before zero bs = bs
zeros_before (suc n) bs = 0 ∷ zeros_before n bs

-- `i += len`, where the 32-bit `len` is signed: from 2 ^ 31 on the index moves back.
unfoldable pub advance : List ℕ → List ℕ → ℕ → List ℕ
advance buf rest len =
    if ltb len (2 ^ 31)
    then drop_bytes len rest
    else (let left : ℕ = length rest + (2 ^ 32 - len) in
        if leb left (length buf)
        then drop_bytes (length buf - left) buf
        else zeros_before (left - length buf) buf)

-- The outer loop, on the buffer and what is left of it.
unfoldable pub parse : ℕ → List ℕ → List ℕ → Parse ℕ
parse fuel buf [] = parsed none
parse zero buf (tag ∷ bs) = running
parse (suc fuel) buf (tag ∷ bs) =
    if tag / 8 == 1 && tag % 8 == 0
    then parsed (as_number (read_height 0 1 bs))
    else if tag % 8 == 2
    then (elim (read_length 0 0 bs) [
      | none ↦ parsed none
      | some (len, rest) ↦ parse fuel buf (advance buf rest len)
    ])
    else if tag % 8 == 0
    then (elim (skip_varint bs) [ none ↦ parsed none | some rest ↦ parse fuel buf rest ])
    else parsed none

-- A round for each byte, which is enough for every message that `RoundTrip` encodes.
unfoldable pub height_from_block_id : List ℕ → Parse ℕ
height_from_block_id buf = parse (length buf) buf buf
