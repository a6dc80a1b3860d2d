-- ===== src/Tips/Block.antt =====
-- src/lib/zcash/externalBlock.ts: the block of a third party's server, asked for by its height and
-- read for its hash. Bytes and indices are those of `Tips.BlockId`.
pub mod RoundTrip
use zcash_faucet.Base.{
  ℕ, zero, suc, ◌+◌, ◌-◌, ◌*◌, ◌/◌, ◌%◌, ◌^◌, Bool, true, false, ◌&&◌, ◌||◌, Option, none, some,
  List, [], ◌∷◌, ◌++◌, length, leb, ltb, ◌==◌, if◌then◌else◌,
}
use zcash_faucet.Tips.BlockId.{
  Parse, running, parsed, read_length, skip_varint, drop_bytes, advance,
}

abbrev pub reference_depth : ℕ
reference_depth = 10

-- The loop of `encodeBlockIDHeight`: a group of seven bits a round, until nothing is left of the
-- height. A height is more than the rounds that it takes.
unfoldable pub groups : ℕ → ℕ → List ℕ
groups zero v = v % 128 ∷ []
groups (suc fuel) v = elim (v / 128 == 0) [
  | true ↦ v % 128 ∷ []
  | false ↦ (v % 128 + 128) ∷ groups fuel (v / 128)
]

unfoldable pub encode_block_id_height : ℕ → List ℕ
encode_block_id_height height = 0x08 ∷ groups height height

abbrev pub take_bytes : ℕ → List ℕ → List ℕ
take_bytes zero bs = []
take_bytes (suc n) [] = []
take_bytes (suc n) (b ∷ bs) = b ∷ take_bytes n bs

abbrev pub reverse_onto : List ℕ → List ℕ → List ℕ
reverse_onto done [] = done
reverse_onto done (b ∷ bs) = reverse_onto (b ∷ done) bs

-- `i + len > buf.length`; a negative length never passes the end.
abbrev pub overruns : ℕ → List ℕ → Bool
overruns len rest = ltb len (2 ^ 31) && ltb (length rest) len

-- `hashFromCompactBlock`; the hash as bytes in the order that is shown.
unfoldable pub parse_block : ℕ → List ℕ → List ℕ → Parse (List ℕ)
parse_block fuel buf [] = parsed none
parse_block zero buf (tag ∷ bs) = running
parse_block (suc fuel) buf (tag ∷ bs) =
    if tag % 8 == 2
    then (elim (read_length 0 0 bs) [
      | none ↦ parsed none
      | some (len, rest) ↦
          if overruns len rest
          then parsed none
          else if tag / 8 == 3
          then (if len == 32
              then parsed (some (reverse_onto [] (take_bytes 32 rest)))
              else parsed none)
          else parse_block fuel buf (advance buf rest len)
    ])
    else if tag % 8 == 0
    then (elim (skip_varint bs) [ none ↦ parsed none | some rest ↦ parse_block fuel buf rest ])
    else if tag % 8 == 5
    then parse_block fuel buf (drop_bytes 4 bs)
    else if tag % 8 == 1
    then parse_block fuel buf (drop_bytes 8 bs)
    else parsed none

unfoldable pub hash_from_compact_block : List ℕ → Parse (List ℕ)
hash_from_compact_block buf = parse_block (length buf) buf buf
