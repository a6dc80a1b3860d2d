-- ===== src/Tips/Block/RoundTrip.antt =====
-- What is asked of a server, and what is read of its answer.
use zcash_faucet.Base.{
  ℕ, zero, suc, ◌+◌, ◌*◌, ◌/◌, ◌%◌, ◌≤◌, ◌<◌, ◌≡◌, refl, ap, subst, ◌∙◌, true, false, inl, inr,
  Option, none, some, List, [], ◌∷◌, ◌++◌, length, ◌==◌, if◌then◌else◌, arith, All, Bool-cases,
}
use zcash_faucet.Tips.BlockId.{
  parsed, to_number, as_number, read_height, read_length, skip_varint, advance, parse,
  height_from_block_id,
}
use zcash_faucet.Tips.BlockId.RoundTrip.{
  Field, number, bytes, encode, varint, IsField, split_group, length-append, skip_varint-varint,
  read_length-short, advance-payload,
}
use zcash_faucet.Tips.Block.{
  groups, encode_block_id_height, take_bytes, reverse_onto, overruns, parse_block,
  hash_from_compact_block,
}

groups_last : (k v : ℕ) → (v / 128 == 0) ≡ true → groups (suc k) v ≡ v % 128 ∷ []
unfolding groups
groups_last k v e = rw (e, groups) refl

groups_more :
    (k v : ℕ) → (v / 128 == 0) ≡ false → groups (suc k) v ≡ (v % 128 + 128) ∷ groups k (v / 128)
unfolding groups
groups_more k v e = rw (e, groups) refl

read_height_last : (v acc w : ℕ) → v < 128 → read_height acc w (v % 128 ∷ []) ≡ some (acc + v * w)
unfolding read_height
read_height_last v acc w h = ground arith

read_height_more :
    (v acc w : ℕ) (rest : List ℕ)
    → read_height acc w ((v % 128 + 128) ∷ rest) ≡ read_height (acc + v % 128 * w) (w * 128) rest
unfolding read_height
read_height_more v acc w rest = ground arith

read_height-groups : (k v acc w : ℕ) → v ≤ k → read_height acc w (groups k v) ≡ some (acc + v * w)
unfolding groups
read_height-groups zero v acc w h = read_height_last v acc w (omega arith)
read_height-groups (suc k) v acc w h = elim (Bool-cases (v / 128 == 0)) [
  | inl last ↦ rw (groups_last k v last) (read_height_last v acc w (ground arith))
  | inr more ↦ rw (groups_more k v more) (
      rw (read_height_more v acc w (groups k (v / 128))) (
        rw (read_height-groups k (v / 128) (acc + v % 128 * w) (w * 128) (ground arith))
          (ap some (omega (arith, split_group v w)))))
]

read_groups : (height : ℕ) → read_height 0 1 (groups height height) ≡ some height
read_groups height = read_height-groups height height 0 1 (omega arith) ∙ ap some (omega arith)

-- The message in which a height is asked for, read as a block's, gives back the height, whenever
-- the height is a number of the program, which `Number` leaves as it is: every one is written
-- whole.
pub height_from_block_id-encode_block_id_height :
    (height : ℕ)
    → to_number height ≡ height
    → height_from_block_id (encode_block_id_height height) ≡ parsed (some height)
unfolding height_from_block_id parse encode_block_id_height
height_from_block_id-encode_block_id_height height exact =
    ap (λ h. parsed (as_number h)) (read_groups height) ∙ ap (λ h. parsed (some h)) exact

-- The first string numbered 3.
unfoldable pub first_hash : List Field → Option (List ℕ)
first_hash [] = none
first_hash (number f v ∷ fs) = first_hash fs
first_hash (bytes f payload ∷ fs) = if f == 3 then some payload else first_hash fs

abbrev pub shown : Option (List ℕ) → Option (List ℕ)
shown none = none
shown (some payload) = if length payload == 32 then some (reverse_onto [] payload) else none

take_bytes-append :
    (payload rest : List ℕ) → take_bytes (length payload) (payload ++ rest) ≡ payload
take_bytes-append [] rest = refl
take_bytes-append (b ∷ bs) rest = ap (λ (t : List ℕ). b ∷ t) (take_bytes-append bs rest)

taken :
    (n : ℕ) (payload rest : List ℕ) → length payload ≡ n → take_bytes n (payload ++ rest) ≡ payload
taken n payload rest e =
    subst (λ (m : ℕ). take_bytes m (payload ++ rest) ≡ payload) e (take_bytes-append payload rest)

hash_of :
    (payload rest : List ℕ)
    → (if length payload == 32
        then parsed (some (reverse_onto [] (take_bytes 32 (payload ++ rest))))
        else parsed none)
      ≡ parsed (shown (some payload))
hash_of payload rest = elim (Bool-cases (length payload == 32)) [
  | inl e ↦ rw e (
      ap (λ (t : List ℕ). parsed (some (reverse_onto [] t))) (taken 32 payload rest (ground arith)))
  | inr e ↦ rw e refl
]

block-bytes :
    (fuel : ℕ) (buf : List ℕ) (f : ℕ) (payload rest : List ℕ)
    → IsField (bytes f payload)
    → parse_block (suc fuel) buf ((f * 8 + 2) ∷ (length payload ∷ (payload ++ rest)))
      ≡ (if f == 3 then parsed (shown (some payload)) else parse_block fuel buf rest)
unfolding parse_block
block-bytes fuel buf f payload rest (lo, hi, short) =
    let whole : (f * 8 + 2) / 8 ≡ f = omega arith in
    let wire : (f * 8 + 2) % 8 ≡ 2 = omega arith in
    let read : read_length 0 0 (length payload ∷ (payload ++ rest))
        ≡ some (length payload, payload ++ rest) =
      read_length-short (length payload) (payload ++ rest) short in
    let skip : advance buf (payload ++ rest) (length payload) ≡ rest =
      advance-payload buf payload rest short in
    let fits : overruns (length payload) (payload ++ rest) ≡ false =
      ground (arith, length-append payload rest) in
    rw wire (
      rw read (
        rw fits (
          rw whole (elim (Bool-cases (f == 3)) [
            | inl here ↦ rw here (hash_of payload rest)
            | inr other ↦ rw other (rw skip refl)
          ]))))

block-number :
    (fuel : ℕ) (buf : List ℕ) (f v : ℕ) (rest : List ℕ)
    → IsField (number f v)
    → parse_block (suc fuel) buf ((f * 8) ∷ (varint 9 v ++ rest)) ≡ parse_block fuel buf rest
unfolding parse_block
block-number fuel buf f v rest (lo, hi, fits) =
    let wire : f * 8 % 8 ≡ 0 = omega arith in
    let skip : skip_varint (varint 9 v ++ rest) ≡ some rest =
      skip_varint-varint 9 v rest (omega arith) in
    rw wire (rw skip refl)

parse_block-encode :
    (fuel : ℕ) (buf : List ℕ) (fs : List Field)
    → All IsField fs
    → length (encode fs) ≤ fuel
    → parse_block fuel buf (encode fs) ≡ parsed (shown (first_hash fs))
unfolding parse_block encode first_hash
parse_block-encode fuel buf [] ok h = refl
parse_block-encode zero buf (number f v ∷ fs) ok h = absurd (omega arith)
parse_block-encode zero buf (bytes f payload ∷ fs) ok h = absurd (omega arith)
parse_block-encode (suc fuel) buf (number f v ∷ fs) (ok, oks) h =
    rw (block-number fuel buf f v (encode fs) ok)
      (parse_block-encode fuel buf fs oks (omega (arith, length-append (varint 9 v) (encode fs))))
parse_block-encode (suc fuel) buf (bytes f payload ∷ fs) (ok, oks) h =
    rw (block-bytes fuel buf f payload (encode fs) ok) (elim (Bool-cases (f == 3)) [
      | inl here ↦ rw here refl
      | inr other ↦
          rw other
            (parse_block-encode fuel buf fs oks (omega (arith, length-append payload (encode fs))))
    ])

-- Of a block whose fields have numbers 1 to 15, numbers below 2 ^ 64 and strings of fewer than 128
-- bytes, in any order, the reader shows the first string numbered 3, its bytes reversed, when it
-- has 32 of them, and null otherwise; it ends within a round for each byte.
pub hash_from_compact_block-encode :
    (fs : List Field)
    → All IsField fs
    → hash_from_compact_block (encode fs) ≡ parsed (shown (first_hash fs))
unfolding hash_from_compact_block
hash_from_compact_block-encode fs ok =
    parse_block-encode (length (encode fs)) (encode fs) fs ok (omega arith)
