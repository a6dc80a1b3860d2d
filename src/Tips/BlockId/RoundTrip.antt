-- ===== src/Tips/BlockId/RoundTrip.antt =====
-- The messages that a server following the protobuf encoding writes, and what is read of them.
use Prim.Native.Nat.{bit_or}
use native.Mathlib.Nat.{div-add-mod}
use zcash_faucet.Base.{
  ℕ, zero, suc, ◌+◌, ◌*◌, ◌/◌, ◌%◌, ◌^◌, ◌≤◌, ◌<◌, ◌≡◌, refl, ap, Bool, true, ◌&&◌, Option, none,
  some, List, [], ◌∷◌, ◌++◌, length, ltb, ◌==◌, if◌then◌else◌, arith, All, ◌⊎◌, inl, inr,
  Bool-cases,
}
use zcash_faucet.Tips.BlockId.Number.{to_number_exact}
use zcash_faucet.Tips.BlockId.{
  parsed, to_number, as_number, read_height, read_length, skip_varint, drop_bytes, advance, parse,
  height_from_block_id,
}

-- A field of a message: a number, or a string of bytes such as the hash.
pub data Field : Type 0 where
  number : ℕ → ℕ → Field
  bytes : ℕ → List ℕ → Field

-- The groups of seven bits, lowest first, with at most k + 1 of them.
unfoldable pub varint : ℕ → ℕ → List ℕ
varint zero v = v ∷ []
varint (suc k) v =
    let rest = varint k (v / 128) in if ltb v 128 then v ∷ [] else ((v % 128 + 128) ∷ rest)

unfoldable pub encode : List Field → List ℕ
encode [] = []
encode (number f v ∷ fs) = (f * 8) ∷ (varint 9 v ++ encode fs)
encode (bytes f payload ∷ fs) = (f * 8 + 2) ∷ (length payload ∷ (payload ++ encode fs))

-- The field numbers that fit a tag of one byte, 64-bit numbers, and strings below 128 bytes.
abbrev pub IsField : Field → Type 0
IsField (number f v) = (1 ≤ f) × (f < 16) × (v < 2 ^ 64)
IsField (bytes f payload) = (1 ≤ f) × (f < 16) × (length payload < 128)

unfoldable pub first_height : List Field → Option ℕ
first_height [] = none
first_height (number f v ∷ fs) = if f == 1 then some v else first_height fs
first_height (bytes f payload ∷ fs) = first_height fs

pub split_group : (v w : ℕ) → v * w ≡ v % 128 * w + v / 128 * (w * 128)
split_group v w = omega (arith, ap (λ (t : ℕ). t * w) (div-add-mod v 128))

read_height-varint :
    (k v acc w : ℕ) (rest : List ℕ)
    → v < 128 ^ suc k
    → read_height acc w (varint k v ++ rest) ≡ some (acc + v * w)
unfolding read_height varint
read_height-varint zero v acc w rest h = ground arith
read_height-varint (suc k) v acc w rest h = ground (
  arith,
  split_group v w,
  read_height-varint k (v / 128) (acc + v % 128 * w) (w * 128) rest (omega arith),
)

pub skip_varint-varint :
    (k v : ℕ) (rest : List ℕ) → v < 128 ^ suc k → skip_varint (varint k v ++ rest) ≡ some rest
unfolding skip_varint varint
skip_varint-varint zero v rest h = ground arith
skip_varint-varint (suc k) v rest h =
    ground (arith, skip_varint-varint k (v / 128) rest (omega arith))

-- A table of the numbers below n.
all_below : (ℕ → Bool) → ℕ → Bool
all_below p zero = true
all_below p (suc n) = p n && all_below p n

all_below→at : (p : ℕ → Bool) (n i : ℕ) → all_below p n ≡ true → i < n → p i ≡ true
unfolding all_below
all_below→at p zero i h lt = absurd (omega arith)
all_below→at p (suc n) i h lt = ground (arith, all_below→at p n i)

or_zero : (n : ℕ) → n < 128 → bit_or 0 (n % 128 * 2 ^ (0 % 32) % 2 ^ 32) ≡ n
unfolding all_below
or_zero n h =
    ground (
      arith,
      all_below→at (λ (i : ℕ). bit_or 0 (i % 128 * 2 ^ (0 % 32) % 2 ^ 32) == i) 128 n refl h,
    )

pub read_length-short :
    (n : ℕ) (rest : List ℕ) → n < 128 → read_length 0 0 (n ∷ rest) ≡ some (n, rest)
unfolding read_length
read_length-short n rest h = ground (arith, or_zero n h)

drop_bytes-append : (payload rest : List ℕ) → drop_bytes (length payload) (payload ++ rest) ≡ rest
drop_bytes-append [] rest = refl
drop_bytes-append (b ∷ bs) rest = drop_bytes-append bs rest

pub advance-payload :
    (buf payload rest : List ℕ)
    → length payload < 128
    → advance buf (payload ++ rest) (length payload) ≡ rest
unfolding advance
advance-payload buf payload rest h = ground (arith, drop_bytes-append payload rest)

pub length-append : (xs ys : List ℕ) → length (xs ++ ys) ≡ length xs + length ys
length-append [] ys = omega arith
length-append (x ∷ xs) ys = omega (arith, length-append xs ys)

parse-number :
    (fuel : ℕ) (buf : List ℕ) (f v : ℕ) (rest : List ℕ)
    → IsField (number f v)
    → parse (suc fuel) buf ((f * 8) ∷ (varint 9 v ++ rest))
      ≡ (if f == 1 then parsed (some (to_number v)) else parse fuel buf rest)
unfolding parse
parse-number fuel buf f v rest (lo, hi, fits) =
    let whole : f * 8 / 8 ≡ f = omega arith in
    let wire : f * 8 % 8 ≡ 0 = omega arith in
    let read : read_height 0 1 (varint 9 v ++ rest) ≡ some (0 + v * 1) =
      read_height-varint 9 v 0 1 rest (omega arith) in
    let skip : skip_varint (varint 9 v ++ rest) ≡ some rest =
      skip_varint-varint 9 v rest (omega arith) in
    rw whole (rw wire (rw read (rw skip (ground arith))))

parse-bytes :
    (fuel : ℕ) (buf : List ℕ) (f : ℕ) (payload rest : List ℕ)
    → IsField (bytes f payload)
    → parse (suc fuel) buf ((f * 8 + 2) ∷ (length payload ∷ (payload ++ rest)))
      ≡ parse fuel buf rest
unfolding parse
parse-bytes fuel buf f payload rest (lo, hi, short) =
    let whole : (f * 8 + 2) / 8 ≡ f = omega arith in
    let wire : (f * 8 + 2) % 8 ≡ 2 = omega arith in
    let read : read_length 0 0 (length payload ∷ (payload ++ rest))
        ≡ some (length payload, payload ++ rest) =
      read_length-short (length payload) (payload ++ rest) short in
    let skip : advance buf (payload ++ rest) (length payload) ≡ rest =
      advance-payload buf payload rest short in
    rw whole (rw wire (rw read (rw skip (ground arith))))

parse-encode :
    (fuel : ℕ) (buf : List ℕ) (fs : List Field)
    → All IsField fs
    → length (encode fs) ≤ fuel
    → parse fuel buf (encode fs) ≡ parsed (as_number (first_height fs))
unfolding parse encode first_height
parse-encode fuel buf [] ok h = refl
parse-encode zero buf (number f v ∷ fs) ok h = absurd (omega arith)
parse-encode zero buf (bytes f payload ∷ fs) ok h = absurd (omega arith)
parse-encode (suc fuel) buf (number f v ∷ fs) ((lo, hi, fits), oks) h =
    rw (parse-number fuel buf f v (encode fs) (lo, hi, fits))
      (ground (arith, length-append (varint 9 v) (encode fs), parse-encode fuel buf fs oks))
parse-encode (suc fuel) buf (bytes f payload ∷ fs) ((lo, hi, short), oks) h =
    rw (parse-bytes fuel buf f payload (encode fs) (lo, hi, short))
      (parse-encode fuel buf fs oks (omega (arith, length-append payload (encode fs))))

-- A number below 2 ^ 53 is a double.
abbrev pub IsExact : Field → Type 0
IsExact (number f v) = (2 ^ 53 ≤ v) ⊎ (to_number v ≡ v)
IsExact (bytes f payload) = Unit

field-IsExact : (f : Field) → IsExact f
field-IsExact (number f v) = elim (Bool-cases (ltb v (2 ^ 53))) [
  | inl small ↦ inr (to_number_exact v (ground (arith, small)))
  | inr large ↦ inl (ground (arith, large))
]
field-IsExact (bytes f payload) = tt

fields-IsExact : (fs : List Field) → All IsExact fs
fields-IsExact [] = tt
fields-IsExact (f ∷ fs) = (field-IsExact f, fields-IsExact fs)

-- Of a message whose fields have numbers 1 to 15, numbers below 2 ^ 64 and strings of fewer than
-- 128 bytes, in any order, the reader gives back the number of the first field 1 that holds one,
-- rounded to a double as `Number` rounds it, and null when there is none; it ends within a round
-- for each byte. Below 2 ^ 53 nothing is rounded.
pub height_from_block_id-encode :
    (fs : List Field)
    → All IsField fs
    → (height_from_block_id (encode fs) ≡ parsed (as_number (first_height fs))) × All IsExact fs
unfolding height_from_block_id
height_from_block_id-encode fs ok =
    (parse-encode (length (encode fs)) (encode fs) fs ok (omega arith), fields-IsExact fs)

read_height-cut :
    (k v acc w : ℕ) (front : List ℕ) (b : ℕ) (back : List ℕ)
    → front ++ (b ∷ back) ≡ varint k v
    → read_height acc w front ≡ none
unfolding read_height varint
read_height-cut k v acc w [] b back e = refl
read_height-cut zero v acc w (x ∷ xs) b back e =
    absurd (omega (arith, ap length e, length-append xs (b ∷ back)))
read_height-cut (suc k) v acc w (x ∷ xs) b back e = ground (
  arith,
  ap length e,
  length-append xs (b ∷ back),
  read_height-cut k (v / 128) (acc + x % 128 * w) (w * 128) xs b back,
)

-- A message of one height, cut short anywhere behind its tag, is read as null and never as
-- another height.
pub height_from_block_id-cut :
    (v : ℕ) (front : List ℕ) (b : ℕ) (back : List ℕ)
    → front ++ (b ∷ back) ≡ varint 9 v
    → height_from_block_id (8 ∷ front) ≡ parsed none
unfolding height_from_block_id parse
height_from_block_id-cut v front b back e =
    ap (λ h. parsed (as_number h)) (read_height-cut 9 v 0 1 front b back e)
