-- ===== src/Tips/References/Highest.antt =====
-- The height that a node is judged against is that of the highest reference that is not stale.
use zcash_faucet.Base.{
  ℕ, ◌≡◌, refl, true, false, Option, none, some, List, [], ◌∷◌, if◌then◌else◌, arith, All,
  Option-cases,
}
use zcash_faucet.Base.Map.{is_some}
use zcash_faucet.Tips.References.{
  ReferenceName, Source, Sources, Agreement, same_name, find_source, set_source, references_at,
  fresh_sources, heights, highest, leader, used_of, height_of, get_tip_references, reference_tip_at,
}

-- One entry to a name.
abbrev pub HasOneEach : Sources → Type 0
HasOneEach [] = Unit
HasOneEach ((n, v) ∷ rest) = (is_some (find_source n rest) ≡ false) × HasOneEach rest

same_name→eq : (m n : ReferenceName) → same_name m n ≡ true → m ≡ n
same_name→eq ReferenceName.hosh ReferenceName.hosh e = refl
same_name→eq ReferenceName.lightwalletd ReferenceName.lightwalletd e = refl
same_name→eq ReferenceName.hosh ReferenceName.lightwalletd e = cc
same_name→eq ReferenceName.lightwalletd ReferenceName.hosh e = cc

same_name_refl : (n : ReferenceName) → same_name n n ≡ true
same_name_refl ReferenceName.hosh = refl
same_name_refl ReferenceName.lightwalletd = refl

find-set :
    (name n : ReferenceName) (v : Source) (m : Sources)
    → find_source n (set_source name v m) ≡ (if same_name name n then some v else find_source n m)
unfolding set_source
find-set name n v [] = refl
find-set name n v ((k, w) ∷ rest) = ground (
  arith,
  same_name→eq name n,
  same_name→eq k name,
  same_name→eq k n,
  same_name_refl name,
  find-set name n v rest,
)

pub set_source-HasOneEach :
    (name : ReferenceName) (v : Source) (m : Sources)
    → HasOneEach m
    → HasOneEach (set_source name v m)
unfolding set_source
set_source-HasOneEach name v [] d = (refl, tt)
set_source-HasOneEach name v ((k, w) ∷ rest) (d, ds) = ground (
  arith,
  same_name→eq k name,
  same_name→eq name k,
  find-set name k v rest,
  set_source-HasOneEach name v rest ds,
)

abbrev Found : Sources → Sources → Type 0
Found raw = All (λ e. find_source e.0 raw ≡ some e.1)

Found-behind :
    (n : ReferenceName) (v : Source) (rest part : Sources)
    → is_some (find_source n rest) ≡ false
    → Found rest part
    → Found ((n, v) ∷ rest) part
Found-behind n v rest [] d f = tt
Found-behind n v rest ((k, w) ∷ part) d (f, fs) =
    (ground (arith, same_name→eq n k), Found-behind n v rest part d fs)

Found-each : (raw : Sources) → HasOneEach raw → Found raw raw
Found-each [] d = tt
Found-each ((n, v) ∷ rest) (d, ds) =
    (ground (arith, same_name_refl n), Found-behind n v rest rest d (Found-each rest ds))

Found-keep :
    (raw : Sources) (now : ℕ) (part : Sources) → Found raw part → Found raw (fresh_sources now part)
Found-keep raw now [] f = tt
Found-keep raw now ((k, w) ∷ part) (f, fs) = ground (arith, Found-keep raw now part fs)

height_of-references :
    (raw : Sources) (now : ℕ) (n : ReferenceName) (v : Source)
    → find_source n raw ≡ some v
    → height_of n (references_at now raw) ≡ some (v.height)
height_of-references [] now n v e = cc
height_of-references ((k, w) ∷ rest) now n v e = ground (arith, height_of-references rest now n v)

leader-highest :
    (raw : Sources) (now : ℕ) (name : ReferenceName) (v : Source) (rest : Sources)
    → find_source name raw ≡ some v
    → Found raw rest
    → height_of (leader name v.height rest) (references_at now raw)
      ≡ some (highest v.height (heights rest))
unfolding leader
leader-highest raw now name v [] e f = height_of-references raw now name v e
leader-highest raw now name v ((k, w) ∷ rest) e (f, fs) =
    ground (arith, leader-highest raw now name v rest e fs, leader-highest raw now k w rest f fs)

-- The greatest of the heights, null for none.
abbrev pub highest_of : List ℕ → Option ℕ
highest_of [] = none
highest_of (h ∷ hs) = some (highest h hs)

used-highest :
    (raw : Sources) (now : ℕ) (fresh : Sources)
    → Found raw fresh
    → (elim (used_of fresh) [ none ↦ none | some name ↦ height_of name (references_at now raw) ])
      ≡ highest_of (heights fresh)
used-highest raw now [] f = refl
used-highest raw now ((n, v) ∷ rest) (f, fs) = leader-highest raw now n v rest f fs

-- The height to judge a node against is the greatest height among the sources whose last answer
-- is at most five minutes old, and null when there is none; it is the height beside `used` too.
pub reference_tip_at-highest :
    (a : Agreement) (raw : Sources) (now : ℕ)
    → HasOneEach raw
    → ((reference_tip_at a raw now).height ≡ highest_of (heights (fresh_sources now raw)))
      × ((get_tip_references a raw now).used_height ≡ (reference_tip_at a raw now).height)
unfolding reference_tip_at get_tip_references
reference_tip_at-highest a raw now d =
    let found : Found raw (fresh_sources now raw) = Found-keep raw now raw (Found-each raw d) in
    let same = used-highest raw now (fresh_sources now raw) found in
    ground (arith, same, Option-cases (used_of (fresh_sources now raw)))
