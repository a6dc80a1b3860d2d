-- ===== src/Tips/References/Rate.antt =====
-- The tolerance in blocks, which is published, against the tolerance in seconds, which decides.
use native.Mathlib.Nat.{le-div_iff_mul-le, div-lt_iff_lt-mul, mul-le-mul_left}
use zcash_faucet.Base.{
  ℕ, zero, suc, ◌+◌, ◌*◌, ◌/◌, ◌≤◌, ◌<◌, ◌≡◌, refl, subst, Bool, true, false, Option, none, some,
  leb, ◌==◌, arith,
}
use zcash_faucet.Tips.References.{
  Agreement, Sources, pool, observed_seconds_per_block, plausible_rate, fresh_sources, seconds_of,
  corroboration, tolerance, get_tip_references,
}

nonzero : (c : ℕ) → 100 ≤ c → (c == 0) ≡ false
nonzero c h = ground arith

at_most : (n d q : ℕ) → 1 ≤ d → n < (q + 1) * d → n / d ≤ q
at_most n d q h lt = omega (arith, (div-lt_iff_lt-mul {k = d} {x = n} {y = q + 1} h).1 lt)

at_least : (n d q : ℕ) → 1 ≤ d → q * d ≤ n → q ≤ n / d
at_least n d q h le = (le-div_iff_mul-le {k = d} {x = q} {y = n} h).1 le

below : (n d q : ℕ) → 1 ≤ d → q ≤ n / d → q * d ≤ n
below n d q h le = (le-div_iff_mul-le {k = d} {x = q} {y = n} h).0 le

rounded_least :
    (millis blocks : ℕ)
    → 1 ≤ blocks
    → 1000 * blocks ≤ millis
    → 100 ≤ (2 * millis + 10 * blocks) / (20 * blocks)
rounded_least millis blocks h le =
    at_least (2 * millis + 10 * blocks) (20 * blocks) 100 (omega arith) (omega arith)

-- A rate that counts is at least a second a block.
plausible_rate-least :
    (s : Sources) (c : ℕ) → plausible_rate (observed_seconds_per_block s) ≡ some c → 100 ≤ c
plausible_rate-least s c e = ground (arith, rounded_least (pool s).1 (pool s).0)

tolerance_eq :
    (a : Agreement) (c : ℕ) → 100 ≤ c → tolerance a (some c) ≡ (200 * a.agree_seconds + c) / (2 * c)
tolerance_eq a c h = rw (nonzero c h) refl

tolerance-le : (a : Agreement) (c : ℕ) → 100 ≤ c → tolerance a (some c) ≤ a.agree_seconds
tolerance-le a c h = rw (tolerance_eq a c h) (
    at_most (200 * a.agree_seconds + c) (2 * c) a.agree_seconds (omega arith)
      (omega (arith, mul-le-mul_left a.agree_seconds h)))

agreed_within :
    (a : Agreement) (b c : ℕ)
    → 100 ≤ c
    → (b * c + 50) / 100 ≤ a.agree_seconds
    → b ≤ tolerance a (some c) + 1
agreed_within a zero c h e = omega arith
agreed_within a (suc b) c h e =
    let scaled : suc b * c ≤ 100 * a.agree_seconds + 49 = omega arith in
    rw (tolerance_eq a c h)
      (omega (arith, at_least (200 * a.agree_seconds + c) (2 * c) b (omega arith) (omega arith)))

within_agreed :
    (a : Agreement) (b c : ℕ)
    → 100 ≤ c
    → b + 1 ≤ tolerance a (some c)
    → (b * c + 50) / 100 ≤ a.agree_seconds
within_agreed a b c h e = omega (
  arith,
  below (200 * a.agree_seconds + c) (2 * c) (b + 1) (omega arith)
      (omega (arith, tolerance_eq a c h)),
)

-- What the published tolerance `agree` promises of a verdict on a spread of b blocks.
abbrev pub Bounds : Agreement → Option ℕ → ℕ → ℕ → Bool → Type 0
Bounds a none b agree verdict = verdict ≡ leb b agree
Bounds a (some c) b agree verdict =
    (verdict ≡ true → b ≤ agree + 1) × (b + 1 ≤ agree → verdict ≡ true) × (agree ≤ a.agree_seconds)

Bounds-at :
    (a : Agreement) (rate : Option ℕ) (b : ℕ) (verdict : Bool)
    → ((c : ℕ) → rate ≡ some c → 100 ≤ c)
    → corroboration a (some b) (seconds_of (some b) rate) ≡ some verdict
    → Bounds a rate b (tolerance a rate) verdict
Bounds-at a none b verdict least e = ground arith
Bounds-at a (some c) b verdict least e = (
  λ t. agreed_within a b c (least c refl) (ground arith),
  λ t. ground (arith, within_agreed a b c (least c refl) t),
  tolerance-le a c (least c refl),
)

-- The tolerance in blocks that is published stands for the rule in seconds that decides: without
-- a rate the two are one; with one, references that corroborate are at most a block further apart
-- than the tolerance, those that are at least a block closer corroborate, and the tolerance is at
-- most as many blocks as the configured seconds, whatever the sources report.
pub get_tip_references-Bounds :
    (a : Agreement) (raw : Sources) (now b : ℕ) (verdict : Bool)
    → (get_tip_references a raw now).spread_blocks ≡ some b
    → (get_tip_references a raw now).corroborated ≡ some verdict
    → Bounds a
        (get_tip_references a raw now).seconds_per_block
        b
        (get_tip_references a raw now).agree_blocks
        verdict
unfolding get_tip_references
get_tip_references-Bounds a raw now b verdict eb ev =
    let rate : Option ℕ = plausible_rate (observed_seconds_per_block (fresh_sources now raw)) in
    Bounds-at a rate b verdict (plausible_rate-least (fresh_sources now raw))
      (subst (λ (o : Option ℕ). corroboration a o (seconds_of o rate) ≡ some verdict) eb ev)
