-- ===== src/Pow/Escalation.antt =====
-- src/lib/pow.ts: an attempt costs the client's next challenge.
use zcash_faucet.Base.{
  ℕ, ◌+◌, ◌*◌, ◌≤◌, ◌≡◌, refl, min, String, eq_refl, Option, none, some, List, [], ◌∷◌, ◌++◌, ◌⊎◌,
  inr, arith, length,
}
use zcash_faucet.Base.Map.{insert, lookup-insert}
use zcash_faucet.Pow.Gate.{
  PowConfig, Attempts, attempts_of, range_of, prune, pressure_of, solvable_ceiling, difficulty_for,
  record_request,
}

length-snoc : (ts : List ℕ) (t : ℕ) → length (ts ++ t ∷ []) ≡ length ts + 1
length-snoc [] t = ground arith
length-snoc (u ∷ ts) t = ground (arith, length-snoc ts t)

-- A live attempt at the end is kept, and is one more.
length-prune_snoc :
    (window now t : ℕ) (ts : List ℕ)
    → now ≤ t + window
    → length (prune window now (ts ++ t ∷ [])) ≡ length (prune window now ts) + 1
unfolding prune
length-prune_snoc window now t [] h = ground arith
length-prune_snoc window now t (u ∷ ts) h =
    ground (arith, length-prune_snoc window now t ts h, length-snoc ts t)

-- Pruning early changes nothing of a later pruning.
prune-prune :
    (window t now : ℕ) (ts : List ℕ)
    → t ≤ now
    → prune window now (prune window t ts) ≡ prune window now ts
unfolding prune
prune-prune window t now [] h = refl
prune-prune window t now (u ∷ ts) h = ground (arith, prune-prune window t now ts h)

pressure_of_mono : (window m : ℕ) → pressure_of window m ≤ pressure_of window (m + 1)
pressure_of_mono window m = ground arith

-- One more attempt is one more escalation, under the same top.
raised :
    (top base e r r' p p' : ℕ)
    → r' ≡ r + 1
    → p ≤ p'
    → min top (min top (base + r * e + p) + e) ≤ min top (base + r' * e + p')
raised top base e r r' p p' more mono = rw more (grind arith)

module _ (c : PowConfig) (a : Attempts) (ip_hash : String) (t now : ℕ) (past : t ≤ now)
    (live : now ≤ t + c.window_ms)
    (few : length (insert ip_hash (attempts_of ip_hash a.per_ip ++ t ∷ []) a.per_ip) ≤ 5_000) where
  mine-more :
      (subnet_hash : Option String)
      → length (
          prune c.window_ms now
            (attempts_of ip_hash (record_request c ip_hash subnet_hash t a).per_ip))
        ≡ length (prune c.window_ms now (attempts_of ip_hash a.per_ip)) + 1
  unfolding record_request
  mine-more subnet_hash = ground (
    arith,
    few,
    lookup-insert ip_hash ip_hash (attempts_of ip_hash a.per_ip ++ t ∷ []) a.per_ip,
    eq_refl ip_hash,
    length-prune_snoc c.window_ms now t (attempts_of ip_hash a.per_ip) live,
  )

  -- The subnet's range, if the client has one, holds one more as well.
  range-more :
      (subnet_hash : Option String)
      → (length (
            prune c.window_ms now (range_of subnet_hash (record_request c ip_hash subnet_hash t a)))
          ≡ length (prune c.window_ms now (range_of subnet_hash a)) + 1)
        ⊎ ((length (prune c.window_ms now (range_of subnet_hash a)) ≡ 0)
            × (length (
                  prune c.window_ms now
                    (range_of subnet_hash (record_request c ip_hash subnet_hash t a)))
                ≡ 0))
  unfolding record_request prune
  range-more none = inr (refl, refl)
  range-more (some subnet) = ground (
    arith,
    lookup-insert subnet subnet (prune c.window_ms t (attempts_of subnet a.per_subnet) ++ t ∷ [])
        a.per_subnet,
    eq_refl subnet,
    length-prune_snoc c.window_ms now t (prune c.window_ms t (attempts_of subnet a.per_subnet))
        live,
    prune-prune c.window_ms t now (attempts_of subnet a.per_subnet) past,
  )

  more-pressure :
      (subnet_hash : Option String)
      → pressure_of c.window_ms (length (prune c.window_ms now a.global))
        ≤ pressure_of c.window_ms
            (length (prune c.window_ms now (record_request c ip_hash subnet_hash t a).global))
  unfolding record_request
  more-pressure subnet_hash =
      rw (length-prune_snoc c.window_ms now t a.global live)
        (pressure_of_mono c.window_ms (length (prune c.window_ms now a.global)))

  -- An attempt that counts raises what the client's next challenge asks for by a whole escalation,
  -- up to the two ceilings, while the window lasts and the table has not grown past its cleanup.
  pub record_request-escalates :
      (subnet_hash : Option String)
      → min
          (min c.max_bits (solvable_ceiling c))
          (difficulty_for c a ip_hash subnet_hash now + c.escalate_bits)
        ≤ difficulty_for c (record_request c ip_hash subnet_hash t a) ip_hash subnet_hash now
  unfolding difficulty_for
  record_request-escalates subnet_hash =
      raised (min c.max_bits (solvable_ceiling c)) c.base_bits c.escalate_bits _ _ _ _
        (omega (arith, mine-more subnet_hash, range-more subnet_hash)) (more-pressure subnet_hash)
