-- ===== src/Ledger/Safety.antt =====
-- The four limits hold at every moment of every history.
use zcash_faucet.Base.{
  ℕ, ◌+◌, ◌≤◌, ◌<◌, ◌≡◌, ◌≢◌, refl, inl, inr, Bool, true, false, not, String, eq_iff, Option, some,
  List, [], ◌∷◌, ◌++◌, arith, All, total, total-keep-le, total-snoc, Bool-cases,
  count-eq-zero_of_any, ◌⊎◌,
}
use zcash_faucet.Network.{Network, same_network, taz, ctaz}
use zcash_faucet.Ledger.{
  Claim, Ledger, ReserveParams, address_free, ip_free, subnet_free, cap_free, admits, new_claim,
  reserve, purge,
}
use zcash_faucet.Ledger.Calls.{
  Ending, status_of, or_null, reserve_params, reserve_claim, finalize_claim, spend_challenge,
}
use zcash_faucet.Ledger.Limits.{
  Policy, Visit, claim_opts, Rule, by_address, by_ip, by_subnet, by_cap, weight, usage, limit,
  Applies, IsWithinLimits,
}
use zcash_faucet.Ledger.Totals.{usage_anti, usage-set_status, IsOpen}
use zcash_faucet.Ledger.Steps.{State, Step, reserves, settles, burns, waits, Reach, starts, next}

pub same_network-eq : (m n : Network) → same_network m n ≡ true → m ≡ n
same_network-eq taz taz h = refl
same_network-eq ctaz ctaz h = refl
same_network-eq taz ctaz h = cc
same_network-eq ctaz taz h = cc

not-eq-true : (b : Bool) → not b ≡ true → b ≡ false
not-eq-true true h = cc
not-eq-true false h = refl

admits-parts :
    (o : ReserveParams) (cs : List Claim)
    → admits o cs ≡ true
    → (address_free o cs ≡ true)
      × (ip_free o cs ≡ true)
      × (subnet_free o cs ≡ true)
      × (cap_free o cs ≡ true)
unfolding admits
admits-parts o cs h = ground arith

module _ (fingerprint_address : String → String) (p : Policy) (v : Visit) (t : ℕ) where
  abbrev asked : ReserveParams
  asked = reserve_params fingerprint_address p.lease (claim_opts p v t)

  module _ (cs : List Claim) (free : admits asked cs ≡ true) where
    address_room :
        (a : String) (n : Network)
        → asked.address_hash ≡ a
        → v.network ≡ n
        → usage p t (by_address a n) cs ≡ 0
    unfolding address_free
    address_room a n ea en =
        rw (← ea, ← en) (count-eq-zero_of_any _ cs (not-eq-true _ (admits-parts asked cs free).0))

    ip_room :
        (ip : String) (n : Network)
        → asked.ip_hash ≡ ip
        → v.network ≡ n
        → ip ≢ ""
        → usage p t (by_ip ip n) cs < p.ip_daily_max
    unfolding ip_free
    ip_room ip n ei en ne =
        rw (← ei, ← en) (ground (arith, eq_iff asked.ip_hash "", (admits-parts asked cs free).1))

    subnet_room :
        (s : String)
        → asked.subnet_hash ≡ s
        → s ≢ ""
        → usage p t (by_subnet s) cs < p.subnet_daily_max
    unfolding subnet_free
    subnet_room s es ne =
        rw (← es) (ground (arith, eq_iff asked.subnet_hash "", (admits-parts asked cs free).2))

    cap_room :
        (n : Network) → v.network ≡ n → usage p t (by_cap n) cs + v.amount_zat ≤ p.daily_cap n
    unfolding cap_free
    cap_room n en = rw (← en) (ground (arith, (admits-parts asked cs free).3))

    -- A rule gives the new row no weight, or has room for it.
    fits :
        (id : ℕ) (r : Rule)
        → Applies r
        → (weight p t r (new_claim asked id) ≡ 0)
          ⊎ (usage p t r cs + weight p t r (new_claim asked id) ≤ limit p r)
    fits id (by_address a n) known =
        ground (arith, eq_iff asked.address_hash a, same_network-eq v.network n, address_room a n)
    fits id (by_ip ip n) known =
        ground (arith, eq_iff asked.ip_hash ip, same_network-eq v.network n, ip_room ip n)
    fits id (by_subnet s) known = ground (arith, eq_iff asked.subnet_hash s, subnet_room s)
    fits id (by_cap n) known = ground (arith, same_network-eq v.network n, cap_room n)

    insert-IsWithinLimits :
        (id : ℕ) → IsWithinLimits p t cs → IsWithinLimits p t (cs ++ new_claim asked id ∷ [])
    insert-IsWithinLimits id w r known =
        rw (total-snoc (weight p t r) cs (new_claim asked id))
          (ground (arith, fits id r known, w r known))

  purge-IsWithinLimits :
      (l : List Claim) → IsWithinLimits p t l → IsWithinLimits p t (purge p.cooldown p.lease t l)
  unfolding purge
  purge-IsWithinLimits l w r known = omega (arith, w r known, total-keep-le (weight p t r) _ l)

  -- A reservation, granted or refused, keeps every limit.
  pub reserve_claim-IsWithinLimits :
      (l : Ledger)
      → IsWithinLimits p t l.claims
      → IsWithinLimits p t (reserve_claim fingerprint_address p.lease (claim_opts p v t) l).0.claims
  unfolding reserve_claim
  reserve_claim-IsWithinLimits l w = elim (Bool-cases (admits asked kept)) [
    | inl free ↦
        rw (free, reserve)
          (insert-IsWithinLimits kept free l.next_id (purge-IsWithinLimits l.claims w))
    | inr full ↦ rw (full, reserve) (purge-IsWithinLimits l.claims w)
  ]
    where
      kept : List Claim
      kept = purge p.cooldown p.lease t l.claims

finalize_claim-IsWithinLimits :
    (p : Policy) (t id : ℕ) (e : Ending) (txid : Option String) (no_txid : Bool) (day : String)
    (n : Network) (l l' : Ledger)
    → All (IsOpen p.lease t id) l.claims
    → finalize_claim id e txid no_txid day n l ≡ some l'
    → IsWithinLimits p t l.claims
    → IsWithinLimits p t l'.claims
unfolding finalize_claim
finalize_claim-IsWithinLimits p t id e txid no_txid day n l l' o f w r known =
    ground (arith, usage-set_status p t r id (status_of e) (or_null txid) l.claims o, w r known)

spend_challenge-claims :
    (sig : String) (exp now : ℕ) (l : Ledger) → (spend_challenge sig exp now l).0.claims ≡ l.claims
unfolding spend_challenge
spend_challenge-claims sig exp now l = ground arith

module _ (fingerprint_address : String → String) (p : Policy) where
  Step-IsWithinLimits :
      (s s' : State)
      → Step fingerprint_address p s s'
      → IsWithinLimits p s.clock s.ledger.claims
      → IsWithinLimits p s'.clock s'.ledger.claims
  Step-IsWithinLimits s s' (reserves v e) w =
      rw e (reserve_claim-IsWithinLimits fingerprint_address p v s.clock s.ledger w)
  Step-IsWithinLimits s s' (settles id e txid no_txid day n o f c) w =
      rw c
        (finalize_claim-IsWithinLimits p s.clock id e txid no_txid day n s.ledger s'.ledger o f w)
  Step-IsWithinLimits s s' (burns sig exp e) w =
      rw (e, spend_challenge-claims sig exp s.clock s.ledger) w
  Step-IsWithinLimits s s' (waits h e) w =
      λ r known. rw e (omega (arith, w r known, usage_anti p s.clock s'.clock r s.ledger.claims h))

  Reach-IsWithinLimits :
      {s : State} → Reach fingerprint_address p s → IsWithinLimits p s.clock s.ledger.claims
  unfolding total
  Reach-IsWithinLimits (starts now) = λ r _. omega arith
  Reach-IsWithinLimits (next {s} {t} reach st) =
      Step-IsWithinLimits s t st (Reach-IsWithinLimits reach)

  -- In every history of reservations, sends that settle within their lease, burnt proofs and
  -- passing time, at every moment: one address holds at most one live claim on a network, a known
  -- IP at most its number of live claims on a network, a known subnet at most its number of
  -- claims of the day over both networks, and the claims of the day on a network add up to at
  -- most its cap.
  pub Reach-usage-le :
      {s : State} (r : Rule)
      → Reach fingerprint_address p s
      → Applies r
      → usage p s.clock r s.ledger.claims ≤ limit p r
  Reach-usage-le r reach known = Reach-IsWithinLimits reach r known
