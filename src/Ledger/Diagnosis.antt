-- ===== src/Ledger/Diagnosis.antt =====
-- A refusal names the rule that refused: `whyBlocked` asks again what RESERVE_SQL asked.
use zcash_faucet.Base.{
  ℕ, ◌+◌, ◌<◌, ◌≡◌, refl, sym, ◌∙◌, subst, ◌⊎◌, inl, inr, Bool, true, false, not, String, str_eq,
  Option, none, some, List, [], ◌∷◌, ◌++◌, arith, any, Bool-cases, ltb,
}
use zcash_faucet.Ledger.{
  Claim, Ledger, ReserveParams, address_row, address_free, ip_free, subnet_free, cap_free, admits,
  reserve, purge, new_claim,
}
use zcash_faucet.Ledger.Calls.{
  Refusal, cooldown, cap, subnet, address, connection, latest, why_blocked, truthy, ReserveOpts,
  reserved, refused, newer, reserve_claim, reserve_params, or_empty,
}

newer-holds :
    (p : Claim → Bool) (c : Claim) (rest : Option Claim)
    → p c ≡ true
    → (rest ≡ none) ⊎ ((d : Claim) × (rest ≡ some d) × (p d ≡ true))
    → p (newer c rest) ≡ true
newer-holds p c rest h (inl e) = rw e h
newer-holds p c rest h (inr (d, e, k)) = rw e (elim (Bool-cases (ltb c.created_at d.created_at)) [
  | inl later ↦ rw later k
  | inr earlier ↦ rw earlier h
])

-- A query for one row answers exactly when there is one, with a row that matches.
pub latest-cases :
    (p : Claim → Bool) (cs : List Claim)
    → ((latest p cs ≡ none) × (any p cs ≡ false))
      ⊎ ((c : Claim) × (latest p cs ≡ some c) × (any p cs ≡ true) × (p c ≡ true))
unfolding latest
latest-cases p [] = inl (refl, refl)
latest-cases p (c ∷ cs) = step (latest-cases p cs)
  where
    found :
        ((latest p cs ≡ none) × (any p cs ≡ false))
          ⊎ ((d : Claim) × (latest p cs ≡ some d) × (any p cs ≡ true) × (p d ≡ true))
        → (latest p cs ≡ none) ⊎ ((d : Claim) × (latest p cs ≡ some d) × (p d ≡ true))
    found (inl (e, _)) = inl e
    found (inr (d, e, _, k)) = inr (d, e, k)

    step :
        ((latest p cs ≡ none) × (any p cs ≡ false))
          ⊎ ((d : Claim) × (latest p cs ≡ some d) × (any p cs ≡ true) × (p d ≡ true))
        → ((latest p (c ∷ cs) ≡ none) × (any p (c ∷ cs) ≡ false))
          ⊎ ((d : Claim) × (latest p (c ∷ cs) ≡ some d) × (any p (c ∷ cs) ≡ true) × (p d ≡ true))
    step ih = elim (Bool-cases (p c)) [
      | inl hit ↦
          inr (newer c (latest p cs), rw hit, rw hit, newer-holds p c (latest p cs) hit (found ih))
      | inr miss ↦ rw miss ih
    ]

-- The first rule, in the order of the statement, that does not let the claim pass.
abbrev pub Explains : ReserveParams → List Claim → Refusal → Type 0
Explains o cs r =
    ((address_free o cs ≡ false) × (r.kind ≡ cooldown) × (r.scope ≡ some address))
    ⊎ ((address_free o cs ≡ true)
        × (ip_free o cs ≡ false)
        × (r.kind ≡ cooldown)
        × (r.scope ≡ some connection))
    ⊎ ((address_free o cs ≡ true)
        × (ip_free o cs ≡ true)
        × (subnet_free o cs ≡ false)
        × (r.kind ≡ subnet)
        × (r.scope ≡ none))
    ⊎ ((address_free o cs ≡ true)
        × (ip_free o cs ≡ true)
        × (subnet_free o cs ≡ true)
        × (cap_free o cs ≡ false)
        × (r.kind ≡ cap)
        × (r.scope ≡ none))

pub why_blocked-Explains :
    (o : ReserveParams) (cs : List Claim) (has_ip has_subnet : Bool)
    → 0 < o.ip_daily_max
    → has_ip ≡ not (str_eq o.ip_hash "")
    → has_subnet ≡ not (str_eq o.subnet_hash "")
    → admits o cs ≡ false
    → Explains o cs (why_blocked o has_ip has_subnet cs)
unfolding why_blocked admits address_free ip_free subnet_free cap_free
why_blocked-Explains o cs has_ip has_subnet h i k e =
    ground (
      arith,
      latest-cases (address_row o.address_hash o.network o.cooldown_seconds o.lease o.now) cs,
    )

truthy-or_empty : (h : Option String) → truthy h ≡ not (str_eq (or_empty h) "")
truthy-or_empty none = refl
truthy-or_empty (some s) = refl

module _ (fingerprint_address : String → String) (lease : ℕ) (o : ReserveOpts) (l : Ledger) where
  abbrev asked : ReserveParams
  asked = reserve_params fingerprint_address lease o

  abbrev kept : List Claim
  kept = purge o.cooldown_seconds lease o.now l.claims

  pub reserve_claim_grants :
      admits asked kept ≡ true
      → reserve_claim fingerprint_address lease o l ≡ (
        record l { claims = kept ++ new_claim asked l.next_id ∷ []; next_id = l.next_id + 1 },
        reserved l.next_id,
      )
  unfolding reserve_claim reserve
  reserve_claim_grants free = rw free

  pub reserve_claim_refuses :
      admits asked kept ≡ false
      → reserve_claim fingerprint_address lease o l ≡ (
        record l { claims = kept },
        refused (why_blocked asked (truthy o.ip_hash) (truthy o.subnet_hash) kept),
      )
  unfolding reserve_claim reserve
  reserve_claim_refuses full = rw full

  refused-Explains :
      (l' : Ledger) (r : Refusal) (b : Bool)
      → admits asked kept ≡ b
      → 0 < o.ip_daily_max
      → reserve_claim fingerprint_address lease o l ≡ (l', refused r)
      → Explains asked kept r
  refused-Explains l' r true free h e = absurd (cc (sym (reserve_claim_grants free) ∙ e))
  refused-Explains l' r false full h e = subst (Explains asked kept) same (
      why_blocked-Explains asked kept (truthy o.ip_hash) (truthy o.subnet_hash) h
        (truthy-or_empty o.ip_hash) (truthy-or_empty o.subnet_hash) full)
    where
      same : why_blocked asked (truthy o.ip_hash) (truthy o.subnet_hash) kept ≡ r
      same = cc (sym (reserve_claim_refuses full) ∙ e)

  -- When `reserve_claim` refuses, the refusal's kind and scope name the first of the four rules,
  -- in the order address, connection, subnet, cap, that the rows left after the purge do not
  -- pass, provided that the limit per IP is positive.
  pub reserve_claim-Explains :
      (l' : Ledger) (r : Refusal)
      → 0 < o.ip_daily_max
      → reserve_claim fingerprint_address lease o l ≡ (l', refused r)
      → Explains asked kept r
  reserve_claim-Explains l' r h e = refused-Explains l' r (admits asked kept) refl h e
