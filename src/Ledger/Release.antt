-- ===== src/Ledger/Release.antt =====
-- A failed send gives everything back: the claim that it releases weighs on no rule.
use zcash_faucet.Base.{
  ℕ, ◌<◌, ◌≡◌, refl, Bool, false, ◌||◌, String, Option, none, some, List, [], ◌∷◌, ◌++◌, arith, All,
  any, keep, total-snoc, if◌then◌else◌, one_if,
}
use zcash_faucet.Ledger.{
  Claim, Ledger, ReserveParams, Status, failed, address_row, ip_row, subnet_row, cap_row,
  address_free, ip_free, subnet_free, cap_free, admits, new_claim, purge, reserve, set_status,
}
use zcash_faucet.Ledger.Calls.{as_failed, finalize_claim}

-- Every row's id is below the next one.
abbrev pub IsFresh : ℕ → List Claim → Type 0
IsFresh n = All λ c. c.id < n

set_status_fresh :
    (id : ℕ) (s : Status) (txid : Option String) (cs : List Claim)
    → IsFresh id cs
    → set_status id s txid cs ≡ cs
unfolding set_status
set_status_fresh id s txid [] h = refl
set_status_fresh id s txid (c ∷ cs) (h, hs) = ground (arith, set_status_fresh id s txid cs hs)

pub set_status-snoc :
    (id : ℕ) (s : Status) (txid : Option String) (cs : List Claim) (c : Claim)
    → IsFresh id cs
    → c.id ≡ id
    → set_status id s txid (cs ++ c ∷ []) ≡ cs ++ record c { status = s; txid = txid } ∷ []
unfolding set_status
set_status-snoc id s txid [] c h e = ground arith
set_status-snoc id s txid (d ∷ cs) c (h, hs) e = ground (arith, set_status-snoc id s txid cs c hs e)

pub any-snoc :
    (p : Claim → Bool) (cs : List Claim) (c : Claim) → any p (cs ++ c ∷ []) ≡ (any p cs || p c)
any-snoc p [] c = ground arith
any-snoc p (d ∷ cs) c = ground (arith, any-snoc p cs c)

-- A failed row at the end is as no row.
admits_failed :
    (o : ReserveParams) (cs : List Claim) (c : Claim)
    → c.status ≡ failed
    → admits o (cs ++ c ∷ []) ≡ admits o cs
unfolding admits address_free ip_free subnet_free cap_free
admits_failed o cs c e = ground (
  arith,
  any-snoc (address_row o.address_hash o.network o.cooldown_seconds o.lease o.now) cs c,
  total-snoc (λ (d : Claim). one_if (ip_row o.ip_hash o.network o.cooldown_seconds o.lease o.now d))
      cs c,
  total-snoc (λ (d : Claim). one_if (subnet_row o.subnet_hash o.lease o.now d)) cs c,
  total-snoc (λ (d : Claim). if cap_row o.network o.lease o.now d then d.amount_zat else 0) cs c,
)

IsFresh-keep : (n : ℕ) (p : Claim → Bool) (cs : List Claim) → IsFresh n cs → IsFresh n (keep p cs)
IsFresh-keep n p [] h = h
IsFresh-keep n p (c ∷ cs) (h, hs) = ground (arith, h, IsFresh-keep n p cs hs)

pub IsFresh-purge :
    (n cooldown lease now : ℕ) (cs : List Claim)
    → IsFresh n cs
    → IsFresh n (purge cooldown lease now cs)
unfolding purge
IsFresh-purge n cooldown lease now cs h = IsFresh-keep n _ cs h

-- After a reservation whose send fails, every request, from anybody and at any time, is admitted
-- or refused as if the reservation had never been made.
pub reserve-finalize_failed :
    (o next : ReserveParams) (l l' l'' : Ledger) (id : ℕ) (day : String)
    → IsFresh l.next_id l.claims
    → reserve o l ≡ (l', some id)
    → finalize_claim id as_failed none false day o.network l' ≡ some l''
    → admits next l''.claims ≡ admits next l.claims
unfolding reserve finalize_claim
reserve-finalize_failed o next l l' l'' id day fresh r f = ground (
  arith,
  set_status-snoc l.next_id failed none l.claims (new_claim o l.next_id) fresh refl,
  admits_failed next l.claims (record (new_claim o l.next_id) { status = failed }) refl,
)
