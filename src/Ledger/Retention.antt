-- ===== src/Ledger/Retention.antt =====
-- Data minimisation costs nobody a rule: what the purge deletes counts for nothing, now or later.
use zcash_faucet.Base.{
  ℕ, ◌+◌, ◌*◌, ◌≤◌, ◌≡◌, refl, Bool, true, false, not, String, List, [], ◌∷◌, arith, any, keep,
  total-keep, ltb, if◌then◌else◌, one_if,
}
use zcash_faucet.Network.{Network}
use zcash_faucet.Ledger.{
  Claim, ReserveParams, address_row, ip_row, subnet_row, cap_row, address_free, ip_free,
  subnet_free, cap_free, admits, purge, retention_seconds, pending_lease_seconds,
}

module _ (cooldown lease now u : ℕ) (le : now ≤ u) where
  abbrev stale : Claim → Bool
  stale c = ltb (c.created_at + retention_seconds cooldown lease) now

  address_row-stale :
      (a : String) (n : Network) (c : Claim)
      → not (stale c) ≡ false
      → address_row a n cooldown lease u c ≡ false
  unfolding retention_seconds
  address_row-stale a n c h = ground arith

  ip_row-stale :
      (ip : String) (n : Network) (c : Claim)
      → not (stale c) ≡ false
      → one_if (ip_row ip n cooldown lease u c) ≡ 0
  unfolding retention_seconds
  ip_row-stale ip n c h = ground arith

  subnet_row-stale :
      (s : String) (c : Claim) → not (stale c) ≡ false → one_if (subnet_row s lease u c) ≡ 0
  unfolding retention_seconds
  subnet_row-stale s c h = ground arith

  cap_row-stale :
      (n : Network) (c : Claim)
      → not (stale c) ≡ false
      → (if cap_row n lease u c then c.amount_zat else 0) ≡ 0
  unfolding retention_seconds
  cap_row-stale n c h = ground arith

any-keep :
    (p q : Claim → Bool) (cs : List Claim)
    → ((c : Claim) → q c ≡ false → p c ≡ false)
    → any p (keep q cs) ≡ any p cs
any-keep p q [] h = refl
any-keep p q (c ∷ cs) h = ground (arith, h c, any-keep p q cs h)

-- Deleting the rows past retention, at any earlier time, changes no decision of RESERVE_SQL: a
-- claim is admitted by the purged rows exactly when the full table admits it.
pub admits-purge :
    (o : ReserveParams) (cs : List Claim) (earlier : ℕ)
    → earlier ≤ o.now
    → admits o (purge o.cooldown_seconds o.lease earlier cs) ≡ admits o cs
unfolding admits address_free ip_free subnet_free cap_free purge
admits-purge o cs earlier h = ground (
  arith,
  any-keep (address_row o.address_hash o.network o.cooldown_seconds o.lease o.now) recent cs
      (address_row-stale o.cooldown_seconds o.lease earlier o.now h o.address_hash o.network),
  total-keep (λ (c : Claim). one_if (ip_row o.ip_hash o.network o.cooldown_seconds o.lease o.now c))
      recent cs (ip_row-stale o.cooldown_seconds o.lease earlier o.now h o.ip_hash o.network),
  total-keep (λ (c : Claim). one_if (subnet_row o.subnet_hash o.lease o.now c)) recent cs
      (subnet_row-stale o.cooldown_seconds o.lease earlier o.now h o.subnet_hash),
  total-keep (λ (c : Claim). if cap_row o.network o.lease o.now c then c.amount_zat else 0) recent
      cs (cap_row-stale o.cooldown_seconds o.lease earlier o.now h o.network),
)
  where
    recent : Claim → Bool
    recent c = not (stale o.cooldown_seconds o.lease earlier o.now h c)

-- The lease outlasts a full queue: with a send taking `residence` milliseconds at most, the sends
-- that may stand in front of a claim and its own end a minute before the lease does.
pub pending_lease-covers :
    (residence max_pending ahead : ℕ)
    → ahead ≤ max_pending
    → ahead * residence + residence + 60_000 ≤ 1_000 * pending_lease_seconds residence max_pending
unfolding pending_lease_seconds
pending_lease-covers residence max_pending ahead h = grind arith

-- A row that the address rule sees keeps its address out, before a purge and after it.
pub blocked-not_admitted :
    (o : ReserveParams) (cs : List Claim)
    → any (address_row o.address_hash o.network o.cooldown_seconds o.lease o.now) cs ≡ true
    → admits o (purge o.cooldown_seconds o.lease o.now cs) ≡ false
unfolding admits address_free
blocked-not_admitted o cs h = ground (arith, admits-purge o cs o.now, h)

-- A purge at an earlier time leaves the rows that block an address.
pub any-purge :
    (a : String) (n : Network) (cooldown lease earlier t : ℕ) (cs : List Claim)
    → earlier ≤ t
    → any (address_row a n cooldown lease t) (purge cooldown lease earlier cs)
      ≡ any (address_row a n cooldown lease t) cs
unfolding purge
any-purge a n cooldown lease earlier t cs h =
    any-keep (address_row a n cooldown lease t) (λ c. not (stale cooldown lease earlier t h c)) cs
      (address_row-stale cooldown lease earlier t h a n)
