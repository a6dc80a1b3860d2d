-- ===== src/Ledger/Retry.antt =====
-- The waits that a refusal names. Those of the two cooldown rules are exact; that of the daily cap
-- is a second short, since its rule still counts a row at the end of its window.
use native.Mathlib.Nat.{le-add_right}
use zcash_faucet.Base.{
  ℕ, ◌+◌, ◌≤◌, ◌<◌, ◌≡◌, refl, inl, inr, Bool, true, false, not, ◌&&◌, str_eq, none, some, List, [],
  ◌∷◌, arith, any, count_if, total, ltb, leb, if◌then◌else◌, one_if, total_mono,
  any-eq-false_of_count,
}
use zcash_faucet.Ledger.{
  Claim, ReserveParams, address_row, ip_row, cap_row, address_free, ip_free, cap_free, admits,
  day_seconds,
}
use zcash_faucet.Ledger.Calls.{
  cap, address, connection, latest, frees_at, or_now, expiry, why_blocked,
}
use zcash_faucet.Ledger.Diagnosis.{latest-cases, why_blocked-Explains}

module _ (p q : Claim → Bool) (weaker : (c : Claim) → q c ≡ true → p c ≡ true) where
  any_of_none : (cs : List Claim) → count_if p cs ≡ 0 → any q cs ≡ false
  unfolding total
  any_of_none [] h = refl
  any_of_none (c ∷ cs) h = ground (arith, weaker c, any_of_none cs)

  -- If one row at most passes `p`, a stronger test passes some row when it passes that one.
  any_of_single :
      (cs : List Claim) (c : Claim) → count_if p cs ≤ 1 → latest p cs ≡ some c → any q cs ≡ q c
  unfolding total latest
  any_of_single [] c h e = cc
  any_of_single (d ∷ cs) c h e = ground (
    arith,
    weaker d,
    any_of_none cs,
    any_of_single cs c,
    latest-cases p cs,
    any-eq-false_of_count p cs,
  )

-- `p` holds of the rows that block now, `q` of those that still do at a later time `u`.
module _ (p q : Claim → Bool) (ends : Claim → ℕ) (u : ℕ)
    (later : (c : Claim) → q c ≡ (p c && ltb u (ends c))) where
  count-le : (cs : List Claim) → count_if q cs ≤ count_if p cs
  count-le cs = total_mono (λ c. one_if (q c)) (λ c. one_if (p c)) cs λ c. ground (arith, later c)

  count-after :
      (cs : List Claim) (m : ℕ)
      → frees_at p ends cs ≡ some m
      → m ≤ u
      → count_if q cs < count_if p cs
  unfolding total frees_at
  count-after [] m e h = cc
  count-after (c ∷ cs) m e h =
      ground (arith, later c, count-le cs, count-after cs (or_now 0 (frees_at p ends cs)))

  count-none :
      (cs : List Claim) → frees_at p ends cs ≡ none → (count_if p cs ≡ 0) × (count_if q cs ≡ 0)
  unfolding total frees_at
  count-none [] e = (refl, refl)
  count-none (c ∷ cs) e = ground (arith, later c, count-none cs)

  -- Before the first row ends, all of them still block.
  count-before :
      (cs : List Claim) (m : ℕ)
      → frees_at p ends cs ≡ some m
      → u < m
      → count_if q cs ≡ count_if p cs
  unfolding total frees_at
  count-before [] m e h = cc
  count-before (c ∷ cs) m e h =
      ground (arith, later c, count-none cs, count-before cs (or_now 0 (frees_at p ends cs)))

-- The rows of the cap count up to and at their expiry.
module _ (p q : Claim → Bool) (ends : Claim → ℕ) (u : ℕ)
    (later : (c : Claim) → q c ≡ (p c && leb u (ends c))) where
  sum-none :
      (cs : List Claim)
      → frees_at p ends cs ≡ none
      → (total (λ c. if p c then c.amount_zat else 0) cs ≡ 0)
        × (total (λ c. if q c then c.amount_zat else 0) cs ≡ 0)
  unfolding total frees_at
  sum-none [] e = (refl, refl)
  sum-none (c ∷ cs) e = ground (arith, later c, sum-none cs)

  sum-until :
      (cs : List Claim) (m : ℕ)
      → frees_at p ends cs ≡ some m
      → u ≤ m
      → total (λ c. if q c then c.amount_zat else 0) cs
        ≡ total (λ c. if p c then c.amount_zat else 0) cs
  unfolding total frees_at
  sum-until [] m e h = cc
  sum-until (c ∷ cs) m e h =
      ground (arith, later c, sum-none cs, sum-until cs (or_now 0 (frees_at p ends cs)))

abbrev address_rows : ReserveParams → ℕ → Claim → Bool
address_rows o t = address_row o.address_hash o.network o.cooldown_seconds o.lease t

abbrev ip_rows : ReserveParams → ℕ → Claim → Bool
ip_rows o t = ip_row o.ip_hash o.network o.cooldown_seconds o.lease t

address_rows_anti :
    (o : ReserveParams) (t u : ℕ) (c : Claim)
    → t ≤ u
    → address_rows o u c ≡ true
    → address_rows o t c ≡ true
address_rows_anti o t u c h e = ground arith

-- A row that blocks now blocks until its expiry.
address_rows-expiry :
    (o : ReserveParams) (t u : ℕ) (c : Claim)
    → address_rows o t c ≡ true
    → (address_rows o u c ≡ ltb u (expiry o.cooldown_seconds o.lease c))
      × (t < expiry o.cooldown_seconds o.lease c)
address_rows-expiry o t u c e = ground arith

ip_rows-expiry :
    (o : ReserveParams) (t u : ℕ) (c : Claim)
    → t ≤ u
    → ip_rows o u c ≡ (ip_rows o t c && ltb u (expiry o.cooldown_seconds o.lease c))
ip_rows-expiry o t u c h = ground arith

-- The wait of an address refusal is exact: with the address's live claims at most one, as always
-- holds, the address rule passes again at `now + wait` and at no time before.
pub address_retry_exact :
    (o : ReserveParams) (has_ip has_subnet : Bool) (cs : List Claim) (u wait : ℕ)
    → count_if (address_rows o o.now) cs ≤ 1
    → o.now ≤ u
    → (why_blocked o has_ip has_subnet cs).scope ≡ some address
    → (why_blocked o has_ip has_subnet cs).retry_after_seconds ≡ some wait
    → address_free (record o { now = u }) cs ≡ leb (o.now + wait) u
unfolding why_blocked address_free
address_retry_exact o has_ip has_subnet cs u wait single le scope retry =
    elim (latest-cases (address_rows o o.now) cs) [
      | inl (e, _) ↦ ground arith
      | inr (c, e, _, hit) ↦ ground (
        arith,
        address_rows-expiry o o.now u c hit,
        any_of_single (address_rows o o.now) (address_rows o u)
            (λ (d : Claim). address_rows_anti o o.now u d le) cs c single e,
      )
    ]

-- So is that of a connection refusal: with the IP's live claims at most its number, as always
-- holds, the IP rule passes again at `now + wait` and at no time before.
pub connection_retry_exact :
    (o : ReserveParams) (has_subnet : Bool) (cs : List Claim) (u wait : ℕ)
    → count_if (ip_rows o o.now) cs ≤ o.ip_daily_max
    → o.now ≤ u
    → str_eq o.ip_hash "" ≡ false
    → (why_blocked o true has_subnet cs).scope ≡ some connection
    → (why_blocked o true has_subnet cs).retry_after_seconds ≡ some wait
    → ip_free (record o { now = u }) cs ≡ leb (o.now + wait) u
unfolding why_blocked ip_free
connection_retry_exact o has_subnet cs u wait few le known scope retry = ground (
  arith,
  latest-cases (address_rows o o.now) cs,
  count-after (ip_rows o o.now) (ip_rows o u) (expiry o.cooldown_seconds o.lease) u
      (λ (c : Claim). ip_rows-expiry o o.now u c le) cs
      (or_now 0 (frees_at (ip_rows o o.now) (expiry o.cooldown_seconds o.lease) cs)),
  count-before (ip_rows o o.now) (ip_rows o u) (expiry o.cooldown_seconds o.lease) u
      (λ (c : Claim). ip_rows-expiry o o.now u c le) cs
      (or_now 0 (frees_at (ip_rows o o.now) (expiry o.cooldown_seconds o.lease) cs)),
  count-none (ip_rows o o.now) (ip_rows o u) (expiry o.cooldown_seconds o.lease) u
      (λ (c : Claim). ip_rows-expiry o o.now u c le) cs,
)

abbrev cap_rows : ReserveParams → ℕ → Claim → Bool
cap_rows o t = cap_row o.network o.lease t

cap_rows-expiry :
    (o : ReserveParams) (t u : ℕ) (c : Claim)
    → t ≤ u
    → cap_rows o u c ≡ (cap_rows o t c && leb u (expiry day_seconds o.lease c))
cap_rows-expiry o t u c h = ground arith

-- The wait of a cap refusal is a second short: a claim that is repeated at `now + wait`, with the
-- same rows and a wait of more than one second, is refused again.
pub cap_retry_short :
    (o : ReserveParams) (has_ip has_subnet : Bool) (cs : List Claim) (wait : ℕ)
    → 0 < o.ip_daily_max
    → has_ip ≡ not (str_eq o.ip_hash "")
    → has_subnet ≡ not (str_eq o.subnet_hash "")
    → admits o cs ≡ false
    → (why_blocked o has_ip has_subnet cs).kind ≡ cap
    → (why_blocked o has_ip has_subnet cs).retry_after_seconds ≡ some wait
    → 1 < wait
    → admits (record o { now = o.now + wait }) cs ≡ false
unfolding why_blocked admits cap_free
cap_retry_short o has_ip has_subnet cs wait h i k full kind retry long = ground (
  arith,
  why_blocked-Explains o cs has_ip has_subnet h i k full,
  latest-cases (address_rows o o.now) cs,
  sum-until (cap_rows o o.now) (cap_rows o (o.now + wait)) (expiry day_seconds o.lease)
      (o.now + wait)
      (λ (c : Claim). cap_rows-expiry o o.now (o.now + wait) c (le-add_right o.now wait)) cs
      (or_now 0 (frees_at (cap_rows o o.now) (expiry day_seconds o.lease) cs)),
)
