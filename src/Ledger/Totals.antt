-- ===== src/Ledger/Totals.antt =====
-- How the usage of a rule moves: it only falls with time and by a purge, and a claim that settles
-- while its lease runs weighs no more than before.
use zcash_faucet.Base.{
  ℕ, ◌+◌, ◌≤◌, ◌<◌, ◌≡◌, String, Option, List, [], ◌∷◌, arith, All, total, total_mono,
}
use zcash_faucet.Ledger.{Claim, Status, pending, set_status}
use zcash_faucet.Ledger.Limits.{Policy, Rule, by_address, by_ip, by_subnet, by_cap, weight, usage}

weight_anti :
    (p : Policy) (t u : ℕ) (r : Rule) (c : Claim) → t ≤ u → weight p u r c ≤ weight p t r c
weight_anti p t u (by_address a n) c h = ground arith
weight_anti p t u (by_ip ip n) c h = ground arith
weight_anti p t u (by_subnet s) c h = ground arith
weight_anti p t u (by_cap n) c h = ground arith

pub usage_anti :
    (p : Policy) (t u : ℕ) (r : Rule) (cs : List Claim) → t ≤ u → usage p u r cs ≤ usage p t r cs
usage_anti p t u r cs h = total_mono (weight p u r) (weight p t r) cs λ c. weight_anti p t u r c h

-- A row with this id is still pending, and its lease runs.
abbrev pub IsOpen : ℕ → ℕ → ℕ → Claim → Type 0
IsOpen lease t id c = c.id ≡ id → (c.status ≡ pending) × (t < c.created_at + lease)

weight-settle :
    (p : Policy) (t : ℕ) (r : Rule) (c : Claim) (s : Status) (txid : Option String)
    → c.status ≡ pending
    → t < c.created_at + p.lease
    → weight p t r (record c { status = s; txid = txid }) ≤ weight p t r c
weight-settle p t (by_address a n) c s txid e h = ground arith
weight-settle p t (by_ip ip n) c s txid e h = ground arith
weight-settle p t (by_subnet k) c s txid e h = ground arith
weight-settle p t (by_cap n) c s txid e h = ground arith

pub usage-set_status :
    (p : Policy) (t : ℕ) (r : Rule) (id : ℕ) (s : Status) (txid : Option String) (cs : List Claim)
    → All (IsOpen p.lease t id) cs
    → usage p t r (set_status id s txid cs) ≤ usage p t r cs
unfolding set_status total
usage-set_status p t r id s txid [] h = omega arith
usage-set_status p t r id s txid (c ∷ cs) (h, hs) =
    ground (arith, usage-set_status p t r id s txid cs hs, weight-settle p t r c s txid)
