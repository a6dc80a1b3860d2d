-- ===== src/Ledger/Limits.antt =====
-- The four limits of the faucet as one family: for each rule the weight of a row, the usage that
-- the rows add up to at a time, and the most that the rule allows. This is the specification that
-- the statements of src/lib/db/sql.ts are held to.
use zcash_faucet.Base.{ℕ, ◌≤◌, ◌≢◌, String, Option, List, one_if, if◌then◌else◌, total}
use zcash_faucet.Network.{Network}
use zcash_faucet.Ledger.{Claim, address_row, ip_row, subnet_row, cap_row}
use zcash_faucet.Ledger.Calls.{ReserveOpts}

-- What the configuration fixes for the life of the process.
pub record Policy : Type 0 where
  pub cooldown : ℕ
  pub lease : ℕ
  pub ip_daily_max : ℕ
  pub subnet_daily_max : ℕ
  pub daily_cap : Network → ℕ

-- What one request brings.
pub record Visit : Type 0 where
  pub address : String
  pub ip_hash : Option String
  pub subnet_hash : Option String
  pub amount_zat : ℕ
  pub network : Network

-- The call of `reserveClaim` in src/app/api/faucet/route.ts.
abbrev pub claim_opts : Policy → Visit → ℕ → ReserveOpts
claim_opts p v now = record {
  address = v.address;
  ip_hash = v.ip_hash;
  subnet_hash = v.subnet_hash;
  amount_zat = v.amount_zat;
  now = now;
  cooldown_seconds = p.cooldown;
  daily_cap_zat = p.daily_cap v.network;
  subnet_daily_max = p.subnet_daily_max;
  ip_daily_max = p.ip_daily_max;
  network = v.network;
}

pub data Rule : Type 0 where
  by_address by_ip : String → Network → Rule
  by_subnet : String → Rule
  by_cap : Network → Rule

-- What a row weighs under a rule at a time.
abbrev pub weight : Policy → ℕ → Rule → Claim → ℕ
weight p t (by_address a n) c = one_if (address_row a n p.cooldown p.lease t c)
weight p t (by_ip ip n) c = one_if (ip_row ip n p.cooldown p.lease t c)
weight p t (by_subnet s) c = one_if (subnet_row s p.lease t c)
weight p t (by_cap n) c = if cap_row n p.lease t c then c.amount_zat else 0

abbrev pub usage : Policy → ℕ → Rule → List Claim → ℕ
usage p t r = total (weight p t r)

abbrev pub limit : Policy → Rule → ℕ
limit p (by_address a n) = 1
limit p (by_ip ip n) = p.ip_daily_max
limit p (by_subnet s) = p.subnet_daily_max
limit p (by_cap n) = p.daily_cap n

-- A client whose IP or subnet is not known is stored under the empty hash, and is not limited.
abbrev pub Applies : Rule → Type 0
Applies (by_address a n) = Unit
Applies (by_ip ip n) = ip ≢ ""
Applies (by_subnet s) = s ≢ ""
Applies (by_cap n) = Unit

abbrev pub IsWithinLimits : Policy → ℕ → List Claim → Type 0
IsWithinLimits p t cs = (r : Rule) → Applies r → usage p t r cs ≤ limit p r
