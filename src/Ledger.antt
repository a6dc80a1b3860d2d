-- ===== src/Ledger.antt =====
-- The claims ledger: src/lib/db/sql.ts (the statements) and src/lib/db/index.ts (their callers).
-- A table is the list of its rows, oldest first; a statement is a function on it. A comparison
-- `created_at > now - w` of integers is written `now < created_at + w`, which needs no negative
-- number. Times are seconds and amounts zatoshi, as natural numbers.
pub mod Calls
pub mod Totals
pub mod Limits
pub mod Steps
pub mod Safety
pub mod Diagnosis
pub mod Retry
pub mod Retention
pub mod Release
pub mod Challenges
pub mod Drips
mod Tests
use zcash_faucet.Base.{
  ℕ, ◌+◌, ◌-◌, ◌*◌, ◌/◌, ◌≡◌, max, min, Bool, true, false, not, ◌&&◌, ◌||◌, String, str_eq, Option,
  none, some, List, [], ◌∷◌, ◌++◌, ltb, leb, ◌==◌, if◌then◌else◌, any, keep, total, count_if,
}
use zcash_faucet.Network.{Network, same_network}

pub data Status : Type 0 where
  pending sent failed : Status

-- A row of `claims`.
pub record Claim : Type 0 where
  pub id : ℕ
  pub address_hash : String
  pub ip_hash : String
  pub subnet_hash : String
  pub amount_zat : ℕ
  pub txid : Option String
  pub status : Status
  pub created_at : ℕ
  pub network : Network

-- A row of `drip_days`.
pub record DripDay : Type 0 where
  pub network : Network
  pub day : String
  pub sent : ℕ

-- A row of `used_challenges`.
pub record UsedChallenge : Type 0 where
  pub sig : String
  pub exp : ℕ

pub record Ledger : Type 0 where
  pub claims : List Claim
  pub next_id : ℕ  -- AUTOINCREMENT
  pub used : List UsedChallenge
  pub drip_days : List DripDay

-- The arguments of `reserveParams`.
pub record ReserveParams : Type 0 where
  pub address_hash : String
  pub ip_hash : String
  pub subnet_hash : String
  pub amount_zat : ℕ
  pub now : ℕ
  pub cooldown_seconds : ℕ
  pub daily_cap_zat : ℕ
  pub subnet_daily_max : ℕ
  pub ip_daily_max : ℕ
  pub network : Network
  pub lease : ℕ

abbrev pub day_seconds : ℕ
day_seconds = 86_400

abbrev pub pending_lease_margin_seconds : ℕ
pending_lease_margin_seconds = 60

-- `Math.ceil(x / 1000)`, then the margin.
unfoldable pub pending_lease_seconds : ℕ → ℕ → ℕ
pending_lease_seconds send_residence_ms send_queue_max_pending =
    ((send_queue_max_pending + 1) * send_residence_ms + 999) / 1000 + pending_lease_margin_seconds

-- `(status='sent' AND s) OR (status='pending' AND p)`.
abbrev pub alive : Status → Bool → Bool → Bool
alive sent s p = s
alive pending s p = p
alive failed s p = false

-- The predicate of the cooldown rules: the comparisons are strict.
abbrev pub blocks : ℕ → ℕ → ℕ → Claim → Bool
blocks cooldown lease now c =
    alive c.status (ltb now (c.created_at + cooldown)) (ltb now (c.created_at + lease))

-- The predicate of the day rules: the comparisons are not strict.
abbrev pub counts : ℕ → ℕ → Claim → Bool
counts lease now c =
    alive c.status (leb now (c.created_at + day_seconds)) (leb now (c.created_at + lease))

-- The rows that each of the four rules of RESERVE_SQL looks at.
abbrev pub address_row : String → Network → ℕ → ℕ → ℕ → Claim → Bool
address_row a n cooldown lease now c =
    (str_eq c.address_hash a && same_network c.network n) && blocks cooldown lease now c

abbrev pub ip_row : String → Network → ℕ → ℕ → ℕ → Claim → Bool
ip_row ip n cooldown lease now c =
    (str_eq c.ip_hash ip && same_network c.network n) && blocks cooldown lease now c

abbrev pub subnet_row : String → ℕ → ℕ → Claim → Bool
subnet_row subnet lease now c = str_eq c.subnet_hash subnet && counts lease now c

abbrev pub cap_row : Network → ℕ → ℕ → Claim → Bool
cap_row n lease now c = same_network c.network n && counts lease now c

-- `SUM(amount_zat)` over the rows of the daily cap.
abbrev pub spent : Network → ℕ → ℕ → List Claim → ℕ
spent n lease now = total (λ c. if cap_row n lease now c then c.amount_zat else 0)

-- The rules, each as the condition under which it lets the claim pass.
unfoldable pub address_free : ReserveParams → List Claim → Bool
address_free o cs =
    not (any (address_row o.address_hash o.network o.cooldown_seconds o.lease o.now) cs)

unfoldable pub ip_free : ReserveParams → List Claim → Bool
ip_free o cs =
    str_eq o.ip_hash ""
    || ltb (count_if (ip_row o.ip_hash o.network o.cooldown_seconds o.lease o.now) cs)
        o.ip_daily_max

unfoldable pub subnet_free : ReserveParams → List Claim → Bool
subnet_free o cs =
    str_eq o.subnet_hash ""
    || ltb (count_if (subnet_row o.subnet_hash o.lease o.now) cs) o.subnet_daily_max

unfoldable pub cap_free : ReserveParams → List Claim → Bool
cap_free o cs = leb (spent o.network o.lease o.now cs + o.amount_zat) o.daily_cap_zat

-- The WHERE clause of RESERVE_SQL.
unfoldable pub admits : ReserveParams → List Claim → Bool
unfolding address_free ip_free subnet_free cap_free
admits o cs = (address_free o cs && ip_free o cs) && (subnet_free o cs && cap_free o cs)

-- The row that RESERVE_SQL inserts.
abbrev pub new_claim : ReserveParams → ℕ → Claim
new_claim o id = record {
  id = id;
  address_hash = o.address_hash;
  ip_hash = o.ip_hash;
  subnet_hash = o.subnet_hash;
  amount_zat = o.amount_zat;
  txid = none;
  status = pending;
  created_at = o.now;
  network = o.network;
}

-- RESERVE_SQL: the ledger afterwards, and the new row's id if `changes` is 1.
unfoldable pub reserve : ReserveParams → Ledger → Ledger × Option ℕ
reserve o l =
    if admits o l.claims
    then (
      record l { claims = l.claims ++ new_claim o l.next_id ∷ []; next_id = l.next_id + 1 },
      some l.next_id,
    )
    else (l, none)

-- `retentionCutoff`: a row is purged when `created_at < now - max(...) - 3600`.
unfoldable pub retention_seconds : ℕ → ℕ → ℕ
retention_seconds cooldown lease = max (max cooldown day_seconds) lease + 3_600

-- PURGE_SQL.
unfoldable pub purge : ℕ → ℕ → ℕ → List Claim → List Claim
unfolding retention_seconds
purge cooldown lease now =
    keep (λ c. not (ltb (c.created_at + retention_seconds cooldown lease) now))

-- FINALIZE_SQL.
unfoldable pub set_status : ℕ → Status → Option String → List Claim → List Claim
set_status id status txid [] = []
set_status id status txid (c ∷ cs) =
    (if c.id == id then record c { status = status; txid = txid } else c)
    ∷ set_status id status txid cs
