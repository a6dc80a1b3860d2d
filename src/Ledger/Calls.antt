-- ===== src/Ledger/Calls.antt =====
-- src/lib/db/index.ts: what the callers of the ledger await. `reserve_claim` reserves or explains
-- the refusal, `finalize_claim` settles a reserved claim, `spend_challenge` burns a proof of work.
-- Purges and the drip counter run beside the awaited statement; they are modelled as done first.
use zcash_faucet.Base.{
  ℕ, ◌+◌, ◌-◌, ◌*◌, ◌/◌, max, min, Bool, true, false, not, ◌&&◌, String, str_eq, Option, none, some,
  List, [], ◌∷◌, ◌++◌, ltb, leb, if◌then◌else◌, any, keep, count_if,
}
use zcash_faucet.Network.{Network, same_network}
use zcash_faucet.Ledger.{
  Status, sent, failed, Claim, DripDay, UsedChallenge, Ledger, ReserveParams, day_seconds, alive,
  address_row, ip_row, subnet_row, cap_row, reserve, purge, set_status,
}

-- The sentence of a refusal, with the numbers that it quotes.
pub data Reason : Type 0 where
  address_claimed : Reason
  connection_used : ℕ → ℕ → Reason
  subnet_busy : Reason
  cap_reached : Reason

pub data Kind : Type 0 where
  cooldown cap subnet : Kind

pub data Scope : Type 0 where
  address connection : Scope

pub record Refusal : Type 0 where
  pub kind : Kind
  pub scope : Option Scope
  pub reason : Reason
  pub retry_after_seconds : Option ℕ

pub data ReserveResult : Type 0 where
  reserved : ℕ → ReserveResult
  refused : Refusal → ReserveResult

-- The arguments of `reserveClaim`.
pub record ReserveOpts : Type 0 where
  pub address : String
  pub ip_hash : Option String
  pub subnet_hash : Option String
  pub amount_zat : ℕ
  pub now : ℕ
  pub cooldown_seconds : ℕ
  pub daily_cap_zat : ℕ
  pub subnet_daily_max : ℕ
  pub ip_daily_max : ℕ
  pub network : Network

-- `h ?? ""`.
abbrev pub or_empty : Option String → String
or_empty none = ""
or_empty (some h) = h

-- A hash used as a condition: neither null nor empty.
abbrev pub truthy : Option String → Bool
truthy none = false
truthy (some h) = not (str_eq h "")

-- `ORDER BY created_at DESC LIMIT 1`.
abbrev pub newer : Claim → Option Claim → Claim
newer c none = c
newer c (some d) = if ltb c.created_at d.created_at then d else c

unfoldable pub latest : (Claim → Bool) → List Claim → Option Claim
latest p [] = none
latest p (c ∷ cs) = let rest = latest p cs in if p c then some (newer c rest) else rest

-- `MIN(created_at + CASE status WHEN 'sent' THEN ? ELSE ? END)`.
abbrev pub expiry : ℕ → ℕ → Claim → ℕ
expiry window lease c = c.created_at + (if alive c.status true false then window else lease)

abbrev pub least : ℕ → Option ℕ → ℕ
least m none = m
least m (some n) = min m n

unfoldable pub frees_at : (Claim → Bool) → (Claim → ℕ) → List Claim → Option ℕ
frees_at p e [] = none
frees_at p e (c ∷ cs) = let rest = frees_at p e cs in if p c then some (least (e c) rest) else rest

-- `Math.max(1, t - now)`.
abbrev pub wait_until : ℕ → ℕ → ℕ
wait_until now t = max 1 (t - now)

abbrev pub or_now : ℕ → Option ℕ → ℕ
or_now now none = now
or_now now (some t) = t

abbrev pub wait_if_known : ℕ → Option ℕ → Option ℕ
wait_if_known now none = none
wait_if_known now (some t) = some (wait_until now t)

abbrev address_refusal : ReserveParams → Claim → Refusal
address_refusal o c = record {
  kind = cooldown;
  scope = some address;
  reason = address_claimed;
  retry_after_seconds = some (wait_until o.now (expiry o.cooldown_seconds o.lease c));
}

abbrev connection_refusal : ReserveParams → List Claim → Refusal
connection_refusal o cs = record {
  kind = cooldown;
  scope = some connection;
  reason = connection_used o.ip_daily_max ((2 * o.cooldown_seconds + 3_600) / 7_200);
  retry_after_seconds = some (
      wait_until o.now (
        or_now o.now (
          frees_at (ip_row o.ip_hash o.network o.cooldown_seconds o.lease o.now)
            (expiry o.cooldown_seconds o.lease) cs)));
}

abbrev subnet_refusal : Refusal
subnet_refusal = record {
  kind = subnet;
  scope = none;
  reason = subnet_busy;
  retry_after_seconds = some 3_600;
}

abbrev cap_refusal : ReserveParams → List Claim → Refusal
cap_refusal o cs = record {
  kind = cap;
  scope = none;
  reason = cap_reached;
  retry_after_seconds =
      wait_if_known o.now
        (frees_at (cap_row o.network o.lease o.now) (expiry day_seconds o.lease) cs);
}

-- `(row?.n ?? 0) >= ipDailyMax`, under `ipHash && ipDailyMax > 0`.
abbrev connection_full : ReserveParams → Bool → List Claim → Bool
connection_full o has_ip cs =
    (has_ip && ltb 0 o.ip_daily_max)
    && leb o.ip_daily_max
        (count_if (ip_row o.ip_hash o.network o.cooldown_seconds o.lease o.now) cs)

abbrev subnet_full : ReserveParams → Bool → List Claim → Bool
subnet_full o has_subnet cs =
    has_subnet && leb o.subnet_daily_max (count_if (subnet_row o.subnet_hash o.lease o.now) cs)

-- `whyBlocked` behind its first query.
why_blocked_rest : ReserveParams → Bool → Bool → List Claim → Refusal
why_blocked_rest o has_ip has_subnet cs =
    if connection_full o has_ip cs
    then connection_refusal o cs
    else if subnet_full o has_subnet cs
    then subnet_refusal
    else cap_refusal o cs

-- `whyBlocked`; the two tests are whether the nullable hashes were given.
unfoldable pub why_blocked : ReserveParams → Bool → Bool → List Claim → Refusal
unfolding why_blocked_rest latest
why_blocked o has_ip has_subnet cs =
    elim (latest (address_row o.address_hash o.network o.cooldown_seconds o.lease o.now) cs) [
      | none ↦ why_blocked_rest o has_ip has_subnet cs
      | some c ↦ address_refusal o c
    ]

-- `reserveParams`; the fingerprint is a salted hash that the code takes from a crypto library.
abbrev pub reserve_params : (String → String) → ℕ → ReserveOpts → ReserveParams
reserve_params fingerprint_address lease o = record {
  address_hash = fingerprint_address o.address;
  ip_hash = or_empty o.ip_hash;
  subnet_hash = or_empty o.subnet_hash;
  amount_zat = o.amount_zat;
  now = o.now;
  cooldown_seconds = o.cooldown_seconds;
  daily_cap_zat = o.daily_cap_zat;
  subnet_daily_max = o.subnet_daily_max;
  ip_daily_max = o.ip_daily_max;
  network = o.network;
  lease = lease;
}

abbrev pub reserve_result : ReserveParams → Bool → Bool → Ledger × Option ℕ → Ledger × ReserveResult
reserve_result o has_ip has_subnet (l, some id) = (l, reserved id)
reserve_result o has_ip has_subnet (l, none) =
    (l, refused (why_blocked o has_ip has_subnet l.claims))

unfoldable pub reserve_claim : (String → String) → ℕ → ReserveOpts → Ledger → Ledger × ReserveResult
unfolding reserve purge
reserve_claim fingerprint_address lease o l =
    let p = reserve_params fingerprint_address lease o in
    reserve_result p (truthy o.ip_hash) (truthy o.subnet_hash)
      (reserve p (record l { claims = purge p.cooldown_seconds lease p.now l.claims }))

-- DRIP_BUMP_SQL.
unfoldable pub bump : Network → String → List DripDay → List DripDay
bump n day [] = record { network = n; day = day; sent = 1 } ∷ []
bump n day (d ∷ ds) =
    let rest = bump n day ds in
    if same_network d.network n && str_eq d.day day
    then record d { sent = d.sent + 1 } ∷ ds
    else d ∷ rest

-- How a claim ends.
pub data Ending : Type 0 where
  as_sent as_failed : Ending

abbrev pub status_of : Ending → Status
status_of as_sent = sent
status_of as_failed = failed

-- `txid || null`.
abbrev pub or_null : Option String → Option String
or_null none = none
or_null (some t) = if str_eq t "" then none else some t

abbrev count_sent : Ending → Network → String → List DripDay → List DripDay
count_sent as_sent n day ds = bump n day ds
count_sent as_failed n day ds = ds

abbrev pub lacks_txid : Ending → Option String → Bool → Bool
lacks_txid as_sent txid no_txid = not (truthy txid) && not no_txid
lacks_txid as_failed txid no_txid = false

-- `finalizeClaim`; `none` is the thrown error. `no_txid` is whether a reason was given, `day` the
-- UTC day of the call.
unfoldable pub finalize_claim :
    ℕ → Ending → Option String → Bool → String → Network → Ledger → Option Ledger
unfolding set_status bump
finalize_claim id e txid no_txid day n l =
    if lacks_txid e txid no_txid
    then none
    else some (record l {
      claims = set_status id (status_of e) (or_null txid) l.claims;
      drip_days = count_sent e n day l.drip_days;
    })

-- PURGE_CHALLENGES_SQL, then SPEND_CHALLENGE_SQL: `true` if this caller got it.
abbrev pub spent_before : String → List UsedChallenge → Bool
spent_before sig = any λ u. str_eq u.sig sig

unfoldable pub spend_challenge : String → ℕ → ℕ → Ledger → Ledger × Bool
spend_challenge sig exp now l =
    let live = keep (λ (u : UsedChallenge). not (ltb u.exp now)) l.used in
    if spent_before sig live
    then (record l { used = live }, false)
    else (record l { used = live ++ record { sig = sig; exp = exp } ∷ [] }, true)

-- CHALLENGE_SPENT_SQL.
unfoldable pub challenge_already_spent : String → Ledger → Bool
challenge_already_spent sig l = spent_before sig l.used
