-- ===== src/Faucet/Guards.antt =====
-- src/app/api/faucet/route.ts, steps 1 to 3.6: the checks that run before anything is reserved, in
-- the order of the handler; and freshnessRetrySeconds of retry-hint.ts.
use zcash_faucet.Base.{
  ℕ, ◌+◌, ◌/◌, Bool, true, false, not, ◌&&◌, String, Option, none, some, List, [], ◌∷◌, ltb,
  if◌then◌else◌, ◌⊎◌, inl, inr,
}
use zcash_faucet.Network.{Network, taz, ctaz, default_network, parse_network}
use zcash_faucet.Ledger.Calls.{challenge_already_spent}
use zcash_faucet.SendHealth.{window_for, read_send_health, send_health_blocks_serving}
use zcash_faucet.Pow.Gate.{Solution, Attempts, Verdict, verified, Outcome, verify_solution}
use zcash_faucet.Gates.Chain.{
  ChainFreshness, unverifiable, ChainGate, chain_freshness, shield_max_lag_blocks,
  may_build_transaction,
}
use zcash_faucet.Gates.WalletLag.{
  WalletLagGate, wallet_lag_freshness, wallet_max_lag_blocks, may_build_from_wallet,
}
use zcash_faucet.Gates.Ctaz.{can_serve_ctaz}
use zcash_faucet.Faucet.{
  Config, Body, NodeStatus, World, Site, Gate, restarting, sends, ApiError, bad_address,
  bad_network, ctaz_disabled, draining_gate, send_health, pow_required, pow_failed, challenge_spent,
  empty, freshness, wallet_lag, ctaz_readiness,
}

abbrev pub plain : ℕ → Gate → ApiError
plain status gate = record {
  status = status;
  gate = gate;
  kind = none;
  scope = none;
  retry_after_seconds = none;
  next_at = none;
}

abbrev pub drain_retry_seconds : ℕ
drain_retry_seconds = 20

-- FRESHNESS_RETRY_SECONDS.
abbrev pub block_retry_seconds : ℕ
block_retry_seconds = 75

-- SENDS_RETRY_SECONDS: the window of the verdict, in seconds rounded up.
abbrev pub sends_retry_seconds : Config → ℕ
sends_retry_seconds cfg = (window_for cfg.send_task_deadline_ms + 999) / 1000

abbrev is_unverifiable : ChainFreshness → Bool
is_unverifiable unverifiable = true
is_unverifiable _ = false

unfoldable pub freshness_retry_seconds : ChainFreshness → Option ℕ → ℕ
freshness_retry_seconds state none = if is_unverifiable state then 5 else block_retry_seconds
freshness_retry_seconds state (some n) = if is_unverifiable state then 20 else block_retry_seconds

-- `x?.field ?? null`.
abbrev pub scanned_height : Option NodeStatus → Option ℕ
scanned_height none = none
scanned_height (some n) = n.height

abbrev pub tip_height : Option NodeStatus → Option ℕ
tip_height none = none
tip_height (some n) = n.node_height

-- An absent network is TAZ, an unknown one is refused.
abbrev named_network : Option String → Option Network
named_network none = some default_network
named_network (some raw) = parse_network raw

abbrev served_here : Config → Option Network → ApiError ⊎ Network
served_here cfg none = inl (plain 400 bad_network)
served_here cfg (some taz) = inr taz
served_here cfg (some ctaz) =
    if cfg.crosslink_enabled then inr ctaz else inl (plain 503 ctaz_disabled)

-- Steps 1 and 1.5.
unfoldable pub read_request : Config → World → Body → ApiError ⊎ Network
read_request cfg w b =
    if w.address_valid
    then served_here cfg (named_network b.network)
    else inl (plain 400 bad_address)

abbrev pub drain_guard : World → Option ApiError
drain_guard w =
    if w.draining
    then some (record (plain 503 draining_gate) {
      kind = some restarting;
      retry_after_seconds = some drain_retry_seconds;
    })
    else none

abbrev pub sends_fail : Config → World → Network → Site → Bool
sends_fail cfg w n s =
    send_health_blocks_serving
      (read_send_health (window_for cfg.send_task_deadline_ms) w.now_ms s.send_log n)

abbrev pub sends_guard : Config → World → Network → Site → Option ApiError
sends_guard cfg w n s =
    if sends_fail cfg w n s
    then some (record (plain 503 send_health) {
      kind = some sends;
      retry_after_seconds = some (sends_retry_seconds cfg);
    })
    else none

-- `ipHash ?? "anon"`.
abbrev pub client_of : World → String
client_of w = elim w.ip_hash [ none ↦ "anon" | some hash ↦ hash ]

-- The call of `verifySolution`, which does not burn.
abbrev pub proof_of : Config → World → Site → Solution → Outcome
proof_of cfg w s p =
    verify_solution cfg.pow p (client_of w) w.subnet_hash false w.verified_ms s.attempts s.ledger

abbrev is_verified : Verdict → Bool
is_verified verified = true
is_verified _ = false

abbrev pub proof_guard : Config → World → Site → Option Solution → Option ApiError
proof_guard cfg w s none = some (plain 403 pow_required)
proof_guard cfg w s (some p) =
    if not (is_verified (proof_of cfg w s p).verdict)
    then some (plain 403 pow_failed)
    else if challenge_already_spent p.sig s.ledger
    then some (plain 403 challenge_spent)
    else none

abbrev pub pow_guard : Config → World → Body → Site → Option ApiError
pow_guard cfg w b s = if cfg.challenge_is_pow then proof_guard cfg w s b.pow else none

abbrev pub proof_attempts : Config → World → Site → Option Solution → Attempts
proof_attempts cfg w s none = s.attempts
proof_attempts cfg w s (some p) = (proof_of cfg w s p).attempts

-- The attempts behind step 2, which the checks in front of it may keep from being reached.
unfoldable pub attempts_after : Config → World → Body → Network → Site → Attempts
attempts_after cfg w b n s = elim (drain_guard w) [
  | some e ↦ s.attempts
  | none ↦ elim (sends_guard cfg w n s) [
    | some e ↦ s.attempts
    | none ↦ if cfg.challenge_is_pow then proof_attempts cfg w s b.pow else s.attempts
  ]
]

-- What the checks leave: an attempt that step 2 counts stays counted, whatever refuses later.
abbrev pub checked : Config → World → Body → Network → Site → Site
checked cfg w b n s = record s { attempts = attempts_after cfg w b n s }

-- The TAZ wallet must keep its reserve; a balance that nobody could read does not refuse.
abbrev pub short_of : ℕ → Option ℕ → Bool
short_of floor none = false
short_of floor (some balance) = ltb balance floor

abbrev pub balance_guard : Config → World → Network → Option ApiError
balance_guard cfg w ctaz = none
balance_guard cfg w taz =
    if short_of (cfg.drip_zatoshi + cfg.min_reserve_zatoshi) w.balance
    then some (plain 503 empty)
    else none

abbrev gates_apply : Config → Network → Bool
gates_apply cfg taz = cfg.sender_is_zallet
gates_apply cfg ctaz = false

-- What `readChainFreshnessAsking` resolves to, once it has waited for the reference tip.
abbrev pub chain_gate : Config → World → ChainGate
chain_gate cfg w =
    chain_freshness (shield_max_lag_blocks cfg.shield_max_lag) (tip_height w.node) w.external_tip

abbrev pub freshness_guard : Config → World → Network → Option ApiError
freshness_guard cfg w n =
    if gates_apply cfg n && not (may_build_transaction (chain_gate cfg w))
    then some (record (plain 503 freshness) {
      retry_after_seconds =
          some (freshness_retry_seconds (chain_gate cfg w).state (chain_gate cfg w).node_height);
    })
    else none

abbrev pub wallet_gate : Config → World → WalletLagGate
wallet_gate cfg w =
    wallet_lag_freshness (wallet_max_lag_blocks cfg.wallet_max_lag) (scanned_height w.node)
      (tip_height w.node)

abbrev pub wallet_guard : Config → World → Network → Option ApiError
wallet_guard cfg w n =
    if gates_apply cfg n && not (may_build_from_wallet (wallet_gate cfg w))
    then some (record (plain 503 wallet_lag) { retry_after_seconds = some block_retry_seconds })
    else none

abbrev or_else : Option ℕ → Option ℕ → Option ℕ
or_else none o = o
or_else (some n) o = some n

abbrev pub ctaz_guard : World → Network → Option ApiError
ctaz_guard w taz = none
ctaz_guard w ctaz =
    let node = w.ctaz_node in
    if can_serve_ctaz node.reading.state (or_else node.blocks node.reading.height) node.tip
      node.source
    then none
    else some (record (plain 503 ctaz_readiness) { retry_after_seconds = some block_retry_seconds })

-- The first check that refuses is the answer.
abbrev pub first_refusal : List (Option ApiError) → Option ApiError
first_refusal [] = none
first_refusal (some e ∷ es) = some e
first_refusal (none ∷ es) = first_refusal es

-- Steps 1.4 to 3.6.
unfoldable pub guards : Config → World → Body → Network → Site → Option ApiError
guards cfg w b n s = first_refusal (
    drain_guard w
    ∷ sends_guard cfg w n s
    ∷ pow_guard cfg w b s
    ∷ balance_guard cfg w n
    ∷ freshness_guard cfg w n
    ∷ wallet_guard cfg w n
    ∷ ctaz_guard w n
    ∷ [])
