-- ===== src/Status/Ready.antt =====
-- src/lib/readiness.ts: why /api/ready refuses, if it does; and src/lib/faucetPhase.ts: what the
-- page shows. Balances are zatoshi.
pub mod Agree
pub mod Rescanning
use zcash_faucet.Base.{
  ℕ, ◌+◌, ◌-◌, Bool, true, false, not, ◌&&◌, ◌||◌, Option, none, some, leb, ltb, ◌==◌,
  if◌then◌else◌,
}
use zcash_faucet.Base.Int.{ℤ}
use zcash_faucet.Base.Map.{is_some}
use zcash_faucet.Gates.Chain.{ChainGate, safe, unsafe, unverifiable}
use zcash_faucet.Network.{Network, taz, ctaz}
use zcash_faucet.Status.Node.{NodeStatus}

pub record ReadinessInputs : Type 0 where
  pub ledger_blocks : Bool
  pub backend_reachable : Bool
  pub node : Option NodeStatus
  pub node_expected : Bool
  pub balance_zat : Option ℕ
  pub sends_block : Bool
  pub floor_zat : ℕ

pub data ReadinessReason : Type 0 where
  ledger_unreadable backend_unreachable node_status_unknown node_frozen : ReadinessReason
  wallet_rescanning : ℕ → ℕ → ReadinessReason
  node_behind : Option ℤ → ReadinessReason
  balance_unknown sends_failing below_reserve : ReadinessReason

abbrev pub is_unsafe : ChainGate → Bool
is_unsafe gate = elim gate.state [ safe ↦ false | unsafe ↦ true | unverifiable ↦ false ]

-- What a node's status refuses.
abbrev pub node_reason : NodeStatus → Option ReadinessReason
node_reason n =
    if n.frozen
    then some node_frozen
    else if not n.ready
    then some (wallet_rescanning n.height n.node_height)
    else if is_unsafe n.shield
    then some (node_behind (n.shield.lag))
    else none

abbrev pub node_rungs : Bool → Option NodeStatus → Option ReadinessReason
node_rungs expected none = if expected then some node_status_unknown else none
node_rungs expected (some n) = node_reason n

abbrev pub money_rungs : Option ℕ → Bool → ℕ → Option ReadinessReason
money_rungs none sends_block floor = some balance_unknown
money_rungs (some balance) sends_block floor =
    if sends_block
    then some sends_failing
    else if ltb balance floor
    then some below_reserve
    else none

abbrev pub first_reason : Option ReadinessReason → Option ReadinessReason → Option ReadinessReason
first_reason none later = later
first_reason (some r) later = some r

unfoldable pub readiness_reason : ReadinessInputs → Option ReadinessReason
readiness_reason i =
    if i.ledger_blocks
    then some ledger_unreadable
    else if not i.backend_reachable
    then some backend_unreachable
    else first_reason (node_rungs i.node_expected i.node)
        (money_rungs i.balance_zat i.sends_block i.floor_zat)

pub data Phase : Type 0 where
  checking syncing fault queued empty degraded ready submitting success cooldown error : Phase

-- The fields of `Status` that the phase reads; `ctaz` is whether it is enabled and servable.
pub record Status : Type 0 where
  pub sender_zallet : Bool
  pub balance_zat : Option ℕ
  pub is_empty : Bool
  pub sends_degraded : Bool
  pub backend_reachable : Bool
  pub node : Option NodeStatus
  pub ctaz_servable : Option Bool

pub data FaultReason : Type 0 where
  indexer_unreachable wallet_silent : FaultReason
  node_lags : ℕ → FaultReason
  node_stopped : FaultReason
  drips_would_expire : Option ℤ → FaultReason
  node_unverified balance_unreadable : FaultReason

abbrev pub node_gap : NodeStatus → Option ℕ
node_gap n = elim n.external_height [
  | none ↦ none
  | some external ↦ if ltb n.node_height external then some (external - n.node_height) else none
]

abbrev frozen_fault : Bool → Option ℕ → FaultReason
frozen_fault true (some gap) = node_lags gap
frozen_fault _ _ = node_stopped

abbrev node_fault : NodeStatus → Option ℕ → Option FaultReason
node_fault n balance =
    if n.frozen
    then some (frozen_fault n.behind (node_gap n))
    else if not n.can_build_tx
    then (if is_unsafe n.shield
        then some (drips_would_expire (n.shield.lag))
        else some node_unverified)
    else if n.ready && not (is_some balance)
    then some balance_unreadable
    else none

abbrev wallet_fault : Bool → Option NodeStatus → Option ℕ → Option FaultReason
wallet_fault zallet none balance =
    if zallet && not (is_some balance) then some wallet_silent else none
wallet_fault zallet (some n) balance = node_fault n balance

unfoldable pub fault_reason : Status → Option FaultReason
fault_reason s =
    if not s.backend_reachable
    then some indexer_unreachable
    else wallet_fault s.sender_zallet s.node s.balance_zat

abbrev pub node_unready : Option NodeStatus → Bool
node_unready none = false
node_unready (some n) = not n.ready

abbrev pub funded_phase : Status → ℕ → Phase
funded_phase s balance =
    if leb balance 0 || s.is_empty
    then empty
    else if s.sends_degraded
    then degraded
    else if s.sender_zallet && not (is_some s.node)
    then checking
    else ready

abbrev taz_phase : Status → Phase
taz_phase s =
    if is_some (fault_reason s)
    then fault
    else if node_unready s.node
    then syncing
    else (elim s.balance_zat [ none ↦ syncing | some balance ↦ funded_phase s balance ])

abbrev ctaz_phase : Option Bool → Phase
ctaz_phase none = syncing
ctaz_phase (some servable) = if servable then ready else syncing

unfoldable pub base_phase : Option Status → Network → Phase
unfolding fault_reason
base_phase none net = checking
base_phase (some s) ctaz = ctaz_phase s.ctaz_servable
base_phase (some s) taz = taz_phase s
