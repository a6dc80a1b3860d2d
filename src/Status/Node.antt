-- ===== src/Status/Node.antt =====
-- src/lib/zcash/nodeStatus.ts: the status of our node and wallet, from the two heights that the
-- wallet reports. The read itself, its retry and its counters are left out; the reference tip is
-- that of `referenceTip`, and the verdict on the chain's identity is passed on.
use zcash_faucet.Base.{
  ℕ, ◌-◌, ◌/◌, max, min, Bool, false, not, ◌&&◌, ◌||◌, Option, none, some, List, [], ◌∷◌, ltb,
}
use zcash_faucet.Base.Int.{ℤ}
use zcash_faucet.Gates.Chain.{
  ChainGate, shield_max_lag_blocks, chain_freshness, may_build_transaction,
}
use zcash_faucet.Gates.WalletLag.{
  wallet_max_lag_blocks, wallet_lag_freshness, may_build_from_wallet,
}
use zcash_faucet.Status.Progress.{TipSample, tip_progress}

pub record NodeStatus : Type 0 where
  pub ready : Bool
  pub height : ℕ
  pub node_height : ℕ
  pub external_height : Option ℕ
  pub frozen : Bool
  pub behind : Bool
  pub tip_stalled_ms : Option ℕ
  pub network_quiet : Bool
  pub shield : ChainGate
  pub can_build_tx : Bool

-- FAUCET_FREEZE_BLOCKS, FAUCET_TIP_STALL_MS and the two lag budgets, as configured.
pub record NodeSettings : Type 0 where
  pub freeze_blocks : ℕ
  pub tip_stall_ms : ℕ
  pub shield_max_lag : ℤ
  pub wallet_max_lag : ℤ

pub data NodeReadPurpose : Type 0 where
  claim page : NodeReadPurpose

-- `nodeStatusBudgetMs`, of the configured timeout.
abbrev pub node_status_budget_ms : ℕ → NodeReadPurpose → ℕ
node_status_budget_ms timeout_ms claim = timeout_ms
node_status_budget_ms timeout_ms page = min timeout_ms 6000

unfoldable pub node_status_attempts_ms : ℕ → NodeReadPurpose → List ℕ
node_status_attempts_ms timeout_ms page = node_status_budget_ms timeout_ms page ∷ []
node_status_attempts_ms timeout_ms claim =
    let first : ℕ = max 1000 (timeout_ms / 3) in first ∷ (timeout_ms - first) ∷ []

abbrev pub is_behind : ℕ → Option ℕ → ℕ → Bool
is_behind freeze_blocks none n = false
is_behind freeze_blocks (some external) n = ltb freeze_blocks (external - n)

abbrev pub wallet_caught_up : NodeSettings → ℕ → ℕ → Bool
wallet_caught_up s w n =
    ltb 0 n
    && may_build_from_wallet
        (wallet_lag_freshness (wallet_max_lag_blocks s.wallet_max_lag) (some w) (some n))

-- `getNodeStatus` behind its read of the heights w and n, with the sample to keep.
unfoldable pub get_node_status :
    NodeSettings → Option TipSample → ℕ → ℕ → Option ℕ → ℕ → NodeStatus × TipSample
get_node_status s last_tip w n external now =
    let progress = tip_progress s.tip_stall_ms last_tip n external now in
    let shield = chain_freshness (shield_max_lag_blocks s.shield_max_lag) (some n) external in
    let behind : Bool = is_behind s.freeze_blocks external n in
    (
      record {
        ready = wallet_caught_up s w n && not (behind || progress.stalled);
        height = w;
        node_height = n;
        external_height = external;
        frozen = behind || progress.stalled;
        behind = behind;
        tip_stalled_ms = progress.stalled_ms;
        network_quiet = progress.network_quiet;
        shield = shield;
        can_build_tx = may_build_transaction shield;
      },
      progress.next,
    )
