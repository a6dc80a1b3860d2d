-- ===== src/Gates/WalletLag.antt =====
-- src/lib/zcash/walletLagGate.ts: has our wallet scanned what our own node has?
use zcash_faucet.Base.{ℕ, ◌+◌, Bool, true, false, Option, none, some, if◌then◌else◌}
use zcash_faucet.Base.Int.{ℤ, pos, sub_ℕ, lebℤ}

pub data WalletLagState : Type 0 where
  safe unsafe unverifiable : WalletLagState

-- The sentence for the operator; `trails_node` says whether a drip would be born expired.
pub data WalletReason : Type 0 where
  wallet_unknown node_unknown all_scanned : WalletReason
  trails_node : ℤ → ℕ → Bool → WalletReason
  inside_budget : ℤ → WalletReason

pub record WalletLagGate : Type 0 where
  pub state : WalletLagState
  pub wallet_height : Option ℕ
  pub node_height : Option ℕ
  pub lag : Option ℤ
  pub reason : WalletReason

abbrev pub expiry_delta_blocks : ℕ
expiry_delta_blocks = 40

abbrev pub wallet_lag_ceiling : ℤ
wallet_lag_ceiling = pos 20

-- WALLET_MAX_LAG_BLOCKS, from the configured number.
abbrev pub wallet_max_lag_blocks : ℤ → ℤ
wallet_max_lag_blocks configured =
    if lebℤ configured wallet_lag_ceiling then configured else wallet_lag_ceiling

abbrev unreadable : Option ℕ → Option ℕ → WalletReason → WalletLagGate
unreadable wallet node reason = record {
  state = unverifiable;
  wallet_height = wallet;
  node_height = node;
  lag = none;
  reason = reason;
}

abbrev measured : ℕ → ℕ → ℤ → WalletLagState → WalletReason → WalletLagGate
measured wallet node lag state reason = record {
  state = state;
  wallet_height = some wallet;
  node_height = some node;
  lag = some lag;
  reason = reason;
}

abbrev compared : ℤ → ℕ → ℕ → ℤ → WalletLagGate
compared max_lag wallet node lag =
    if lebℤ lag (pos 0)
    then measured wallet node lag safe all_scanned
    else if lebℤ lag max_lag
    then measured wallet node lag safe (inside_budget lag)
    else measured wallet node lag unsafe
        (trails_node lag (wallet + expiry_delta_blocks) (lebℤ (pos expiry_delta_blocks) lag))

unfoldable pub wallet_lag_freshness : ℤ → Option ℕ → Option ℕ → WalletLagGate
wallet_lag_freshness max_lag none our_tip = unreadable none our_tip wallet_unknown
wallet_lag_freshness max_lag (some wallet) none = unreadable (some wallet) none node_unknown
wallet_lag_freshness max_lag (some wallet) (some node) =
    compared max_lag wallet node (sub_ℕ node wallet)

unfoldable pub may_build_from_wallet : WalletLagGate → Bool
may_build_from_wallet gate = elim gate.state [ safe ↦ true | _ ↦ false ]
