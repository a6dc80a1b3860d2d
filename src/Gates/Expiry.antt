-- ===== src/Gates/Expiry.antt =====
-- What passing the gates guarantees.
use zcash_faucet.Base.{
  ℕ, ◌+◌, ◌≤◌, ◌<◌, ◌≡◌, ◌≢◌, true, Option, none, some, ◌↔◌, arith, refl, sym, ◌∙◌,
}
use zcash_faucet.Base.Int.{ℤ, pos, negsuc}
use zcash_faucet.Gates.Chain.{
  chain_freshness, may_build_transaction, shield_max_lag_blocks, expiry_delta_blocks,
}
use zcash_faucet.Gates.Ctaz.{Source, from_rpc, reading_for, can_serve_ctaz}
use zcash_faucet.Gates.WalletLag.{
  wallet_lag_freshness, may_build_from_wallet, wallet_max_lag_blocks,
}

-- Whatever lag is configured, a clearance to build names a readable node height and a readable
-- reference tip at most ten blocks above it.
pub chain-safe :
    (configured : ℤ) (our_tip external : Option ℕ)
    → may_build_transaction (chain_freshness (shield_max_lag_blocks configured) our_tip external)
      ≡ true
    → (n e : ℕ) × (our_tip ≡ some n) × (external ≡ some e) × (e ≤ n + 10)
unfolding chain_freshness may_build_transaction
chain-safe configured none external ok = ground arith
chain-safe configured (some n) none ok = ground arith
chain-safe (pos c) (some n) (some e) ok = (n, e, refl, refl, ground arith)
chain-safe (negsuc c) (some n) (some e) ok = (n, e, refl, refl, ground arith)

-- Whatever lag is configured, a clearance of the wallet names a readable scanned height and a
-- readable node tip at most twenty blocks above it.
pub wallet-safe :
    (configured : ℤ) (wallet our_tip : Option ℕ)
    → may_build_from_wallet (wallet_lag_freshness (wallet_max_lag_blocks configured) wallet our_tip)
      ≡ true
    → (w n : ℕ) × (wallet ≡ some w) × (our_tip ≡ some n) × (n ≤ w + 20)
unfolding wallet_lag_freshness may_build_from_wallet
wallet-safe configured none our_tip ok = ground arith
wallet-safe configured (some w) none ok = ground arith
wallet-safe (pos c) (some w) (some n) ok = (w, n, refl, refl, ground arith)
wallet-safe (negsuc c) (some w) (some n) ok = (w, n, refl, refl, ground arith)

-- Both heights are known, and the expiry that is stamped from what the wallet has scanned is more
-- than nine blocks above the tip.
abbrev pub IsUnexpired : Option ℕ → Option ℕ → Type 0
IsUnexpired wallet tip =
    (w e : ℕ) × (wallet ≡ some w) × (tip ≡ some e) × (e + 9 < w + expiry_delta_blocks)

-- When both gates pass on one reading of the node, the height that the wallet stamps as the
-- transaction's expiry, forty above what it has scanned, is more than nine blocks above the
-- reference tip, whatever budgets are configured.
pub gates-IsUnexpired :
    (shield_lag wallet_lag : ℤ) (wallet our_tip external : Option ℕ)
    → may_build_transaction (chain_freshness (shield_max_lag_blocks shield_lag) our_tip external)
      ≡ true
    → may_build_from_wallet (wallet_lag_freshness (wallet_max_lag_blocks wallet_lag) wallet our_tip)
      ≡ true
    → IsUnexpired wallet external
gates-IsUnexpired shield_lag wallet_lag wallet our_tip external fresh scanned =
    let (n, e, node_is, external_is, near) = chain-safe shield_lag our_tip external fresh in
    let (w, n', wallet_is, node_is', near') = wallet-safe wallet_lag wallet our_tip scanned in
    (w, e, wallet_is, external_is, ground (arith, sym node_is ∙ node_is'))

-- cTAZ is served on a reply exactly when it came over the RPC with all four fields readable, was
-- stamped at most 120 seconds ago and not in the future, its round is zero to two past the locked
-- one, its finalizers are not none at all, and the node is at most two blocks short of the tip.
pub served_iff :
    (utc height round locked now blocks tip : ℕ) (finalizers : Option ℕ) (source : Source)
    → (can_serve_ctaz
          (reading_for
            (some (record {
              now_utc = some utc;
              my_height = some height;
              my_round = some round;
              my_locked_round = some locked;
              finalizers = finalizers;
            }))
            now).state
          (some blocks)
          (some tip)
          source
        ≡ true)
      ↔ ((source ≡ from_rpc)
          × (utc ≤ now)
          × (now ≤ utc + 120)
          × (locked ≤ round)
          × (round ≤ locked + 2)
          × (finalizers ≢ some 0)
          × (tip ≤ blocks + 2))
unfolding reading_for can_serve_ctaz
served_iff utc height round locked now blocks tip finalizers source = ground arith
