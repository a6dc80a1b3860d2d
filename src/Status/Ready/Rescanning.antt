-- ===== src/Status/Ready/Rescanning.antt =====
-- What it means that the wallet is scanning again.
use zcash_faucet.Base.{
  ℕ, ◌≡◌, subst, Bool, true, false, not, ◌⊎◌, inl, inr, Option, none, some, ltb, if◌then◌else◌,
  arith, Bool-cases,
}
use zcash_faucet.Gates.WalletLag.{
  wallet_lag_freshness, wallet_max_lag_blocks, may_build_from_wallet,
}
use zcash_faucet.Status.Node.{NodeStatus, NodeSettings, wallet_caught_up, get_node_status}
use zcash_faucet.Status.Progress.{TipSample}
use zcash_faucet.Status.Ready.{
  ReadinessInputs, ReadinessReason, wallet_rescanning, node_reason, first_reason, node_rungs,
  money_rungs, readiness_reason,
}

rescanning_at :
    (s : NodeSettings) (last_tip : Option TipSample) (w n : ℕ) (external : Option ℕ) (now a b : ℕ)
    → node_reason (get_node_status s last_tip w n external now).0 ≡ some (wallet_rescanning a b)
    → wallet_caught_up s w n ≡ false
unfolding get_node_status
rescanning_at s last_tip w n external now a b e =
    let ns = (get_node_status s last_tip w n external now).0 in
    elim (Bool-cases ns.frozen) [
      | inl frozen ↦ absurd (ground arith)
      | inr moving ↦ elim (Bool-cases (wallet_caught_up s w n)) [
        | inr late ↦ late
        | inl caught ↦ absurd (ground arith)
      ]
    ]

from_node :
    (nr : Option ReadinessReason) (balance : Option ℕ) (sends_block : Bool) (floor a b : ℕ)
    → first_reason nr (money_rungs balance sends_block floor) ≡ some (wallet_rescanning a b)
    → nr ≡ some (wallet_rescanning a b)
from_node (some r) balance sends_block floor a b e = e
from_node none none sends_block floor a b e = cc
from_node none (some balance) true floor a b e = cc
from_node none (some balance) false floor a b e = elim (Bool-cases (ltb balance floor)) [
  | inl low ↦ absurd (ground arith)
  | inr enough ↦ absurd (ground arith)
]

rung_of :
    (ledger backend expected sends_block : Bool) (ns : NodeStatus) (balance : Option ℕ)
    (floor a b : ℕ)
    → (if ledger
        then some ReadinessReason.ledger_unreadable
        else if not backend
        then some ReadinessReason.backend_unreachable
        else first_reason (node_rungs expected (some ns)) (money_rungs balance sends_block floor))
      ≡ some (wallet_rescanning a b)
    → node_reason ns ≡ some (wallet_rescanning a b)
rung_of true backend expected sends_block ns balance floor a b e = cc
rung_of false false expected sends_block ns balance floor a b e = cc
rung_of false true expected sends_block ns balance floor a b e =
    from_node (node_reason ns) balance sends_block floor a b e

rescanning_by :
    (i : ReadinessInputs) (ns : NodeStatus) (a b : ℕ)
    → i.node ≡ some ns
    → readiness_reason i ≡ some (wallet_rescanning a b)
    → node_reason ns ≡ some (wallet_rescanning a b)
unfolding readiness_reason
rescanning_by i ns a b en e =
    rung_of i.ledger_blocks i.backend_reachable i.node_expected i.sends_block ns i.balance_zat
      i.floor_zat a b
      (subst
        (λ (o : Option NodeStatus).
          (if i.ledger_blocks
            then some ReadinessReason.ledger_unreadable
            else if not i.backend_reachable
            then some ReadinessReason.backend_unreachable
            else first_reason (node_rungs i.node_expected o)
                (money_rungs i.balance_zat i.sends_block i.floor_zat))
          ≡ some (wallet_rescanning a b))
        en e)

-- When /api/ready says that the wallet is scanning again, the wallet's lag gate refuses, or our
-- node is at height 0.
pub readiness_reason-rescanning :
    (i : ReadinessInputs) (s : NodeSettings) (last_tip : Option TipSample) (w n : ℕ)
    (external : Option ℕ) (now a b : ℕ)
    → i.node ≡ some ((get_node_status s last_tip w n external now).0)
    → readiness_reason i ≡ some (wallet_rescanning a b)
    → (n ≡ 0)
      ⊎ (may_build_from_wallet
            (wallet_lag_freshness (wallet_max_lag_blocks s.wallet_max_lag) (some w) (some n))
          ≡ false)
readiness_reason-rescanning i s last_tip w n external now a b en e =
    let late : wallet_caught_up s w n ≡ false =
      rescanning_at s last_tip w n external now a b
        (rescanning_by i (get_node_status s last_tip w n external now).0 a b en e) in
    elim (Bool-cases (ltb 0 n)) [
      | inr zero_height ↦ inl (ground arith)
      | inl some_height ↦ inr (ground arith)
    ]
