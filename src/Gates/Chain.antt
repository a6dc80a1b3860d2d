-- ===== src/Gates/Chain.antt =====
-- src/lib/zcash/shieldGate.ts: is our node's view of the chain fresh enough to build a transaction?
-- Heights are natural numbers; the lag and its budget are integers, as both may be negative.
use zcash_faucet.Base.{ℕ, Bool, true, false, Option, none, some, if◌then◌else◌}
use zcash_faucet.Base.Int.{ℤ, pos, negsuc, sub_ℕ, lebℤ}

pub data ChainFreshness : Type 0 where
  safe unsafe unverifiable : ChainFreshness

-- The sentence for the operator, with the numbers that it quotes.
pub data GateReason : Type 0 where
  node_unknown tip_unknown : GateReason
  node_behind node_ahead within_budget : ℤ → GateReason

pub record ChainGate : Type 0 where
  pub state : ChainFreshness
  pub node_height : Option ℕ
  pub external_height : Option ℕ
  pub lag : Option ℤ
  pub reason : GateReason

abbrev pub expiry_delta_blocks : ℕ
expiry_delta_blocks = 40

abbrev pub shield_lag_ceiling : ℤ
shield_lag_ceiling = pos 10

-- SHIELD_MAX_LAG_BLOCKS, from the configured number.
abbrev pub shield_max_lag_blocks : ℤ → ℤ
shield_max_lag_blocks configured =
    if lebℤ configured shield_lag_ceiling then configured else shield_lag_ceiling

abbrev is_negative : ℤ → Bool
is_negative (pos n) = false
is_negative (negsuc n) = true

abbrev measured : ℕ → ℕ → ℤ → ChainFreshness → GateReason → ChainGate
measured node external lag state reason = record {
  state = state;
  node_height = some node;
  external_height = some external;
  lag = some lag;
  reason = reason;
}

abbrev compared : ℤ → ℕ → ℕ → ℤ → ChainGate
compared max_lag node external lag =
    if lebℤ lag max_lag
    then if is_negative lag
      then measured node external lag safe (node_ahead lag)
      else measured node external lag safe (within_budget lag)
    else measured node external lag unsafe (node_behind lag)

unfoldable pub chain_freshness : ℤ → Option ℕ → Option ℕ → ChainGate
chain_freshness max_lag none external = record {
  state = unverifiable;
  node_height = none;
  external_height = external;
  lag = none;
  reason = node_unknown;
}
chain_freshness max_lag (some node) none = record {
  state = unverifiable;
  node_height = some node;
  external_height = none;
  lag = none;
  reason = tip_unknown;
}
chain_freshness max_lag (some node) (some external) =
    compared max_lag node external (sub_ℕ external node)

unfoldable pub may_build_transaction : ChainGate → Bool
may_build_transaction gate = elim gate.state [ safe ↦ true | _ ↦ false ]

-- The three sentences of a refusal; `none` is the thrown error.
pub data RefusalText : Type 0 where
  catching_up no_node_height tip_not_verified : RefusalText

unfoldable pub freshness_refusal_text : ChainGate → Option RefusalText
freshness_refusal_text gate = elim gate.state [
  | safe ↦ none
  | unsafe ↦ some catching_up
  | unverifiable ↦ elim gate.node_height [
    | none ↦ some no_node_height
    | some n ↦ some tip_not_verified
  ]
]
