-- ===== src/Faucet.antt =====
-- src/app/api/faucet/route.ts: one claim, from the request to the answer. This file has the data of
-- a claim: the configuration, the request, what the handler reads of the world, and its answers.
-- Guards has the checks in front of the reservation, Payout the reservation and the send.
pub mod Guards
pub mod Payout
pub mod Ours
pub mod Cleared
pub mod Outcome
pub mod Once
pub mod Rows
pub mod Between
pub mod Released
mod Tests
use zcash_faucet.Base.{ℕ, Bool, String, Option, List}
use zcash_faucet.Base.Int.{ℤ}
use zcash_faucet.Network.{Network}
use zcash_faucet.Ledger.{Ledger}
use zcash_faucet.Ledger.Calls.{Kind, Scope}
use zcash_faucet.SendHealth.{SendRecord}
use zcash_faucet.Pow.Gate.{PowConfig, Solution, Attempts}
use zcash_faucet.Gates.Ctaz.{CtazReading, Source}

-- The fields of `config` that the handler uses, and the two lag budgets as configured.
pub record Config : Type 0 where
  pub drip_zatoshi : ℕ
  pub min_reserve_zatoshi : ℕ
  pub daily_cap_zatoshi : ℕ
  pub cooldown_seconds : ℕ
  pub subnet_daily_max : ℕ
  pub ip_daily_max : ℕ
  pub crosslink_enabled : Bool
  pub crosslink_expected_zat : ℕ
  pub crosslink_daily_cap_zatoshi : ℕ
  pub challenge_is_pow : Bool
  pub sender_is_zallet : Bool
  pub shield_max_lag : ℤ
  pub wallet_max_lag : ℤ
  pub send_task_deadline_ms : ℕ
  pub pending_lease : ℕ
  pub pow : PowConfig

-- A body that the schema accepts; `address` is trimmed.
pub record Body : Type 0 where
  pub address : String
  pub network : Option String
  pub pow : Option Solution

pub record NodeStatus : Type 0 where
  pub height : Option ℕ
  pub node_height : Option ℕ

pub record CtazNodeState : Type 0 where
  pub reading : CtazReading
  pub blocks : Option ℕ
  pub tip : Option ℕ
  pub source : Source

-- How the queued send ends: with a result, or with the error that the handler catches.
pub data SendReply : Type 0 where
  broadcast : Option String → SendReply
  outcome_unknown : String → SendReply
  past_deadline queue_full recipient_refused send_failed : SendReply

-- What the handler asks of the code outside it, as it is answered during this request.
pub record World : Type 0 where
  pub now : ℕ
  pub now_ms : ℕ
  pub ip_hash : Option String
  pub subnet_hash : Option String
  pub address_valid : Bool
  pub draining : Bool
  pub verified_ms : ℕ
  pub balance : Option ℕ
  pub node : Option NodeStatus
  pub external_tip : Option ℕ
  pub ctaz_node : CtazNodeState
  pub spent_at : ℕ
  pub reply : SendReply
  pub settled_ms : ℕ
  pub settled_day : String

-- What the handler changes that outlives the request: the database, the log of sends, and the
-- attempts at challenges that raise the difficulty of the next.
pub record Site : Type 0 where
  pub ledger : Ledger
  pub send_log : List SendRecord
  pub attempts : Attempts

-- The gate that `apiError` is given.
pub data Gate : Type 0 where
  bad_body bad_address bad_network ctaz_disabled draining_gate send_health : Gate
  pow_required pow_failed challenge_spent empty freshness wallet_lag ctaz_readiness : Gate
  daily_cap cooldown send_unknown busy recipient send_failed_gate : Gate

pub data ErrorKind : Type 0 where
  restarting sends busy_kind recipient_kind : ErrorKind
  of_refusal : Kind → ErrorKind

pub record ApiError : Type 0 where
  pub status : ℕ
  pub gate : Gate
  pub kind : Option ErrorKind
  pub scope : Option Scope
  pub retry_after_seconds : Option ℕ
  pub next_at : Option ℕ

pub data Response : Type 0 where
  api_error : ApiError → Response
  paid : Option String → Network → Response
