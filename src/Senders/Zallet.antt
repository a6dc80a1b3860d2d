-- ===== src/Senders/Zallet.antt =====
-- src/lib/zcash/zalletsend.ts and sendBudget.ts: a send by the wallet daemon zallet, from the
-- unlocking to the txid, and the time that it may take. The daemon is a parameter: what it answers
-- to each call at a time, with the milliseconds that the answer takes. Times are milliseconds.
pub mod Budget
pub mod Paid
use text.Mathlib.Text.{starts_with}
use zcash_faucet.Base.{
  ℕ, zero, suc, ◌+◌, ◌-◌, ◌*◌, ◌/◌, Bool, true, false, ◌&&◌, String, Option, none, some, List, [],
  ◌∷◌, any, leb, ltb, ◌==◌, if◌then◌else◌, str_eq,
}
use zcash_faucet.Base.Int.{ℤ, pos, negsuc}

abbrev pub poll_retries : ℕ
poll_retries = 3

pub record SenderTimings : Type 0 where
  pub op_timeout_ms : ℕ
  pub rpc_timeout_ms : ℕ
  pub poll_ms : ℕ

unfoldable pub sender_worst_case_ms : SenderTimings → ℕ
sender_worst_case_ms z =
    z.op_timeout_ms
    + (3 + poll_retries) * z.rpc_timeout_ms
    + poll_retries * (poll_retries + 1) / 2 * z.poll_ms

abbrev pub deadline_margin_ms : ℕ
deadline_margin_ms = 30_000

unfoldable pub default_task_deadline_ms : SenderTimings → ℕ
unfolding sender_worst_case_ms
default_task_deadline_ms z = sender_worst_case_ms z + deadline_margin_ms

pub data OpStatus : Type 0 where
  queued executing success failed cancelled : OpStatus

pub record OperationResult : Type 0 where
  pub status : OpStatus
  pub txid : Option String

-- How `rpc` ends for `z_sendmany`: an opid, an error object with its code and message, another
-- HTTP status than success, no connection (ECONNREFUSED, ENOTFOUND, EAI_AGAIN), or a reply that is
-- lost.
pub data SendmanyReply : Type 0 where
  opid : String → SendmanyReply
  rpc_error : ℤ → String → SendmanyReply
  http_status : ℕ → SendmanyReply
  not_connected lost : SendmanyReply

-- How `rpc` ends for a call that lists operations: it throws, or gives the first one, if any.
pub data OperationReply : Type 0 where
  threw : OperationReply
  listed : Option OperationResult → OperationReply

pub record Wallet : Type 0 where
  pub needs_unlock : Bool
  pub walletpassphrase : ℕ → Bool × ℕ
  pub z_sendmany : ℕ → SendmanyReply × ℕ
  pub z_getoperationstatus : ℕ → OperationReply × ℕ
  pub z_getoperationresult : ℕ → OperationReply × ℕ

pub data UnknownCause : Type 0 where
  no_opid still_pending status_unreadable result_unreadable unexpected_status no_txid : UnknownCause

-- The end of `send`: a txid, `RecipientRefusedError`, any other error that is definite, or
-- `SendOutcomeUnknownError`.
pub data SendEnd : Type 0 where
  sent : String → SendEnd
  recipient_refused send_failed : SendEnd
  outcome_unknown : UnknownCause → SendEnd

-- `sendmanyFailureIsDefinite`.
unfoldable pub sendmany_failure_is_definite : SendmanyReply → Bool
sendmany_failure_is_definite (opid id) = false
sendmany_failure_is_definite (rpc_error code message) = true
sendmany_failure_is_definite (http_status n) = n / 100 == 4
sendmany_failure_is_definite not_connected = true
sendmany_failure_is_definite lost = false

abbrev pub recipient_refusals : List String
recipient_refusals =
    "Invalid parameter, unknown address format" ∷ "Invalid parameter, duplicated recipient address"
    ∷ "Cannot send memo to transparent recipient"
    ∷ "Cannot send zero-valued output to transparent recipient"
    ∷ "This transaction would have transparent recipients"
    ∷ "This transaction would send to a transparent receiver of a unified address"
    ∷ "Could not send to the " ∷ "Could not send to a shielded receiver of a unified address"
    ∷ "Address is for " ∷ "Invalid Sapling payment address"
    ∷ "Invalid Orchard receiver in Unified Address" ∷ "Invalid Sapling receiver in Unified Address"
    ∷ []

abbrev is_minus_eight : ℤ → Bool
is_minus_eight (pos n) = false
is_minus_eight (negsuc n) = n == 7

unfoldable pub is_recipient_refusal : ℤ → String → Bool
is_recipient_refusal code message =
    is_minus_eight code && any (λ p. starts_with message p) recipient_refusals

-- The catch around `z_sendmany`.
unfoldable pub sendmany_end : SendmanyReply → SendEnd
unfolding sendmany_failure_is_definite is_recipient_refusal
sendmany_end (rpc_error code message) =
    if is_recipient_refusal code message then recipient_refused else send_failed
sendmany_end reply =
    if sendmany_failure_is_definite reply then send_failed else outcome_unknown no_opid

-- One try of `pollStatus`: what follows its failure is `again`, behind the wait.
abbrev pub after_try : (ℕ → OperationReply × ℕ) → ℕ → OperationReply → ℕ → OperationReply × ℕ
after_try again wait threw at = again (at + wait)
after_try again wait (listed op) at = (listed op, at)

-- `pollStatus`, with the tries that are left: the first reply that can be read, and the time.
unfoldable pub poll_status : Wallet → SenderTimings → ℕ → ℕ → OperationReply × ℕ
poll_status w z zero now = (threw, now)
poll_status w z (suc left) now =
    after_try (λ at. poll_status w z left at) (z.poll_ms * (poll_retries - left))
      (w.z_getoperationstatus now).0 (now + (w.z_getoperationstatus now).1)

abbrev pub is_pending : Option OperationResult → Bool
is_pending none = true
is_pending (some r) = elim r.status [ queued ↦ true | executing ↦ true | _ ↦ false ]

-- An empty txid is none.
abbrev pub success_end : OperationResult → SendEnd
success_end r = elim r.txid [
  | none ↦ outcome_unknown no_txid
  | some id ↦ if str_eq id "" then outcome_unknown no_txid else sent id
]

-- What follows the loop: the operation's result.
unfoldable pub result_end : OperationReply → SendEnd
result_end threw = outcome_unknown result_unreadable
result_end (listed none) = outcome_unknown unexpected_status
result_end (listed (some r)) = elim r.status [
  | failed ↦ send_failed
  | cancelled ↦ send_failed
  | success ↦ success_end r
  | queued ↦ outcome_unknown unexpected_status
  | executing ↦ outcome_unknown unexpected_status
]

abbrev pub read_result : Wallet → ℕ → Option SendEnd × ℕ
read_result w now =
    let (reply, took) = w.z_getoperationresult now in (some (result_end reply), now + took)

-- One round of `awaitOperation`, behind its poll: `again` is the next round, behind the wait.
abbrev pub after_poll :
    Wallet → SenderTimings → ℕ → (ℕ → Option SendEnd × ℕ) → OperationReply → ℕ → Option SendEnd × ℕ
after_poll w z deadline again threw at = (some (outcome_unknown status_unreadable), at)
after_poll w z deadline again (listed op) at =
    if is_pending op
    then (if ltb deadline at
        then (some (outcome_unknown still_pending), at)
        else again (at + z.poll_ms))
    else read_result w at

-- The loop of `awaitOperation` on fuel, which counts its rounds: none when that runs out.
unfoldable pub await_loop : Wallet → SenderTimings → ℕ → ℕ → ℕ → Option SendEnd × ℕ
unfolding result_end poll_status
await_loop w z deadline zero now = (none, now)
await_loop w z deadline (suc fuel) now =
    after_poll w z deadline (λ at. await_loop w z deadline fuel at)
      (poll_status w z poll_retries now).0 (poll_status w z poll_retries now).1

unfoldable pub await_operation : Wallet → SenderTimings → ℕ → ℕ → Option SendEnd × ℕ
await_operation w z fuel now = await_loop w z (now + z.op_timeout_ms) fuel now

abbrev pub after_sendmany : Wallet → SenderTimings → ℕ → SendmanyReply → ℕ → Option SendEnd × ℕ
after_sendmany w z fuel (opid id) now = await_operation w z fuel now
after_sendmany w z fuel reply now = (some (sendmany_end reply), now)

abbrev pub after_unlock : Wallet → SenderTimings → ℕ → ℕ → Option SendEnd × ℕ
after_unlock w z fuel now =
    let (reply, took) = w.z_sendmany now in after_sendmany w z fuel reply (now + took)

-- `unlockIfNeeded`, from what it answers.
abbrev pub unlock_if_needed : (ℕ → Option SendEnd × ℕ) → ℕ → Bool → Bool × ℕ → Option SendEnd × ℕ
unlock_if_needed next now false answer = next now
unlock_if_needed next now true (true, took) = next (now + took)
unlock_if_needed next now true (false, took) = (some send_failed, now + took)

-- `send`.
unfoldable pub send : Wallet → SenderTimings → ℕ → ℕ → Option SendEnd × ℕ
unfolding await_operation sendmany_end
send w z fuel now =
    unlock_if_needed (λ at. after_unlock w z fuel at) now w.needs_unlock (w.walletpassphrase now)
