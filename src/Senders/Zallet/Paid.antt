-- ===== src/Senders/Zallet/Paid.antt =====
-- A definite end of a send says what happened to the money.
use zcash_faucet.Base.{
  ℕ, zero, suc, ◌+◌, ◌≡◌, refl, Bool, true, false, inl, inr, String, Option, none, some, ltb,
  Bool-cases, ◌<◌, ◌⊎◌, str_eq, arith,
}
use zcash_faucet.Senders.Zallet.{
  SenderTimings, Wallet, OpStatus, OperationReply, threw, listed, SendEnd, sent, recipient_refused,
  send_failed, outcome_unknown, SendmanyReply, opid, rpc_error, http_status, not_connected, lost,
  sendmany_failure_is_definite, is_recipient_refusal, sendmany_end, is_pending, result_end,
  poll_retries, poll_status, after_poll, await_loop, await_operation, after_sendmany, after_unlock,
  unlock_if_needed, send,
}

-- What the daemon's answers mean: a result that is not final means nothing.
abbrev pub Means : Bool → OpStatus → Type 0
Means paid OpStatus.success = paid ≡ true
Means paid OpStatus.failed = paid ≡ false
Means paid OpStatus.cancelled = paid ≡ false
Means paid _ = Unit

abbrev pub ReplyMeans : Bool → OperationReply → Type 0
ReplyMeans paid threw = Unit
ReplyMeans paid (listed none) = Unit
ReplyMeans paid (listed (some r)) = Means paid r.status

-- What an end of `z_sendmany` means: an error of the daemon, a status from 400 to 499 and a failed
-- connection say that nothing is paid; an opid, any other status and a lost reply say nothing.
abbrev pub SendmanyMeans : Bool → SendmanyReply → Type 0
SendmanyMeans paid (rpc_error code message) = paid ≡ false
SendmanyMeans paid (http_status n) = (n < 400) ⊎ ((499 < n) ⊎ (paid ≡ false))
SendmanyMeans paid not_connected = paid ≡ false
SendmanyMeans paid _ = Unit

-- The daemon's account of a payment that is made, or is not: a locked wallet makes none, and the
-- ends of `z_sendmany` and the results of operations mean what they say.
pub record IsHonest (w : Wallet) (paid : Bool) : Type 0 where
  pub locked : (now : ℕ) → w.needs_unlock ≡ true → (w.walletpassphrase now).0 ≡ false → paid ≡ false
  pub started : (now : ℕ) → SendmanyMeans paid (w.z_sendmany now).0
  pub result : (now : ℕ) → ReplyMeans paid (w.z_getoperationresult now).0

-- What the end of a send says; an unknown outcome says nothing.
abbrev pub IsTrue : Bool → SendEnd → Type 0
IsTrue paid (sent id) = paid ≡ true
IsTrue paid recipient_refused = paid ≡ false
IsTrue paid send_failed = paid ≡ false
IsTrue paid (outcome_unknown cause) = Unit

abbrev pub EndIsTrue : Bool → Option SendEnd → Type 0
EndIsTrue paid none = Unit
EndIsTrue paid (some e) = IsTrue paid e

status-IsTrue :
    (paid : Bool) (status : OpStatus) (txid : Option String)
    → Means paid status
    → IsTrue paid (result_end (listed (some (record { status = status; txid = txid }))))
unfolding result_end
status-IsTrue paid OpStatus.success none m = tt
status-IsTrue paid OpStatus.success (some id) m = elim (Bool-cases (str_eq id "")) [
  | inl empty ↦ rw empty tt
  | inr named ↦ rw named m
]
status-IsTrue paid OpStatus.failed txid m = m
status-IsTrue paid OpStatus.cancelled txid m = m
status-IsTrue paid OpStatus.queued txid m = tt
status-IsTrue paid OpStatus.executing txid m = tt

result-IsTrue :
    (paid : Bool) (reply : OperationReply) → ReplyMeans paid reply → IsTrue paid (result_end reply)
unfolding result_end
result-IsTrue paid threw m = tt
result-IsTrue paid (listed none) m = tt
result-IsTrue paid (listed (some r)) m = status-IsTrue paid r.status r.txid m

sendmany-IsTrue :
    (paid : Bool) (reply : SendmanyReply)
    → SendmanyMeans paid reply
    → IsTrue paid (sendmany_end reply)
unfolding sendmany_end sendmany_failure_is_definite
sendmany-IsTrue paid (opid id) h = tt
sendmany-IsTrue paid (rpc_error code message) h =
    elim (Bool-cases (is_recipient_refusal code message)) [ inl e ↦ rw e h | inr e ↦ rw e h ]
sendmany-IsTrue paid (http_status n) h =
    elim (Bool-cases (sendmany_failure_is_definite (http_status n))) [
      | inl e ↦ rw e (ground (arith, e, h))
      | inr e ↦ rw e tt
    ]
sendmany-IsTrue paid not_connected h = h
sendmany-IsTrue paid lost h = tt

poll-IsTrue :
    (w : Wallet) (z : SenderTimings) (paid : Bool) (deadline : ℕ) (again : ℕ → Option SendEnd × ℕ)
    (reply : OperationReply) (at : ℕ)
    → IsHonest w paid
    → EndIsTrue paid (again (at + z.poll_ms)).0
    → EndIsTrue paid (after_poll w z deadline again reply at).0
poll-IsTrue w z paid deadline again threw at h rest = tt
poll-IsTrue w z paid deadline again (listed op) at h rest = elim (Bool-cases (is_pending op)) [
  | inr done ↦ rw done (result-IsTrue paid (w.z_getoperationresult at).0 (h.result at))
  | inl pending ↦
      rw pending
        (elim (Bool-cases (ltb deadline at)) [ inl over ↦ rw over tt | inr early ↦ rw early rest ])
]

loop-IsTrue :
    (w : Wallet) (z : SenderTimings) (paid : Bool) (deadline fuel now : ℕ)
    → IsHonest w paid
    → EndIsTrue paid (await_loop w z deadline fuel now).0
unfolding await_loop poll_status
loop-IsTrue w z paid deadline zero now h = tt
loop-IsTrue w z paid deadline (suc fuel) now h =
    let polled = poll_status w z poll_retries now in
    poll-IsTrue w z paid deadline (λ at. await_loop w z deadline fuel at) polled.0 polled.1 h
      (loop-IsTrue w z paid deadline fuel (polled.1 + z.poll_ms) h)

after_sendmany-IsTrue :
    (w : Wallet) (z : SenderTimings) (paid : Bool) (fuel now : ℕ) (reply : SendmanyReply)
    → IsHonest w paid
    → SendmanyMeans paid reply
    → EndIsTrue paid (after_sendmany w z fuel reply now).0
unfolding await_operation
after_sendmany-IsTrue w z paid fuel now (opid id) h r =
    loop-IsTrue w z paid (now + z.op_timeout_ms) fuel now h
after_sendmany-IsTrue w z paid fuel now (rpc_error code message) h r =
    sendmany-IsTrue paid (rpc_error code message) r
after_sendmany-IsTrue w z paid fuel now (http_status n) h r = sendmany-IsTrue paid (http_status n) r
after_sendmany-IsTrue w z paid fuel now not_connected h r = sendmany-IsTrue paid not_connected r
after_sendmany-IsTrue w z paid fuel now lost h r = sendmany-IsTrue paid lost r

unlocked-IsTrue :
    (next : ℕ → Option SendEnd × ℕ) (paid : Bool) (now : ℕ) (needed ok : Bool) (took : ℕ)
    → (needed ≡ true → ok ≡ false → paid ≡ false)
    → ((at : ℕ) → EndIsTrue paid (next at).0)
    → EndIsTrue paid (unlock_if_needed next now needed (ok, took)).0
unlocked-IsTrue next paid now false ok took l rest = rest now
unlocked-IsTrue next paid now true true took l rest = rest (now + took)
unlocked-IsTrue next paid now true false took l rest = l refl refl

-- If the daemon is honest about a payment, a send that ends with a txid has made it, and one that
-- ends with a refused recipient or any other definite error has not: the only end that leaves the
-- payment open is the unknown outcome.
pub send-EndIsTrue :
    (w : Wallet) (z : SenderTimings) (paid : Bool) (fuel now : ℕ)
    → IsHonest w paid
    → EndIsTrue paid (send w z fuel now).0
unfolding send
send-EndIsTrue w z paid fuel now h =
    unlocked-IsTrue (λ at. after_unlock w z fuel at) paid now w.needs_unlock
      (w.walletpassphrase now).0 (w.walletpassphrase now).1 (h.locked now)
      (λ at.
        after_sendmany-IsTrue w z paid fuel (at + (w.z_sendmany at).1) (w.z_sendmany at).0 h
          (h.started at))
