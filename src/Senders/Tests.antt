-- ===== src/Senders/Tests.antt =====
-- Checks of the senders at concrete inputs.
use zcash_faucet.Base.{◌+◌, ◌≡◌, refl, true, some, ltb, arith, if◌then◌else◌}
use zcash_faucet.Senders.Zallet.{
  SenderTimings, Wallet, OpStatus, OperationReply, listed, threw, opid, sender_worst_case_ms,
  default_task_deadline_ms, deadline_margin_ms, send,
}
use zcash_faucet.Senders.Zallet.Budget.{IsTimely, EndsBy, send-EndsBy}
use zcash_faucet.Senders.Zallet.Paid.{IsHonest, EndIsTrue, send-EndIsTrue}

abbrev timings : SenderTimings
timings = record { op_timeout_ms = 5000; rpc_timeout_ms = 1000; poll_ms = 500 }

abbrev op_reply : OpStatus → OperationReply
op_reply status = listed (some (record { status = status; txid = some "ab" }))

-- The operation runs until 2 s, and its first poll throws.
abbrev daemon : Wallet
daemon = record {
  needs_unlock = true;
  walletpassphrase = λ now. (true, 10);
  z_sendmany = λ now. (opid "op", 20);
  z_getoperationstatus = λ now. (
    if ltb now 100
        then threw
        else op_reply (if ltb now 2000 then OpStatus.executing else OpStatus.success),
    30,
  );
  z_getoperationresult = λ now. (op_reply OpStatus.success, 40);
}

daemon-IsTimely : IsTimely daemon timings
daemon-IsTimely = record {
  unlock = λ now. omega arith;
  sendmany = λ now. omega arith;
  poll = λ now. omega arith;
  result = λ now. omega arith;
}

daemon-IsHonest : IsHonest daemon true
daemon-IsHonest = record {
  locked = λ now needed wrong. wrong;
  started = λ now. tt;
  result = λ now. refl;
}

send-EndsBy_example :
    EndsBy (0 + sender_worst_case_ms timings) (send daemon timings 6000 0)
    × (0 + sender_worst_case_ms timings + deadline_margin_ms ≡ 0 + default_task_deadline_ms timings)
send-EndsBy_example =
    send-EndsBy daemon timings 6000 0 daemon-IsTimely (omega arith) (omega arith) (omega arith)

send-EndIsTrue_example : EndIsTrue true (send daemon timings 6000 0).0
send-EndIsTrue_example = send-EndIsTrue daemon timings true 6000 0 daemon-IsHonest
