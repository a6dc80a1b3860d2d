-- ===== src/Senders/Zallet/Budget.antt =====
-- The time that a send takes.
use zcash_faucet.Base.{
  ℕ, zero, suc, ◌+◌, ◌*◌, ◌≤◌, ◌<◌, ◌≡◌, refl, Bool, true, false, inl, inr, Option, ltb, arith,
  Bool-cases,
}
use zcash_faucet.Base.Map.{is_some}
use zcash_faucet.Senders.Zallet.{
  SenderTimings, Wallet, OperationReply, threw, listed, SendEnd, SendmanyReply, opid, rpc_error,
  http_status, not_connected, lost, after_try, after_poll, sender_worst_case_ms,
  default_task_deadline_ms, deadline_margin_ms, poll_retries, poll_status, is_pending, await_loop,
  await_operation, after_sendmany, after_unlock, unlock_if_needed, send,
}

-- No call takes longer than `AbortSignal.timeout(rpcTimeoutMs)` lets it.
pub record IsTimely (w : Wallet) (z : SenderTimings) : Type 0 where
  pub unlock : (now : ℕ) → (w.walletpassphrase now).1 ≤ z.rpc_timeout_ms
  pub sendmany : (now : ℕ) → (w.z_sendmany now).1 ≤ z.rpc_timeout_ms
  pub poll : (now : ℕ) → (w.z_getoperationstatus now).1 ≤ z.rpc_timeout_ms
  pub result : (now : ℕ) → (w.z_getoperationresult now).1 ≤ z.rpc_timeout_ms

abbrev pub EndsBy : ℕ → Option SendEnd × ℕ → Type 0
EndsBy limit r = (is_some r.0 ≡ true) × (r.1 ≤ limit)

-- A reply that comes by b, or a last failure by a.
abbrev Within : ℕ → ℕ → ℕ → OperationReply × ℕ → Type 0
Within now a b r = (now ≤ r.1) × (elim r.0 [ threw ↦ r.1 ≤ a | listed op ↦ r.1 ≤ b ])

one_try :
    (again : ℕ → OperationReply × ℕ) (wait now at a b : ℕ) (reply : OperationReply)
    → now ≤ at
    → at ≤ b
    → Within (at + wait) a b (again (at + wait))
    → Within now a b (after_try again wait reply at)
one_try again wait now at a b threw from h later = (omega (arith, later.0), later.1)
one_try again wait now at a b (listed op) from h later = (from, h)

-- `pollStatus` in full: three calls and the waits of 1, 2 and 3 polls behind those that fail.
poll_in_time :
    (w : Wallet) (z : SenderTimings) (now : ℕ)
    → IsTimely w z
    → Within now
        (now + 3 * z.rpc_timeout_ms + 6 * z.poll_ms)
        (now + 3 * z.rpc_timeout_ms + 3 * z.poll_ms)
        (poll_status w z poll_retries now)
unfolding poll_status
poll_in_time w z now t =
    let rpc : ℕ = z.rpc_timeout_ms in
    let a : ℕ = now + 3 * rpc + 6 * z.poll_ms in
    let b : ℕ = now + 3 * rpc + 3 * z.poll_ms in
    let t1 : ℕ = (w.z_getoperationstatus now).1 in
    let now2 : ℕ = now + t1 + z.poll_ms * 1 in
    let t2 : ℕ = (w.z_getoperationstatus now2).1 in
    let now3 : ℕ = now2 + t2 + z.poll_ms * 2 in
    let t3 : ℕ = (w.z_getoperationstatus now3).1 in
    one_try (λ at. poll_status w z 2 at) (z.poll_ms * 1) now (now + t1) a b
      (w.z_getoperationstatus now).0 (omega arith) (omega (arith, t.poll now))
      (one_try (λ at. poll_status w z 1 at) (z.poll_ms * 2) now2 (now2 + t2) a b
        (w.z_getoperationstatus now2).0 (omega arith) (omega (arith, t.poll now, t.poll now2))
        (one_try (λ at. poll_status w z 0 at) (z.poll_ms * 3) now3 (now3 + t3) a b
          (w.z_getoperationstatus now3).0 (omega arith)
          (omega (arith, t.poll now, t.poll now2, t.poll now3))
          (omega arith, omega (arith, t.poll now, t.poll now2, t.poll now3))))

-- Where the loop ends, from a round that starts at most a poll behind the deadline.
abbrev limit_of : SenderTimings → ℕ → ℕ
limit_of z deadline = deadline + 4 * z.rpc_timeout_ms + 6 * z.poll_ms

round_in_time :
    (w : Wallet) (z : SenderTimings) (deadline now : ℕ) (again : ℕ → Option SendEnd × ℕ)
    (reply : OperationReply) (at : ℕ)
    → IsTimely w z
    → z.poll_ms ≤ z.rpc_timeout_ms
    → now ≤ deadline + z.poll_ms
    → Within now
        (now + 3 * z.rpc_timeout_ms + 6 * z.poll_ms)
        (now + 3 * z.rpc_timeout_ms + 3 * z.poll_ms)
        (reply, at)
    → (at ≤ deadline → EndsBy (limit_of z deadline) (again (at + z.poll_ms)))
    → EndsBy (limit_of z deadline) (after_poll w z deadline again reply at)
round_in_time w z deadline now again threw at t le soon (from, by) rest = (refl, omega arith)
round_in_time w z deadline now again (listed op) at t le soon (from, by) rest =
    elim (Bool-cases (is_pending op)) [
      | inr done ↦ rw done (refl, omega (arith, t.result at))
      | inl pending ↦ rw pending (elim (Bool-cases (ltb deadline at)) [
        | inl over ↦ rw over (refl, omega arith)
        | inr early ↦ rw early (rest (ground arith))
      ])
    ]

await_loop_in_time :
    (w : Wallet) (z : SenderTimings) (deadline fuel now : ℕ)
    → IsTimely w z
    → 1 ≤ z.poll_ms
    → z.poll_ms ≤ z.rpc_timeout_ms
    → now ≤ deadline + z.poll_ms
    → deadline + z.poll_ms < now + fuel
    → EndsBy (limit_of z deadline) (await_loop w z deadline fuel now)
unfolding await_loop poll_status
await_loop_in_time w z deadline zero now t some_time le soon enough = absurd (omega arith)
await_loop_in_time w z deadline (suc fuel) now t some_time le soon enough =
    let polled = poll_status w z poll_retries now in
    let within = poll_in_time w z now t in
    round_in_time w z deadline now (λ at. await_loop w z deadline fuel at) polled.0 polled.1 t le
      soon within
      (λ early.
        await_loop_in_time w z deadline fuel (polled.1 + z.poll_ms) t some_time le (omega arith)
          (omega (arith, within.0)))

after_sendmany_in_time :
    (w : Wallet) (z : SenderTimings) (fuel now : ℕ) (reply : SendmanyReply)
    → IsTimely w z
    → 1 ≤ z.poll_ms
    → z.poll_ms ≤ z.rpc_timeout_ms
    → z.op_timeout_ms + z.poll_ms < fuel
    → EndsBy
        (now + z.op_timeout_ms + 4 * z.rpc_timeout_ms + 6 * z.poll_ms)
        (after_sendmany w z fuel reply now)
unfolding await_operation
after_sendmany_in_time w z fuel now (opid id) t some_time le enough =
    await_loop_in_time w z (now + z.op_timeout_ms) fuel now t some_time le (omega arith)
      (omega arith)
after_sendmany_in_time w z fuel now (rpc_error code message) t some_time le enough =
    (refl, omega arith)
after_sendmany_in_time w z fuel now (http_status n) t some_time le enough = (refl, omega arith)
after_sendmany_in_time w z fuel now not_connected t some_time le enough = (refl, omega arith)
after_sendmany_in_time w z fuel now lost t some_time le enough = (refl, omega arith)

after_unlock_in_time :
    (w : Wallet) (z : SenderTimings) (fuel now : ℕ)
    → IsTimely w z
    → 1 ≤ z.poll_ms
    → z.poll_ms ≤ z.rpc_timeout_ms
    → z.op_timeout_ms + z.poll_ms < fuel
    → EndsBy
        (now + z.op_timeout_ms + 5 * z.rpc_timeout_ms + 6 * z.poll_ms)
        (after_unlock w z fuel now)
after_unlock_in_time w z fuel now t some_time le enough =
    let ended =
      after_sendmany_in_time w z fuel (now + (w.z_sendmany now).1) (w.z_sendmany now).0 t some_time
        le enough in
    (ended.0, omega (arith, ended.1, t.sendmany now))

unlocked_in_time :
    (next : ℕ → Option SendEnd × ℕ) (now rpc limit : ℕ) (needed ok : Bool) (took : ℕ)
    → took ≤ rpc
    → ((at : ℕ) → EndsBy (at + limit) (next at))
    → EndsBy (now + rpc + limit) (unlock_if_needed next now needed (ok, took))
unlocked_in_time next now rpc limit false ok took le ends =
    ((ends now).0, omega (arith, (ends now).1))
unlocked_in_time next now rpc limit true true took le ends =
    ((ends (now + took)).0, omega (arith, (ends (now + took)).1))
unlocked_in_time next now rpc limit true false took le ends = (refl, omega arith)

-- If every call keeps its timeout and a poll is at least a millisecond and at most that timeout,
-- a send ends, within a round for each millisecond of the operation's timeout and one poll, and at
-- the latest `senderWorstCaseMs` after its start, which is the margin before the default deadline
-- of the queue's task.
pub send-EndsBy :
    (w : Wallet) (z : SenderTimings) (fuel now : ℕ)
    → IsTimely w z
    → 1 ≤ z.poll_ms
    → z.poll_ms ≤ z.rpc_timeout_ms
    → z.op_timeout_ms + z.poll_ms < fuel
    → EndsBy (now + sender_worst_case_ms z) (send w z fuel now)
      × (now + sender_worst_case_ms z + deadline_margin_ms ≡ now + default_task_deadline_ms z)
unfolding send sender_worst_case_ms default_task_deadline_ms
send-EndsBy w z fuel now t some_time le enough =
    let rest : ℕ = z.op_timeout_ms + 5 * z.rpc_timeout_ms + 6 * z.poll_ms in
    let ended =
      unlocked_in_time (λ at. after_unlock w z fuel at) now z.rpc_timeout_ms rest w.needs_unlock
        (w.walletpassphrase now).0 (w.walletpassphrase now).1 (t.unlock now)
        (λ at.
          let inner = after_unlock_in_time w z fuel at t some_time le enough in
          (inner.0, omega (arith, inner.1))) in
    ((ended.0, omega (arith, ended.1)), omega arith)
