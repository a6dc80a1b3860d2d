-- ===== src/Lib.antt =====
-- A model of the testnet faucet of this repository and the theorems that make its claims safe.
--
-- The program: POST /api/faucet (src/app/api/faucet/route.ts) takes an address, passes it through
-- the guards, burns the visitor's proof of work, reserves a claim in the ledger, queues one send
-- on the hot wallet and settles the claim by how that send ends. The ledger (src/lib/db) limits
-- what an address, a connection, a subnet and a day may take. Send health (src/lib/zcash/
-- sendHealth.ts) judges the wallet from the ends of its recent sends and closes the handler when
-- they fail. The reserve loop (src/lib/reserve) tops the wallet up through the same send queue.
--
-- Files:
--   Base: shared names, Boolean tests on numbers, lists, maps and integers.
--   Network: src/lib/network.ts.
--   Ledger: src/lib/db/sql.ts, each statement as a function on lists of rows; Ledger/Calls:
--     reserveClaim, whyBlocked, finalizeClaim, spendChallenge and challengeAlreadySpent of
--     src/lib/db/index.ts; Ledger/Limits states the four limits as one family, Ledger/Steps the
--     ledger over time as a step relation; Safety, Diagnosis, Retry, Retention, Release,
--     Challenges and Drips hold the theorems.
--   SendHealth: src/lib/zcash/sendHealth.ts; Verdict, Log and Served hold the theorems.
--   RateLimit: src/lib/rateLimit.ts; Bound and Quota hold the theorems, Spec an abstract
--     limiter and Refines the refinement.
--   Gates: Chain is src/lib/zcash/shieldGate.ts, WalletLag src/lib/zcash/walletLagGate.ts, Ctaz
--     src/lib/crosslink/recency.ts; Expiry holds the theorems.
--   Faucet: the data of a claim; Faucet/Guards and Faucet/Payout are the handler, step by step in
--     the order of route.ts, with `post` the whole of it; Ours, Cleared, Outcome, Once,
--     Rows, Between and Released hold the theorems.
--   SendQueue: src/lib/zcash/queue.ts; Serial holds the theorem.
--   Pow: Budget is src/lib/powBudget.ts, Gate src/lib/pow.ts; Solvable, Verified and Escalation hold
--     the theorems.
--   Reserve: Decide is src/lib/reserve/decide.ts and select.ts, Failure stepFailure.ts, Loop
--     reconciler.ts.
--   Tips: src/lib/zcash/externalTip.ts and externalBlock.ts: BlockId and Block read and write the
--     protobuf messages, Fetch is one round of questions, Refresh the process-wide cache as steps,
--     References what the sources say together, Expiry the stamp of expiryTip.ts.
--   Senders: Zallet is src/lib/zcash/zalletsend.ts with sendBudget.ts; Budget and Paid hold the
--     theorems; Donations is donations.ts, Donations/Pages the pages of zalletsend.ts.
--   Payouts: Dead is src/lib/zcash/payoutDead.ts, External payoutExternal.ts (Source reads one
--     reply), Identity chainIdentity.ts.
--   Status: Progress is src/lib/zcash/tipProgress.ts, Node nodeStatus.ts, Cache
--     nodeStatusCache.ts, Failures
--     nodeStatusFailure.ts, Heartbeat src/lib/miner/heartbeat.ts, Box src/lib/boxIntegrity.ts, and
--     Ready src/lib/readiness.ts with src/lib/faucetPhase.ts.
--   Each Tests file applies the theorems at concrete inputs.
--
-- State is passed explicitly: `Ledger` is the three tables and the next row id, `Site` a ledger,
-- the log of sends and the attempts at challenges, `LoopState` the fields of the reconciler. What
-- a request reads of code outside the model (the validated address, the balance, the node's
-- heights, the reference tip, how the send ends, the clock at each call) is the record `World`;
-- whether the signature of a solution is ours, and the zero bits of its digest, come with the
-- solution. The salted fingerprint of an address is a parameter, any function on texts.
--
-- Numbers are unbounded natural numbers: times are whole seconds or milliseconds since the epoch,
-- amounts are zatoshi, which stay below 2^53 for any cap that the faucet can hold. A difference
-- that may be negative is an integer, and a comparison with a subtraction on its other side is
-- written as an addition, so no subtraction is cut off. Quotients that the code takes in floating
-- point are exact. A NULL ip or subnet hash is stored as the empty text, as the rules skip both.
-- The purge of old rows and the drip counter, which the code starts beside the statement it
-- awaits, are modelled as done first. The search for the hardest solvable difficulty runs for the
-- 41 - baseBits turns that its bound of forty bits leaves. The poll loop of a send runs for a
-- round for each millisecond of the operation's timeout and one poll, as every round but the last
-- waits, and the readers of a protobuf message for a round for each byte, as a message that is
-- well formed takes at least one; a height is rounded to a double on fuel for the 971 doublings
-- of its unit below 2^1024. Every other loop is a recursion on a list or a number. A request of
-- the handler runs to its answer before the next one starts; the ledger's own interleavings are
-- the steps of Ledger/Steps, and those of the queue the events of SendQueue.
--
-- A wallet daemon, the servers that are asked for the tip and the other sources are parameters:
-- what they answer to a call, and the time that it takes.
--
-- Not modelled: the other senders and the requests of the node reads (RPC), the hashing and the
-- seeds of the proof of work, the classification of URLs, the drivers and their failures, the
-- rendered views, the pages, and the deployment scripts.
pub mod Base
pub mod Network
pub mod Ledger
pub mod SendHealth
pub mod RateLimit
pub mod Gates
pub mod Faucet
pub mod SendQueue
pub mod Pow
pub mod Reserve
pub mod Senders
pub mod Tips
pub mod Payouts
pub mod Status
