-- ===== src/Status.antt =====
-- What the faucet says of itself: the motion of our node's tip, the box and its audits, the miner,
-- the failures of status reads, and the readiness and the page that rest on them.
pub mod Box
pub mod Cache
pub mod Failures
pub mod Heartbeat
pub mod Node
pub mod Progress
pub mod Ready
mod Tests
