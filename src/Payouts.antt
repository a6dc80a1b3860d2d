-- ===== src/Payouts.antt =====
-- src/lib/zcash: what became of a payout, by our own node and by others', and whether our node is
-- on the network's chain. The readings themselves are made elsewhere.
pub mod Dead
pub mod External
pub mod Identity
mod Tests
