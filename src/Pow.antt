-- ===== src/Pow.antt =====
-- src/lib/powBudget.ts and src/lib/pow.ts: how hard a proof of work is and how it is verified.
pub mod Budget
pub mod Gate
pub mod Solvable
pub mod Verified
pub mod Escalation
mod Tests
