-- ===== src/Reserve.antt =====
-- The reserve loop that tops the hot wallet up: src/lib/reserve/decide.ts (when to sweep),
-- stepFailure.ts (what a failed sweep means, and the back-off), select.ts and, in the child
-- `Loop`, reconciler.ts. Balances are zatoshi, clocks milliseconds.
pub mod Decide
pub mod Failure
pub mod Loop
mod Tests
