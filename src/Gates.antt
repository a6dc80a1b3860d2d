-- ===== src/Gates.antt =====
-- The gates that a drip passes before anything is reserved: src/lib/zcash/shieldGate.ts in Chain,
-- src/lib/zcash/walletLagGate.ts in WalletLag, src/lib/crosslink/recency.ts in Ctaz.
pub mod Chain
pub mod WalletLag
pub mod Ctaz
pub mod Expiry
mod Tests
