-- ===== src/Tips.antt =====
-- src/lib/zcash/externalTip.ts: the chain tip according to servers that are not the faucet's own.
-- Times are milliseconds.
pub mod Block
pub mod BlockId
pub mod Expiry
pub mod Fetch
pub mod References
pub mod Refresh
mod Tests
