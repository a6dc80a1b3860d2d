-- ===== src/Senders.antt =====
-- src/lib/zcash: the senders that pay a drip out, and what is read of the wallet beside it.
pub mod Donations
pub mod Zallet
mod Tests
