-- ===== src/Wallets.antt =====
-- The services on a user's wallet (src/modules/wallets).
pub mod Sending
mod Tests
