-- ===== src/Jobs.antt =====
-- The nightly checks of the ledger (src/modules/jobs).
pub mod Pages
pub mod HashChain
pub mod Reconciliation
mod Tests
