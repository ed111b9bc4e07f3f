-- ===== src/Ledger.antt =====
-- LedgerService (src/modules/ledger): the only code that moves coins.
pub mod Hash
pub mod Entry
pub mod Service
pub mod Invariant
pub mod Order
pub mod Write
pub mod Keep
pub mod Parts
pub mod Sound
pub mod Outcome
pub mod Replay
pub mod Posts
pub mod Reversals
pub mod Transfers
pub mod Safety
mod Tests
