-- ===== src/Db.antt =====
-- The PostgreSQL database behind the services (prisma/schema.prisma), its transactions, and the
-- parts of the platform that the code calls and does not implement.
mod Rows
mod Exceptions
mod Transactions
mod Runtime
unfoldable pub use Rows.*
pub use Exceptions.*
pub use Transactions.*
pub use Runtime.*
