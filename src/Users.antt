-- ===== src/Users.antt =====
-- The users of the app (src/modules/users).
pub mod Pin
pub mod Password
mod Tests
