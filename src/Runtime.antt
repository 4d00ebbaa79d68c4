-- ===== src/Runtime.antt =====
-- The runtime's own code: runtime/src/lib.rs and runtime/account/src/lib.rs.
pub mod Constants
pub mod Gas
pub mod Account
pub mod Ids
mod Tests
