-- ===== src/Node.antt =====
-- The node: node/src.
pub mod Inherents
pub mod ChainSpec
pub mod Command
pub mod Cli
pub mod Service
pub mod Effects
pub mod Rpc
pub mod Sealing
pub mod Maintenance
mod Example
mod Tests
