-- ===== src/Stake.antt =====
-- The staking pallet, pallets/stake/src: lib.rs, inflation.rs and the laws that tie its storage
-- items together.
pub mod Types
pub mod Validator
pub mod Nominator
pub mod Storage
pub mod Inflation
mod InflationTests
pub mod CandidateCalls
pub mod NominatorCalls
pub mod Payouts
pub mod Rounds
pub mod Admin
pub mod Agrees
pub mod Runs
pub mod Atomic
pub mod Stuck
pub mod Limits
pub mod Sides
pub mod Backing
pub mod Locked
pub mod Example
mod Tests
mod NominatorTests
mod LimitsTests
mod SidesTests
mod BackingTests
