-- ===== src/Author.antt =====
-- Block authorship: pallets/author-inherent, pallets/author-filter, and how runtime/src/lib.rs puts
-- them together with the staking pallet.
pub mod Filter
pub mod Inherent
pub mod Runtime
mod Tests
