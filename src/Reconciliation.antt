-- ===== src/Reconciliation.antt =====
-- Package internal/reconciliation: the comparison of a local with an exchange's wallet state.
pub mod Tiers
pub mod Keys
pub mod Compare
pub mod Venues
pub mod Run
mod Tests
