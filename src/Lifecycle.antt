-- ===== src/Lifecycle.antt =====
-- Package internal/order/lifecycle: lifecycle events of orders, recovery, cancellation, matching.
pub mod Events
pub mod Identity
pub mod Scanner
pub mod Backtest
pub mod Cancel
pub mod UserData
mod Tests
