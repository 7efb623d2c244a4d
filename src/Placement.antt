-- ===== src/Placement.antt =====
-- Package internal/order/service: the placement of an order, and the recovery of an attempt whose
-- outcome is not known.
pub mod Model
pub mod World
pub mod Contract
pub mod ClientId
pub mod Execution
pub mod Notice
pub mod Answer
pub mod Resolve
pub mod Recheck
pub mod Request
pub mod Review
pub mod Unfit
pub mod Place
pub mod Trace
pub mod Samples
mod Tests
