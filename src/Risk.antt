-- ===== src/Risk.antt =====
-- Package internal/order/risk: the gate that reviews an order before it is placed.
pub mod Types
pub mod Rules
pub mod Balance
pub mod Metadata
pub mod Pending
pub mod Gate
mod Tests
