-- ===== src/Executor.antt =====
-- Package internal/order/executor: the adapter router, which hands orders and recovery queries to
-- the exchange that the registry has for their route.
pub mod Adapter
pub mod Resolve
pub mod Handed
pub mod Accounted
pub mod Recovered
mod Tests
