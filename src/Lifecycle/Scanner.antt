-- ===== src/Lifecycle/Scanner.antt =====
-- internal/order/lifecycle/scanner.go: the scanner that recovers open orders by REST, and closes
-- those past their deadline. Its collaborators (store, reader, canceller) answer from the list of
-- the calls made so far, latest first, so that any of their behaviours is covered.
pub mod Model
pub mod Orders
pub mod Scan
pub mod Trace
pub mod Spared
pub mod Backoff
pub mod Recovery
