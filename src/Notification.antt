-- ===== src/Notification.antt =====
-- internal/notification: the messages that the service sends to its users.
pub mod RateLimiter
pub mod Windows
pub mod Event
pub mod Deliver
pub mod Due
pub mod Delivered
mod Tests
