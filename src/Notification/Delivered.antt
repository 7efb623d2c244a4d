-- ===== src/Notification/Delivered.antt =====
-- internal/notification/service.go: which events DeliverEvent sends.
use core_service.Prelude.{◌≡◌, ◌≢◌, false, some, [], ◌∷◌}
use core_service.Text.{Text}
use core_service.Lifecycle.Events.{Time}
use core_service.Notification.RateLimiter.{RateLimiter}
use core_service.Notification.Event.{Event}
use core_service.Notification.Deliver.{
  NotificationSettings, NotificationPlan, NotificationChannel, Service, Delivery, format_message,
}
use core_service.Notification.Due.{IsDue, IsValidEvent, AreRead, IsGranted}

-- Why a message was sent: the event is valid, the delivery is on, the user's plan, settings and
-- channel were read and let the event through, and the limiter granted it if it is custom.
abbrev pub IsSentFor : Service → Event → RateLimiter → Time → Delivery → Type 0
IsSentFor s event limiter now d =
    IsValidEvent event
    × (s.delivery_enabled ≢ some false)
    × (settings : NotificationSettings) × (plan : NotificationPlan)
    × (channel : NotificationChannel) × AreRead s.repo event settings plan channel
    × IsDue event settings plan channel
    × IsGranted s event plan limiter now d.limiter
    × (d.sent ≡ (channel.target_id, format_message event) ∷ [])
