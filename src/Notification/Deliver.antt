-- ===== src/Notification/Deliver.antt =====
-- internal/notification/service.go: DeliverEvent, with the records of
-- internal/domain/notification.go that it reads. The database and the sender are parameters.
use core_service.Prelude.{
  Bool, true, not, ◌&&◌, ◌||◌, Option, none, some, List, [], ◌∷◌, ◌++◌, if◌then◌else◌, Result, ok,
  err, ◌>>=◌,
}
use core_service.Prelude.Int.{ℤ, pos, ltb_ℤ}
use core_service.Text.{Text, codes, is_empty, trim_space, text_eq, decimal}
use core_service.Lifecycle.Events.{Time}
use core_service.Notification.RateLimiter.{Duration, RateLimiter, allow}
use core_service.Notification.Event.{
  Event, category_system, category_strategy, category_custom, validate_event,
}

pub record NotificationSettings : Type 0 where
  pub enabled : Bool
  pub system_enabled : Bool
  pub strategy_enabled : Bool
  pub custom_enabled : Bool

pub record NotificationChannel : Type 0 where
  pub status : Text
  pub target_id : Text

pub record NotificationPlan : Type 0 where
  pub notification_enabled : Bool
  pub allow_system : Bool
  pub allow_strategy : Bool
  pub allow_custom : Bool
  pub custom_rate_limit_per_minute : ℤ
  pub custom_rate_limit_burst : ℤ

-- What the database answers. `get_user` is the plan code of the user that GetUser returns, and
-- `record_ok` the error of the write of the status of a message that was sent: those of the other
-- writes are ignored.
pub record Repository : Type 0 where
  pub get_user : ℤ → Result Text
  pub get_notification_settings : ℤ → Result NotificationSettings
  pub get_notification_plan : Text → Result NotificationPlan
  pub get_notification_channel : ℤ → Result NotificationChannel
  pub record_ok : Option Text

-- The service with its configuration; the sender answers with its error, if any.
pub record Service : Type 0 where
  pub repo : Repository
  pub sender : Option (Text → Text → Option Text)
  pub custom_rate_window : Duration
  pub delivery_enabled : Option Bool

-- The calls of UpdateNotificationDeliveryStatus, without the channel, which is the Telegram one, and
-- the time.
pub record StatusWrite : Type 0 where
  pub user : ℤ
  pub delivery_status : Text
  pub err_text : Text

-- What DeliverEvent returns and does: the messages handed to the sender are (target, text).
pub record Delivery : Type 0 where
  pub error : Option Text
  pub writes : List StatusWrite
  pub sent : List (Text × Text)
  pub limiter : RateLimiter

-- deliveryEnabled
unfoldable pub is_delivery_enabled : Service → Bool
is_delivery_enabled s = elim s.delivery_enabled [ none ↦ true | some b ↦ b ]

abbrev plan_disabled : Option Text
plan_disabled = some (codes "plan_disabled")

abbrev disabled : Option Text
disabled = some (codes "disabled")

-- One case of the switch.
unfoldable pub category_status : Bool → Bool → Option Text
category_status allowed enabled =
    if not allowed then plan_disabled else if not enabled then disabled else none

-- The switch.
unfoldable pub switch_category : Event → NotificationSettings → NotificationPlan → Option Text
switch_category event settings plan =
    if text_eq event.category category_system
    then category_status plan.allow_system settings.system_enabled
    else if text_eq event.category category_strategy
    then category_status plan.allow_strategy settings.strategy_enabled
    else if text_eq event.category category_custom
    then category_status plan.allow_custom settings.custom_enabled
    else none

-- blockedStatus: the status of an event that is blocked.
unfoldable pub blocked_status :
    Event → NotificationSettings → NotificationPlan → NotificationChannel → Option Text
blocked_status event settings plan channel =
    if not plan.notification_enabled
    then plan_disabled
    else if not settings.enabled
    then disabled
    else elim (switch_category event settings plan) [
      | some status ↦ some status
      | none ↦
          if not (text_eq channel.status (codes "bound")) || is_empty (trim_space channel.target_id)
          then some (codes "unbound")
          else none
    ]

-- formatMessage
unfoldable pub format_message : Event → Text
format_message event =
    let title = trim_space event.title in
    let msg = trim_space event.message in
    if is_empty title then msg else if is_empty msg then title else title ++ (10 ∷ msg)

-- The limit of the custom events of a plan.
unfoldable pub custom_limit : NotificationPlan → ℤ
custom_limit plan =
    if ltb_ℤ (pos 0) plan.custom_rate_limit_burst
      && ltb_ℤ plan.custom_rate_limit_burst plan.custom_rate_limit_per_minute
    then plan.custom_rate_limit_burst
    else plan.custom_rate_limit_per_minute

-- A return of nil after a write whose error is ignored.
unfoldable pub noted : Event → RateLimiter → Text → Text → List (Text × Text) → Delivery
noted event limiter status text sent = record {
  error = none;
  writes = record { user = event.user_id; delivery_status = status; err_text = text } ∷ [];
  sent = sent;
  limiter = limiter;
}

unfoldable pub failed : RateLimiter → Text → Delivery
failed limiter text = record { error = some text; writes = []; sent = []; limiter = limiter }

-- The answer of SendMessage to a message, and what is recorded of it.
unfoldable pub send_answered : Service → Event → RateLimiter → Text × Text → Option Text → Delivery
unfolding noted
send_answered s event limiter message (some text) =
    noted event limiter (codes "failed") text (message ∷ [])
send_answered s event limiter message none =
    record (noted event limiter (codes "ok") [] (message ∷ [])) { error = s.repo.record_ok }

-- The call of SendMessage, if there is a sender.
unfoldable pub send_through :
    Service
    → Event
    → NotificationChannel
    → RateLimiter
    → Option (Text → Text → Option Text)
    → Delivery
unfolding send_answered noted format_message
send_through s event channel limiter none =
    noted event limiter (codes "failed") (codes "telegram sender is not configured") []
send_through s event channel limiter (some send_message) =
    send_answered s event limiter (channel.target_id, format_message event)
      (send_message channel.target_id (format_message event))

unfoldable pub send : Service → Event → NotificationChannel → RateLimiter → Delivery
unfolding send_through
send s event channel limiter = send_through s event channel limiter s.sender

-- The four reads, in their order.
unfoldable pub load :
    Repository → Event → Result (NotificationSettings × NotificationPlan × NotificationChannel)
load repo event = repo.get_user event.user_id >>= λ plan_code.
    repo.get_notification_settings event.user_id >>= λ settings.
    repo.get_notification_plan plan_code >>= λ plan.
    repo.get_notification_channel event.user_id >>= λ channel. ok (settings, plan, channel)

-- The limiter's answer for an event: an event that is not custom does not ask it.
unfoldable pub ask_limiter :
    Service → Event → NotificationPlan → RateLimiter → Time → Bool × RateLimiter
unfolding custom_limit
ask_limiter s event plan limiter now =
    if text_eq event.category category_custom
    then allow limiter (codes "user:" ++ decimal event.user_id) (custom_limit plan)
        s.custom_rate_window now
    else (true, limiter)

-- After blockedStatus: the status, or none when the event is not blocked.
unfoldable pub deliver_checked :
    Service
    → Event
    → NotificationPlan
    → NotificationChannel
    → RateLimiter
    → Time
    → Option Text
    → Delivery
unfolding ask_limiter send noted
deliver_checked s event plan channel limiter now (some status) = noted event limiter status [] []
deliver_checked s event plan channel limiter now none =
    let asked = ask_limiter s event plan limiter now in
    if asked.0
    then send s event channel asked.1
    else noted event asked.1 (codes "rate_limited") [] []

-- After the reads.
unfoldable pub deliver_loaded :
    Service
    → Event
    → NotificationSettings
    → NotificationPlan
    → NotificationChannel
    → RateLimiter
    → Time
    → Delivery
unfolding blocked_status deliver_checked
deliver_loaded s event settings plan channel limiter now =
    deliver_checked s event plan channel limiter now (blocked_status event settings plan channel)

-- DeliverEvent, at the instant that the clock shows to the limiter.
unfoldable pub deliver_event : Service → Event → RateLimiter → Time → Delivery
unfolding validate_event is_delivery_enabled load deliver_loaded noted failed
deliver_event s event limiter now =
    if not (validate_event event)
    then (if ltb_ℤ (pos 0) event.user_id
        then record (noted event limiter (codes "invalid_event")
            (codes "invalid notification event") []) {
              error = some (codes "invalid notification event");
            }
        else failed limiter (codes "invalid notification event"))
    else if not (is_delivery_enabled s)
    then noted event limiter (codes "disabled") (codes "notification delivery disabled") []
    else elim (load s.repo event) [
      | err text ↦ failed limiter text
      | ok (settings, plan, channel) ↦ deliver_loaded s event settings plan channel limiter now
    ]
