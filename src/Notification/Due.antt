-- ===== src/Notification/Due.antt =====
-- What the sending of a message requires: of the event, of the user's plan, settings and channel, and
-- of the limiter.
use core_service.Prelude.{
  ◌≡◌, ◌≢◌, ◌⊎◌, inl, inr, refl, Bool, true, false, none, [], ◌∷◌, ◌++◌, ok, arith, Result-cases,
}
use core_service.Prelude.Int.{ℤ, pos, ◌≤ℤ◌}
use core_service.Text.{
  Text, codes, is_empty, trim_space, text_eq, text_eq→eq, text_eq_iff, one_of, decimal,
}
use core_service.Lifecycle.Events.{Time}
use core_service.Notification.RateLimiter.{RateLimiter, allow}
use core_service.Notification.Event.{
  Event, category_system, category_strategy, category_custom, known_event_types, validate_event,
}
use core_service.Notification.Deliver.{
  NotificationSettings, NotificationPlan, NotificationChannel, Repository, Service, blocked_status,
  switch_category, category_status, custom_limit, failed, load, ask_limiter,
}

-- The plan and the settings have a category on.
abbrev pub Permits : Event → Text → Bool → Bool → Type 0
Permits event category allowed enabled =
    text_eq event.category category ≡ true → (allowed ≡ true) × (enabled ≡ true)

-- What the sending of an event requires of the user's plan, settings and channel.
abbrev pub IsDue : Event → NotificationSettings → NotificationPlan → NotificationChannel → Type 0
IsDue event settings plan channel =
    (plan.notification_enabled ≡ true)
    × (settings.enabled ≡ true)
    × Permits event category_system plan.allow_system settings.system_enabled
    × Permits event category_strategy plan.allow_strategy settings.strategy_enabled
    × Permits event category_custom plan.allow_custom settings.custom_enabled
    × (text_eq channel.status (codes "bound") ≡ true)
    × (is_empty (trim_space channel.target_id) ≡ false)

pub blocked_status-IsDue :
    (event : Event) (settings : NotificationSettings) (plan : NotificationPlan)
    (channel : NotificationChannel)
    → blocked_status event settings plan channel ≡ none
    → IsDue event settings plan channel
unfolding blocked_status switch_category category_status
blocked_status-IsDue event settings plan channel h = ground (
  arith,
  h,
  text_eq→eq event.category category_system,
  text_eq→eq event.category category_strategy,
  text_eq→eq event.category category_custom,
)

true-ne-false : true ≢ false
true-ne-false e = cc

-- What an event states that is valid.
pub record IsValidEvent (event : Event) : Type 0 where
  pub version : event.schema_version ≡ pos 1
  pub user : pos 1 ≤ℤ event.user_id
  pub category :
      (trim_space event.category ≡ codes "system")
      ⊎ (trim_space event.category ≡ codes "strategy")
      ⊎ (trim_space event.category ≡ codes "custom")
  pub typed : one_of (trim_space event.event_type) known_event_types ≡ true
  pub severity :
      (trim_space event.severity ≡ [])
      ⊎ (trim_space event.severity ≡ codes "info")
      ⊎ (trim_space event.severity ≡ codes "warn")
      ⊎ (trim_space event.severity ≡ codes "error")
  pub message : is_empty (trim_space event.message) ≡ false

one_of_three : (s a b c : Text) → one_of s (a ∷ b ∷ c ∷ []) ≡ true → (s ≡ a) ⊎ (s ≡ b) ⊎ (s ≡ c)
unfolding one_of
one_of_three s a b c h = ground (arith, h, text_eq_iff s a, text_eq_iff s b, text_eq_iff s c)

is_empty→nil : (s : Text) → is_empty s ≡ true → s ≡ []
is_empty→nil [] h = refl
is_empty→nil (c ∷ s) h = cc

pub validate_event-IsValidEvent : (event : Event) → validate_event event ≡ true → IsValidEvent event
unfolding validate_event
validate_event-IsValidEvent event h =
    let category = trim_space event.category in
    let severity = trim_space event.severity in
    record {
      version = ground (arith, h);
      user = ground (arith, h);
      category =
          one_of_three category (codes "system") (codes "strategy") (codes "custom")
            (ground (arith, h));
      typed = ground (arith, h);
      severity = ground (
        arith,
        h,
        is_empty→nil severity,
        one_of_three severity (codes "info") (codes "warn") (codes "error"),
      );
      message = ground (arith, h);
    }

-- What the database answered about the user of an event.
abbrev pub AreRead :
    Repository → Event → NotificationSettings → NotificationPlan → NotificationChannel → Type 0
AreRead repo event settings plan channel =
    (repo.get_notification_settings event.user_id ≡ ok settings)
    × ((code : Text) × (repo.get_user event.user_id ≡ ok code)
        × (repo.get_notification_plan code ≡ ok plan))
    × (repo.get_notification_channel event.user_id ≡ ok channel)

pub load-AreRead :
    (repo : Repository) (event : Event) (settings : NotificationSettings) (plan : NotificationPlan)
    (channel : NotificationChannel)
    → load repo event ≡ ok (settings, plan, channel)
    → AreRead repo event settings plan channel
unfolding load
load-AreRead repo event settings plan channel h =
    elim (Result-cases (repo.get_user event.user_id)) [
      | inr (e, failed) ↦ ground (arith, h, failed)
      | inl (code, u) ↦ elim (Result-cases (repo.get_notification_settings event.user_id)) [
        | inr (e, failed) ↦ ground (arith, h, failed)
        | inl (settings', t) ↦ elim (Result-cases (repo.get_notification_plan code)) [
          | inr (e, failed) ↦ ground (arith, h, failed)
          | inl (plan', p) ↦ elim (Result-cases (repo.get_notification_channel event.user_id)) [
            | inr (e, failed) ↦ ground (arith, h, failed)
            | inl (channel', c) ↦ ground (arith, h)
          ]
        ]
      ]
    ]

-- A custom event was granted by the limiter to its user, under a limit that is at most the plan's
-- rate and its burst, and the limiter remembers it.
abbrev pub IsGranted :
    Service → Event → NotificationPlan → RateLimiter → Time → RateLimiter → Type 0
IsGranted s event plan limiter now after =
    text_eq event.category (codes "custom") ≡ true
    → (limit : ℤ) × (limit ≤ℤ plan.custom_rate_limit_per_minute)
      × (pos 1 ≤ℤ plan.custom_rate_limit_burst → limit ≤ℤ plan.custom_rate_limit_burst)
      × (allow limiter (codes "user:" ++ decimal event.user_id) limit s.custom_rate_window now
          ≡ (true, after))

custom_limit-le :
    (plan : NotificationPlan)
    → (custom_limit plan ≤ℤ plan.custom_rate_limit_per_minute)
      × (pos 1 ≤ℤ plan.custom_rate_limit_burst → custom_limit plan ≤ℤ plan.custom_rate_limit_burst)
unfolding custom_limit
custom_limit-le plan = (ground arith, λ h. ground (arith, h))

pub ask_limiter-IsGranted :
    (s : Service) (event : Event) (plan : NotificationPlan) (limiter : RateLimiter) (now : Time)
    → (ask_limiter s event plan limiter now).0 ≡ true
    → IsGranted s event plan limiter now (ask_limiter s event plan limiter now).1
unfolding ask_limiter
ask_limiter-IsGranted s event plan limiter now h = λ custom. (
  custom_limit plan,
  (custom_limit-le plan).0,
  (custom_limit-le plan).1,
  ground (arith, h, custom),
)
