-- ===== src/Notification/Tests.antt =====
-- Runs of the rate limiter and of the delivery, and their theorems at concrete inputs.
use core_service.Prelude.{◌≤◌, ◌≡◌, refl, Bool, true, false, none, some, List, [], ◌∷◌, arith, ok}
use core_service.Prelude.Maps.{find, put}
use core_service.Prelude.Int.{pos, ltb_ℤ, ◌-ℤ◌}
use core_service.Text.{Text, codes, one_of, text_eq, trim_space}
use core_service.Notification.RateLimiter.{allow, kept}
use core_service.Notification.Event.{Event}
use core_service.Notification.Deliver.{
  NotificationPlan, Service, deliver_event, format_message, switch_category, category_status,
}
use core_service.Notification.Windows.{
  Call, after, grants, count_after, InOrder, grants-le_limit, allow-room,
}

abbrev mine : Text
mine = codes "user:7"

abbrev others : Text
others = codes "user:8"

-- The latest first: the third call of the key is refused, the other key's is not counted.
abbrev calls : List Call
calls =
    record { key = mine; limit = pos 2; now = pos 130 }
    ∷ record { key = mine; limit = pos 2; now = pos 120 }
    ∷ record { key = others; limit = pos 5; now = pos 110 }
    ∷ record { key = mine; limit = pos 2; now = pos 100 }
    ∷ []

calls-InOrder : InOrder mine (pos 2) (pos 140) calls
unfolding text_eq
calls-InOrder = (
  omega arith,
  λ e. omega arith,
  (
    omega arith,
    λ e. omega arith,
    (omega arith, λ e. ground (arith, e), (omega arith, λ e. omega arith, tt)),
  ),
)

grants_run : grants (pos 60) mine calls ≡ pos 120 ∷ pos 100 ∷ []
unfolding grants after allow kept find put text_eq ◌-ℤ◌
grants_run = refl

grants-le_limit_example : count_after (pos 140 -ℤ pos 60) (grants (pos 60) mine calls) ≤ 2
grants-le_limit_example = grants-le_limit (pos 60) mine (pos 2) calls (pos 140) calls-InOrder

allow-room_example :
    (allow (after (pos 60) calls) mine (pos 2) (pos 60) (pos 140)).0
    ≡ ltb_ℤ (pos (count_after (pos 140 -ℤ pos 60) (grants (pos 60) mine calls))) (pos 2)
allow-room_example = allow-room (pos 60) mine (pos 2) calls (pos 2) (pos 140) calls-InOrder

abbrev event : Event
event = record {
  schema_version = pos 1;
  user_id = pos 7;
  category = codes "custom";
  event_type = codes "custom.info";
  severity = [];
  title = codes "T";
  message = codes "m";
}

abbrev plan : Bool → NotificationPlan
plan custom = record {
  notification_enabled = true;
  allow_system = true;
  allow_strategy = true;
  allow_custom = custom;
  custom_rate_limit_per_minute = pos 2;
  custom_rate_limit_burst = pos 0;
}

-- A user with everything on but, perhaps, the plan's custom events.
abbrev service : Bool → Service
service custom = record {
  repo = record {
    get_user = λ id. ok (codes "basic");
    get_notification_settings = λ id. ok (record {
      enabled = true;
      system_enabled = true;
      strategy_enabled = true;
      custom_enabled = true;
    });
    get_notification_plan = λ code. ok (plan custom);
    get_notification_channel = λ id. ok (record { status = codes "bound"; target_id = codes "42" });
    record_ok = none;
  };
  sender = some (λ target text. none);
  custom_rate_window = pos 60;
  delivery_enabled = none;
}

sent_run :
    (deliver_event (service true) event [] (pos 100)).sent ≡ (codes "42", format_message event) ∷ []
unfolding deliver_event one_of text_eq trim_space switch_category category_status allow find ◌-ℤ◌
sent_run = refl

refused_run : (deliver_event (service false) event [] (pos 100)).sent ≡ []
unfolding deliver_event one_of text_eq trim_space switch_category category_status
refused_run = refl

-- A blank before the category passes the validation, and neither the plan nor the limiter is asked.
padded_run :
    (deliver_event (service false) (record event { category = codes " custom" }) [] (pos 100)).sent
    ≡ (codes "42", format_message event) ∷ []
unfolding deliver_event one_of text_eq trim_space switch_category category_status
padded_run = refl
