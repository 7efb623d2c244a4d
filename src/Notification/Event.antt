-- ===== src/Notification/Event.antt =====
-- internal/notification/event.go: the events and their validation. An event has the fields that the
-- service reads.
use core_service.Prelude.{Bool, true, false, not, ◌&&◌, List, [], ◌∷◌, if◌then◌else◌}
use core_service.Prelude.Int.{ℤ, pos, leb_ℤ, eqb_ℤ}
use core_service.Text.{Text, codes, is_empty, trim_space, one_of}

pub record Event : Type 0 where
  pub schema_version : ℤ
  pub user_id : ℤ
  pub category : Text
  pub event_type : Text
  pub severity : Text
  pub title : Text
  pub message : Text

abbrev pub category_system : Text
category_system = codes "system"

abbrev pub category_strategy : Text
category_strategy = codes "strategy"

abbrev pub category_custom : Text
category_custom = codes "custom"

abbrev pub known_categories : List Text
known_categories = category_system ∷ category_strategy ∷ category_custom ∷ []

abbrev pub known_severities : List Text
known_severities = codes "info" ∷ codes "warn" ∷ codes "error" ∷ []

abbrev pub known_event_types : List Text
known_event_types =
    codes "runtime.started"
    ∷ codes "runtime.ended"
    ∷ codes "runtime.unhealthy"
    ∷ codes "runtime.recovered"
    ∷ codes "runtime.heartbeat_lost"
    ∷ codes "runtime.heartbeat_recovered"
    ∷ codes "session.started"
    ∷ codes "session.stopped"
    ∷ codes "session.failed"
    ∷ codes "order.accepted"
    ∷ codes "order.failed"
    ∷ codes "order.recovering"
    ∷ codes "order.recovered"
    ∷ codes "order.recovery_failed"
    ∷ codes "custom.info"
    ∷ codes "custom.warn"
    ∷ codes "custom.error"
    ∷ codes "test.message"
    ∷ []

-- ValidateEvent: whether it returns no error. The one error that it returns is ErrInvalidEvent, and
-- the fields that it trims are those of its own copy.
unfoldable pub validate_event : Event → Bool
validate_event event =
    if not (eqb_ℤ event.schema_version (pos 1))
    then false
    else if leb_ℤ event.user_id (pos 0)
    then false
    else if not (one_of (trim_space event.category) known_categories)
    then false
    else if not (one_of (trim_space event.event_type) known_event_types)
    then false
    else (let severity = trim_space event.severity in
        if not (is_empty severity) && not (one_of severity known_severities)
        then false
        else if is_empty (trim_space event.message)
        then false
        else true)
