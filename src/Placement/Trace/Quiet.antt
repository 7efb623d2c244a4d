-- ===== src/Placement/Trace/Quiet.antt =====
-- The notification and the lifecycle events of a stored attempt leave what is stored and sent.
use core_service.Prelude.{
  ◌≡◌, ◌≢◌, refl, sym, ◌∙◌, inl, inr, Option, none, List, [], ◌∷◌, arith, Option-cases,
}
use core_service.Text.{Text}
use core_service.Float.{Float64}
use core_service.Lifecycle.Events.{Event, validate_event_route_facts}
use core_service.Lifecycle.Events.Facts.{accepts→RouteFacts}
use core_service.Placement.Model.{OrderAttempt, Order, OrderFill}
use core_service.Placement.World.{History, World}
use core_service.Placement.Execution.{placed_event, emit_event, emit_lifecycle_events}
use core_service.Placement.Notice.{order_notification_class, publish_order_notification}
use core_service.Placement.Trace.{stored, sent, IsOrderly}

-- From the calls h on, those up to h' change neither what is stored nor what is sent.
pub record IsQuiet {F : Type 0} (id client : Text) (h h' : History F) : Type 0 where
  pub same_stored : stored h' ≡ stored h
  pub same_sent : sent h' ≡ sent h
  pub orderly : IsOrderly id client h'

-- Every fill is the attempt's.
abbrev pub AreOf : {F : Type 0} → Text → List (OrderFill F) → Type 0
AreOf id [] = Unit
AreOf id (fill ∷ fills) = (fill.attempt_id ≡ id) × AreOf id fills

module _ {F : Type 0} ⦃fl : Float64 F⦄ (w : World F) (id client : Text) where
  pub publish-IsQuiet :
      (a : OrderAttempt F) (o : Option (Order F)) (h : History F)
      → IsOrderly id client h
      → IsQuiet id client h (publish_order_notification w a o h)
  unfolding publish_order_notification
  publish-IsQuiet a o h orderly = elim (Option-cases (order_notification_class a.status)) [
    | inl e ↦ record {
      same_stored = ground arith;
      same_sent = ground arith;
      orderly = ground arith;
    }
    | inr (kind, e) ↦ record {
      same_stored = ground arith;
      same_sent = ground arith;
      orderly = ground arith;
    }
  ]

  emit_event-IsQuiet :
      (e : Event F) (h : History F)
      → e.attempt_id ≡ id
      → sent h ≢ none
      → IsOrderly id client h
      → IsQuiet id client h (emit_event w e h)
  unfolding emit_event
  emit_event-IsQuiet e h named was_sent orderly =
      elim (Option-cases (validate_event_route_facts e)) [
        | inl valid ↦ record {
          same_stored = ground arith;
          same_sent = ground arith;
          orderly = ground (arith, accepts→RouteFacts e);
        }
        | inr (text, invalid) ↦ record {
          same_stored = ground arith;
          same_sent = ground arith;
          orderly = ground arith;
        }
      ]

  pub emit_lifecycle_events-IsQuiet :
      (o : Order F) (fills : List (OrderFill F)) (h : History F)
      → AreOf id fills
      → sent h ≢ none
      → IsOrderly id client h
      → IsQuiet id client h (emit_lifecycle_events w o fills h)
  unfolding emit_lifecycle_events placed_event
  emit_lifecycle_events-IsQuiet o [] h named was_sent orderly = record {
    same_stored = refl;
    same_sent = refl;
    orderly = orderly;
  }
  emit_lifecycle_events-IsQuiet o (fill ∷ fills) h named was_sent orderly =
      let first = emit_event-IsQuiet (placed_event o fill) h named.0 was_sent orderly in
      let rest =
        emit_lifecycle_events-IsQuiet o fills (emit_event w (placed_event o fill) h) named.1
          (λ e. was_sent (sym first.same_sent ∙ e)) first.orderly in
      record {
        same_stored = rest.same_stored ∙ first.same_stored;
        same_sent = rest.same_sent ∙ first.same_sent;
        orderly = rest.orderly;
      }
