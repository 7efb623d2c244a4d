-- ===== src/Placement/Notice.antt =====
-- internal/order/service/grpc.go: the notification of an attempt's outcome.
use core_service.Prelude.{Option, none, some, List, [], ◌∷◌, ◌++◌, if◌then◌else◌}
use core_service.Prelude.Int.{pos, eqb_ℤ}
use core_service.Text.{Text, codes, is_empty, trim_space}
use core_service.Float.{Float64, print_g}
use core_service.Lifecycle.Events.{Time, is_zero_time}
use core_service.Placement.Model.{
  AttemptStatus, pending, accepted, failed, unknown, recovering, recovered, recovery_failed,
  risk_rejected, status_text, OrderAttempt, Order,
}
use core_service.Placement.World.{Notice, publish, History, World}
use core_service.Placement.Contract.{non_empty}

-- The event type, the severity and the title.
pub record NoticeClass : Type 0 where
  pub event_type : Text
  pub severity : Text
  pub title : Text

abbrev notice_class : (event_type severity title : Text) → NoticeClass
notice_class event_type severity title = record {
  event_type = event_type;
  severity = severity;
  title = title;
}

unfoldable pub order_notification_class : AttemptStatus → Option NoticeClass
order_notification_class accepted =
    some (notice_class (codes "order.accepted") (codes "info") (codes "Order accepted"))
order_notification_class recovered =
    some (notice_class (codes "order.recovered") (codes "info") (codes "Order recovered"))
order_notification_class risk_rejected =
    some (notice_class (codes "order.failed") (codes "error") (codes "Order risk rejected"))
order_notification_class failed =
    some (notice_class (codes "order.failed") (codes "error") (codes "Order failed"))
order_notification_class recovery_failed =
    some
      (notice_class (codes "order.recovery_failed") (codes "error") (codes "Order recovery failed"))
order_notification_class recovering =
    some (notice_class (codes "order.recovering") (codes "warn") (codes "Order recovering"))
order_notification_class unknown =
    some (notice_class (codes "order.recovering") (codes "warn") (codes "Order recovering"))
order_notification_class pending = none

abbrev dash_if_empty : Text → Text
dash_if_empty s = if is_empty s then codes "-" else s

module _ {F : Type 0} where
  unfoldable pub order_notification_trigger_time : OrderAttempt F → Option (Order F) → Time
  order_notification_trigger_time attempt none = attempt.time
  order_notification_trigger_time attempt (some order) =
      if is_zero_time order.time then attempt.time else order.time

  abbrev shown_order_id : OrderAttempt F → Option (Order F) → Text
  shown_order_id attempt none = trim_space attempt.order_id
  shown_order_id attempt (some order) = non_empty order.order_id (trim_space attempt.order_id)

  abbrev shown_exchange_order_id : OrderAttempt F → Option (Order F) → Text
  shown_exchange_order_id attempt none = trim_space attempt.exchange_order_id
  shown_exchange_order_id attempt (some order) =
      non_empty order.exchange_order_id (trim_space attempt.exchange_order_id)

  unfoldable pub order_notification_details :
      (Time → Text) → OrderAttempt F → Option (Order F) → Text
  unfolding order_notification_trigger_time
  order_notification_details rfc3339 attempt order =
      let at = order_notification_trigger_time attempt order in
      let trigger_text = if is_zero_time at then codes "-" else rfc3339 at in
      codes "order_id="
      ++ (dash_if_empty (shown_order_id attempt order)
          ++ (codes " exchange_order_id="
              ++ (dash_if_empty (shown_exchange_order_id attempt order)
                  ++ (codes " attempt_id="
                      ++ (attempt.attempt_id ++ (codes " trigger_time=" ++ trigger_text))))))

  abbrev order_metadata : Option (Order F) → List (Text × Text)
  order_metadata none = []
  order_metadata (some order) =
      (codes "order_id", order.order_id)
      ∷ (codes "exchange_order_id", order.exchange_order_id)
      ∷ (codes "order_status", order.status)
      ∷ []

  unfoldable pub notice_metadata :
      (Time → Text) → OrderAttempt F → Option (Order F) → List (Text × Text)
  unfolding order_notification_trigger_time
  notice_metadata rfc3339 attempt order =
      let at = order_notification_trigger_time attempt order in
      (codes "attempt_id", attempt.attempt_id)
      ∷ (codes "intent_id", attempt.intent_id)
      ∷ (codes "symbol", attempt.symbol)
      ∷ (codes "side", attempt.side)
      ∷ (codes "attempt_status", status_text attempt.status)
      ∷ (codes "client_order_id", attempt.client_order_id)
      ∷ ((if is_zero_time at then [] else (codes "trigger_time", rfc3339 at) ∷ [])
          ++ order_metadata order)

module _ {F : Type 0} ⦃fl : Float64 F⦄ (w : World F) where
  unfoldable pub order_notification_message : OrderAttempt F → Option (Order F) → Text
  unfolding order_notification_details
  order_notification_message attempt order =
      let base =
        attempt.side
        ++ (codes " "
            ++ (attempt.symbol
                ++ (codes " qty="
                    ++ (print_g attempt.requested_qty
                        ++ (codes " status=" ++ status_text attempt.status))))) in
      let msg = trim_space (non_empty attempt.error_message attempt.recovery_error) in
      (if is_empty msg then base else base ++ (codes ": " ++ msg))
      ++ (codes "\n" ++ order_notification_details w.rfc3339 attempt order)

  unfoldable pub order_notice : OrderAttempt F → Option (Order F) → NoticeClass → Notice
  unfolding order_notification_message notice_metadata
  order_notice attempt order kind = record {
    schema_version = pos 1;
    user_id = attempt.user_id;
    category = codes "strategy";
    event_type = kind.event_type;
    severity = kind.severity;
    account_id = attempt.account_id;
    strategy_id = attempt.strategy_id;
    session_id = attempt.session_id;
    order_id = elim order [ none ↦ [] | some o ↦ o.order_id ];
    attempt_id = attempt.attempt_id;
    title = kind.title;
    message = order_notification_message attempt order;
    dedupe_key = codes "order:" ++ (attempt.attempt_id ++ (codes ":" ++ kind.event_type));
    metadata = notice_metadata w.rfc3339 attempt order;
  }

  -- Nothing is published for a backtest, or for an attempt that is pending.
  unfoldable pub publish_order_notification :
      OrderAttempt F → Option (Order F) → History F → History F
  unfolding order_notice order_notification_class
  publish_order_notification attempt order calls =
      if eqb_ℤ attempt.environment (pos 0)
      then calls
      else elim (order_notification_class attempt.status) [
        | none ↦ calls
        | some kind ↦ publish (order_notice attempt order kind) ∷ calls
      ]
