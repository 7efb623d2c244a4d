-- ===== src/Placement/Answer.antt =====
-- internal/order/service/grpc.go: the responses, and the attempt as a handler stores it after what
-- it has learnt.
use core_service.Prelude.{Option, none, List, [], ◌∷◌, if◌then◌else◌}
use core_service.Text.{Text, codes}
use core_service.Float.{Float64}
use core_service.Lifecycle.Events.{Time}
use core_service.Placement.Model.{
  AttemptStatus, failed, recovering, recovery_failed, Reply, done, fail, Failure, internal,
  OrderAttempt, Order, OrderFill, PlaceOrderResponse,
}
use core_service.Placement.World.{OrderResult, finalize_order_attempt, History, World, Outcome}
use core_service.Placement.Contract.{non_empty}
use core_service.Placement.Notice.{publish_order_notification}

-- status.Errorf(codes.Internal, ...)
abbrev pub internal_failure : Text → Failure
internal_failure message = record { code = internal; message = message }

abbrev pub outcome : {F A : Type 0} → A → History F → Outcome F A
outcome reply calls = record { reply = reply; calls = calls }

abbrev pub Handled : Type 0 → Type 0
Handled F = Outcome F (Reply (PlaceOrderResponse F))

abbrev pub failed_with : {F : Type 0} → Failure → History F → Handled F
failed_with e calls = outcome (fail e) calls

module _ {F : Type 0} where
  unfoldable pub build_place_order_response :
      OrderAttempt F → Option (Order F) → List (OrderFill F) → PlaceOrderResponse F
  build_place_order_response attempt order fills = record {
    intent_id = attempt.intent_id;
    attempt_id = attempt.attempt_id;
    attempt_status = attempt.status;
    error_message = non_empty attempt.error_message attempt.recovery_error;
    client_order_id = attempt.client_order_id;
    order = order;
    fill_deltas = fills;
  }

  unfoldable pub build_recovery_failed_response : OrderAttempt F → Text → PlaceOrderResponse F
  unfolding build_place_order_response
  build_recovery_failed_response attempt recovery_err =
      build_place_order_response
        (record attempt {
          status = recovery_failed;
          recovery_error = recovery_err;
          error_message = non_empty attempt.error_message (codes "recovery failed");
        })
        none []

  -- The attempt with the order of an execution, which is settled unless its trades are pending.
  unfoldable pub settled :
      AttemptStatus → OrderAttempt F → Order F → OrderResult F → Time → OrderAttempt F
  settled status attempt order result now =
      let message =
        non_empty result.error_message
          (codes "exchange order filled but trade details are pending") in
      let known = record attempt {
        order_id = order.order_id;
        exchange_order_id = order.exchange_order_id;
        time = now;
      } in
      if result.fill_pending
      then record known { status = recovering; error_message = message; recovery_error = message }
      else record known { status = status; error_message = []; recovery_error = [] }

  unfoldable pub absent_attempt : OrderAttempt F → Time → OrderAttempt F
  absent_attempt attempt now = record attempt {
    status = failed;
    error_message =
        non_empty attempt.error_message (codes "attempt confirmed absent after recovery query");
    recovery_error = [];
    time = now;
  }

  unfoldable pub unanswered_attempt : OrderAttempt F → Text → Time → OrderAttempt F
  unanswered_attempt attempt text now = record attempt {
    status = recovery_failed;
    recovery_error = text;
    error_message = non_empty attempt.error_message (codes "recovery query failed");
    time = now;
  }

-- The calls after one of FinalizeOrderAttempt.
abbrev pub finalized :
    {F : Type 0}
    → World F
    → OrderAttempt F
    → Option (Order F)
    → List (OrderFill F)
    → History F
    → History F
finalized w attempt order fills calls =
    finalize_order_attempt attempt order fills (w.finalize calls attempt order fills) ∷ calls

module _ {F : Type 0} ⦃fl : Float64 F⦄ (w : World F) where
  -- The answer about a stored attempt, and its notification.
  unfoldable pub answered :
      OrderAttempt F
      → Option (Order F)
      → List (OrderFill F)
      → History F
      → Outcome F (Reply (PlaceOrderResponse F))
  unfolding publish_order_notification build_place_order_response
  answered attempt order fills calls =
      outcome (done (build_place_order_response attempt order fills))
        (publish_order_notification w attempt order calls)
