-- ===== src/Placement/Review.antt =====
-- internal/order/service/grpc.go: the attempt as PlaceOrder stores it after the review and after the
-- execution.
use core_service.Prelude.{Option, none, some, [], ◌∷◌, ◌++◌}
use core_service.Text.{Text, codes}
use core_service.Lifecycle.Events.{Time}
use core_service.Risk.Types.{Decision}
use core_service.Placement.Model.{failed, unknown, risk_rejected, OrderIntent, OrderAttempt}
use core_service.Placement.World.{
  OrderResult, upsert_order_intent, finalize_risk_rejected_attempt, History, World, Outcome,
}
use core_service.Placement.Contract.{non_empty}
use core_service.Placement.Request.{marshal_risk_reasons, risk_reject_message, status_of_decision}
use core_service.Placement.Answer.{outcome, finalized}

module _ {F : Type 0} where
  -- The attempt whose execution gave an error, or no order of the exchange, or could not be stored.
  unfoldable pub unknown_attempt : OrderAttempt F → Text → Time → OrderAttempt F
  unknown_attempt attempt text now = record attempt {
    status = unknown;
    error_message = codes "execution result unknown: " ++ text;
    recovery_error = text;
    time = now;
  }

  unfoldable pub refused_attempt : OrderAttempt F → OrderResult F → Time → OrderAttempt F
  refused_attempt attempt result now = record attempt {
    status = failed;
    error_message = non_empty result.error_message (codes "order attempt failed");
    recovery_error = [];
    time = now;
  }

  unfoldable pub unstored_attempt : OrderAttempt F → Text → Time → OrderAttempt F
  unstored_attempt attempt text now =
      let message = codes "local finalize failed after exchange acceptance: " ++ text in
      record attempt {
        status = unknown;
        order_id = [];
        exchange_order_id = [];
        error_message = message;
        recovery_error = message;
        time = now;
      }

  unfoldable pub rejected_attempt : OrderAttempt F → Decision → Time → OrderAttempt F
  rejected_attempt attempt decision now = record attempt {
    status = risk_rejected;
    error_message = non_empty decision.reason_code (codes "RISK_REJECTED");
    time = now;
  }

  unfoldable pub rejected_intent : OrderIntent F → OrderAttempt F → Decision → OrderIntent F
  unfolding risk_reject_message
  rejected_intent intent attempt decision = record intent {
    status = codes "REJECTED";
    reject_code = attempt.error_message;
    reject_message = risk_reject_message decision;
  }

  unfoldable pub reviewed_attempt : OrderAttempt F → Decision → OrderAttempt F
  unfolding marshal_risk_reasons
  reviewed_attempt attempt decision = record attempt {
    risk_status = status_of_decision decision.status;
    risk_reasons = marshal_risk_reasons decision;
  }

  -- The error of the write, or none. Without the finalizer, a second write follows the first one
  -- that succeeds.
  unfoldable pub finalize_rejected_attempt :
      World F → OrderIntent F → OrderAttempt F → History F → Outcome F (Option Text)
  finalize_rejected_attempt w intent attempt calls = elim w.finalize_rejected [
    | some finalizer ↦
        let answer = finalizer calls intent attempt in
        outcome answer (finalize_risk_rejected_attempt intent attempt answer ∷ calls)
    | none ↦
        let answer = w.upsert_intent calls intent in
        let stored = upsert_order_intent intent answer ∷ calls in
        elim answer [
          | some e ↦ outcome (some e) stored
          | none ↦ outcome (w.finalize stored attempt none []) (finalized w attempt none [] stored)
        ]
  ]
