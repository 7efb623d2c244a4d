-- ===== src/Placement/Unfit.antt =====
-- internal/order/service/grpc.go: recordOrderContractFailure, which stores an order whose contract is
-- not supported as rejected.
use core_service.Prelude.{Option, none, some, [], ◌∷◌, ◌++◌}
use core_service.Text.{Text, codes}
use core_service.Float.{Float64}
use core_service.Lifecycle.Events.{Time}
use core_service.Risk.Types.{reject}
use core_service.Risk.Rules.{violation}
use core_service.Placement.Model.{
  failed, Failure, Reply, done, fail, PlaceOrderRequest, Meta, OrderIntent, OrderAttempt,
}
use core_service.Placement.World.{
  validate_active_session, upsert_order_intent, create_order_attempt, History, World,
}
use core_service.Placement.Contract.{
  order_type_code_for_rejected_contract, validate_position_side, market_time_or_now,
}
use core_service.Placement.Request.{
  status_of_decision, intent_id_of, requested_intent, pending_attempt,
}
use core_service.Placement.Answer.{internal_failure, Handled, failed_with, answered}

module _ {F : Type 0} ⦃fl : Float64 F⦄ (w : World F) (req : PlaceOrderRequest F) (side : Text)
    (contract_err : Failure) where
  unfoldable pub unfit_intent : Meta F → Text → Time → OrderIntent F
  unfolding requested_intent order_type_code_for_rejected_contract
  unfit_intent meta intent_id at =
      record (requested_intent meta req side (order_type_code_for_rejected_contract req) intent_id
        at) {
          status = codes "REJECTED";
          reject_code = codes "ORDER_CONTRACT_INVALID";
          reject_message = contract_err.message;
        }

  unfoldable pub unfit_attempt : Meta F → (intent_id attempt_id : Text) → Time → OrderAttempt F
  unfolding pending_attempt order_type_code_for_rejected_contract
  unfit_attempt meta intent_id attempt_id at =
      record (pending_attempt meta req side (order_type_code_for_rejected_contract req) intent_id
        attempt_id at) {
          status = failed;
          error_message = contract_err.message;
          risk_status = status_of_decision reject;
          risk_reasons = violation (codes "ORDER_CONTRACT_INVALID") contract_err.message ∷ [];
        }

  unfoldable pub unfit_attempt_stored : OrderAttempt F → Option Text → History F → Handled F
  unfolding answered
  unfit_attempt_stored attempt none calls = answered w attempt none [] calls
  unfit_attempt_stored attempt (some e) calls =
      failed_with (internal_failure (codes "create rejected order attempt: " ++ e)) calls

  unfoldable pub unfit_intent_stored : OrderAttempt F → Option Text → History F → Handled F
  unfolding unfit_attempt_stored
  unfit_intent_stored attempt (some e) calls =
      failed_with (internal_failure (codes "upsert rejected order intent: " ++ e)) calls
  unfit_intent_stored attempt none calls =
      let answer = w.create_attempt calls attempt in
      unfit_attempt_stored attempt answer (create_order_attempt attempt answer ∷ calls)

  unfoldable pub unfit_active : Meta F → Option Failure → History F → Handled F
  unfolding unfit_intent_stored unfit_intent unfit_attempt market_time_or_now
  unfit_active meta (some e) calls = failed_with e calls
  unfit_active meta none calls =
      let event_time = market_time_or_now req.market_time (w.now calls) in
      let intent_id = intent_id_of w req calls in
      let intent = unfit_intent meta intent_id event_time in
      let attempt = unfit_attempt meta intent_id (w.new_id calls 1) event_time in
      let answer = w.upsert_intent calls intent in
      unfit_intent_stored attempt answer (upsert_order_intent intent answer ∷ calls)

  unfoldable pub record_order_contract_failure : Reply (Meta F) → History F → Handled F
  unfolding unfit_active validate_position_side
  record_order_contract_failure (fail e) calls = failed_with contract_err calls
  record_order_contract_failure (done meta) calls =
      elim (validate_position_side meta req.position_side) [
        | some e ↦ failed_with contract_err calls
        | none ↦
            let answer = w.session calls meta req.strategy_id req.session_id in
            unfit_active meta answer
              (validate_active_session meta req.strategy_id req.session_id answer ∷ calls)
      ]
