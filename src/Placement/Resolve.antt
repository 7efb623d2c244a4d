-- ===== src/Placement/Resolve.antt =====
-- internal/order/service/grpc.go: resolveAttempt, which asks the exchange what became of an attempt.
-- A function is named for what has been found out when it begins.
use core_service.Prelude.{Option, none, some, List, [], ◌∷◌, ◌++◌, if◌then◌else◌}
use core_service.Prelude.Int.{ℤ}
use core_service.Text.{Text, codes, is_empty, trim_space}
use core_service.Float.{Float64}
use core_service.Placement.Model.{
  recovering, recovered, Reply, done, Meta, OrderAttempt, Order, OrderFill, PlaceOrderResponse,
}
use core_service.Placement.World.{
  OrderResult, RecoveryRequest, Lookup, found, absent, unanswered, resolve, History, World, Outcome,
}
use core_service.Placement.Execution.{build_persisted_execution, emit_lifecycle_events}
use core_service.Placement.Notice.{publish_order_notification}
use core_service.Placement.Answer.{
  outcome, build_recovery_failed_response, settled, absent_attempt, unanswered_attempt, finalized,
  answered,
}

module _ {F : Type 0} ⦃fl : Float64 F⦄ (w : World F) where
  -- The exchange knows nothing of the attempt, with the error of the write that says so.
  unfoldable pub confirmed_absent :
      OrderAttempt F → Option Text → History F → Outcome F (Reply (PlaceOrderResponse F))
  unfolding answered build_recovery_failed_response
  confirmed_absent attempt none calls = answered w attempt none [] calls
  confirmed_absent attempt (some e) calls =
      outcome
        (done (
          build_recovery_failed_response attempt
            (codes "failed to persist confirmed absence: " ++ e)))
        calls

  unfoldable pub resolve_absent :
      OrderAttempt F → History F → Outcome F (Reply (PlaceOrderResponse F))
  unfolding confirmed_absent absent_attempt
  resolve_absent attempt calls =
      let attempt' = absent_attempt attempt (w.now calls) in
      confirmed_absent attempt' (w.finalize calls attempt' none [])
        (finalized w attempt' none [] calls)

  unfoldable pub resolve_unanswered :
      OrderAttempt F → Text → History F → Outcome F (Reply (PlaceOrderResponse F))
  unfolding unanswered_attempt publish_order_notification build_recovery_failed_response
  resolve_unanswered attempt text calls =
      let attempt' = unanswered_attempt attempt text (w.now calls) in
      outcome (done (build_recovery_failed_response attempt' text))
        (publish_order_notification w attempt' none (finalized w attempt' none [] calls))

  -- An execution, with the error of the write that stores it.
  unfoldable pub stored_execution :
      OrderAttempt F
      → Order F
      → List (OrderFill F)
      → Option Text
      → History F
      → Outcome F (Reply (PlaceOrderResponse F))
  unfolding answered emit_lifecycle_events build_recovery_failed_response
  stored_execution attempt order fills none calls =
      answered w attempt (some order) fills (emit_lifecycle_events w order fills calls)
  stored_execution attempt order fills (some e) calls =
      outcome
        (done (
          build_recovery_failed_response attempt
            (codes "failed to persist recovered execution: " ++ e)))
        calls

module _ {F : Type 0} ⦃fl : Float64 F⦄ (w : World F) (meta : Meta F) (strategy_id : ℤ)
    (session_id : Text) (market : ℤ) where
  unfoldable pub resolve_found :
      OrderAttempt F → OrderResult F → History F → Outcome F (Reply (PlaceOrderResponse F))
  unfolding stored_execution build_persisted_execution settled
  resolve_found attempt result calls =
      let now = w.now calls in
      let (order, fills) =
        build_persisted_execution meta attempt strategy_id session_id market result (w.new_id calls)
          now now in
      let attempt' = settled recovered attempt order result now in
      stored_execution w attempt' order fills (w.finalize calls attempt' (some order) fills)
        (finalized w attempt' (some order) fills calls)

  unfoldable pub resolve_answered :
      OrderAttempt F → Lookup (OrderResult F) → History F → Outcome F (Reply (PlaceOrderResponse F))
  unfolding resolve_absent resolve_unanswered resolve_found
  resolve_answered attempt absent calls = resolve_absent w attempt calls
  resolve_answered attempt (unanswered text) calls = resolve_unanswered w attempt text calls
  resolve_answered attempt (found result) calls =
      if is_empty (trim_space result.exchange_order_id)
      then resolve_absent w attempt calls
      else resolve_found attempt result calls

  abbrev pub recovery_request : OrderAttempt F → RecoveryRequest
  recovery_request attempt = record {
    account_id = attempt.account_id;
    symbol = attempt.symbol;
    client_order_id = attempt.client_order_id;
    exchange_order_id = attempt.exchange_order_id;
  }

  -- A failed write of the status RECOVERING is only logged.
  unfoldable pub resolve_attempt :
      OrderAttempt F → History F → Outcome F (Reply (PlaceOrderResponse F))
  unfolding resolve_answered
  resolve_attempt attempt calls =
      let req = recovery_request attempt in
      let attempt' = record attempt { status = recovering; time = w.now calls } in
      let marked = finalized w attempt' none [] calls in
      let answer = w.resolves marked req meta in
      resolve_answered attempt' answer (resolve req meta answer ∷ marked)
