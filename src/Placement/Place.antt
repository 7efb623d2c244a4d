-- ===== src/Placement/Place.antt =====
-- internal/order/service/grpc.go: PlaceOrder. A function is a stage of it, named for what is known
-- or stored when it begins; an answer of a collaborator that decides how to go on is an argument.
use core_service.Prelude.{Option, none, some, List, [], ◌∷◌, ◌++◌, if◌then◌else◌, Result, ok, err}
use core_service.Text.{Text, codes, is_empty, trim_space}
use core_service.Float.{Float64}
use core_service.Lifecycle.Events.{Time}
use core_service.Risk.Types.{allow, reject, Decision}
use core_service.Placement.Model.{
  accepted, Failure, Reply, done, fail, PlaceOrderRequest, Meta, OrderIntent, OrderAttempt, Order,
  OrderFill,
}
use core_service.Placement.World.{
  OrderResult, get_meta, validate_active_session, upsert_order_intent, create_order_attempt,
  review_order, execute, History, World, Outcome,
}
use core_service.Placement.Contract.{
  normalize_order_side, OrderContract, validate_position_side, normalize_order_contract,
  is_auditable_order_contract_error, market_time_or_now,
}
use core_service.Placement.Execution.{build_persisted_execution, emit_lifecycle_events}
use core_service.Placement.Resolve.{resolve_attempt}
use core_service.Placement.Request.{
  decided, Checked, intent_id_of, requested_intent, pending_attempt, order_request, review_request,
  check_request,
}
use core_service.Placement.Answer.{
  internal_failure, Handled, failed_with, settled, finalized, answered,
}
use core_service.Placement.Review.{
  unknown_attempt, refused_attempt, unstored_attempt, rejected_attempt, rejected_intent,
  reviewed_attempt, finalize_rejected_attempt,
}
use core_service.Placement.Unfit.{record_order_contract_failure}

module _ {F : Type 0} ⦃fl : Float64 F⦄ (w : World F) (c : Checked F) (meta : Meta F) where
  -- resolveAttempt, of an attempt of this request.
  abbrev pub resolve_placed : OrderAttempt F → History F → Handled F
  resolve_placed attempt calls =
      resolve_attempt w meta c.req.strategy_id c.req.session_id meta.market attempt calls

  -- An order that the exchange has, with the error of the write that stores it.
  unfoldable pub accepted_stored :
      OrderAttempt F → Order F → List (OrderFill F) → Option Text → History F → Handled F
  unfolding unstored_attempt emit_lifecycle_events answered resolve_attempt
  accepted_stored attempt order fills none calls =
      answered w attempt (some order) fills (emit_lifecycle_events w order fills calls)
  accepted_stored attempt order fills (some e) calls =
      let attempt' = unstored_attempt attempt e (w.now calls) in
      resolve_placed attempt' (finalized w attempt' none [] calls)

  unfoldable pub place_accepted : OrderAttempt F → OrderResult F → Time → History F → Handled F
  unfolding accepted_stored build_persisted_execution settled
  place_accepted attempt result event_time calls =
      let now = w.now calls in
      let (order, fills) =
        build_persisted_execution meta attempt c.req.strategy_id c.req.session_id meta.market result
          (w.new_id calls) now event_time in
      let attempt' = settled accepted attempt order result now in
      accepted_stored attempt' order fills (w.finalize calls attempt' (some order) fills)
        (finalized w attempt' (some order) fills calls)

  unfoldable pub refusal_stored : OrderAttempt F → Option Text → History F → Handled F
  unfolding answered
  refusal_stored attempt none calls = answered w attempt none [] calls
  refusal_stored attempt (some e) calls =
      failed_with (internal_failure (codes "finalize order attempt: " ++ e)) calls

  unfoldable pub place_refused : OrderAttempt F → OrderResult F → History F → Handled F
  unfolding refusal_stored refused_attempt
  place_refused attempt result calls =
      let attempt' = refused_attempt attempt result (w.now calls) in
      refusal_stored attempt' (w.finalize calls attempt' none [])
        (finalized w attempt' none [] calls)

  -- What the exchange answered to the order. A failed write of the status UNKNOWN is only logged.
  unfoldable pub place_executed :
      OrderAttempt F → Time → Result (OrderResult F) → History F → Handled F
  unfolding unknown_attempt place_refused place_accepted resolve_attempt
  place_executed attempt event_time (err text) calls =
      let attempt' = unknown_attempt attempt text (w.now calls) in
      resolve_placed attempt' (finalized w attempt' none [] calls)
  place_executed attempt event_time (ok result) calls =
      if is_empty (trim_space result.exchange_order_id)
      then place_refused attempt result calls
      else place_accepted attempt result event_time calls

  unfoldable pub rejection_stored : OrderAttempt F → Outcome F (Option Text) → Handled F
  unfolding answered
  rejection_stored attempt stored = elim stored.reply [
    | none ↦ answered w attempt none [] stored.calls
    | some e ↦
        failed_with (internal_failure (codes "finalize risk rejected attempt: " ++ e)) stored.calls
  ]

  unfoldable pub place_rejected : OrderIntent F → OrderAttempt F → Decision → History F → Handled F
  unfolding rejection_stored finalize_rejected_attempt rejected_attempt rejected_intent
  place_rejected intent attempt decision calls =
      let attempt' = rejected_attempt attempt decision (w.now calls) in
      rejection_stored attempt'
        (finalize_rejected_attempt w (rejected_intent intent attempt' decision) attempt' calls)

  unfoldable pub place_decided :
      OrderIntent F → OrderAttempt F → Time → Decision → History F → Handled F
  unfolding place_rejected place_executed order_request reviewed_attempt
  place_decided intent attempt event_time decision calls =
      let attempt' = reviewed_attempt attempt decision in
      let order = order_request meta c attempt in
      let answer = w.executes calls order meta in
      elim decision.status [
        | reject ↦ place_rejected intent attempt' decision calls
        | allow ↦ place_executed attempt' event_time answer (execute order meta answer ∷ calls)
      ]

  unfoldable pub attempt_stored :
      OrderIntent F → OrderAttempt F → Time → Option Text → History F → Handled F
  unfolding place_decided review_request
  attempt_stored intent attempt event_time (some e) calls =
      failed_with (internal_failure (codes "create order attempt: " ++ e)) calls
  attempt_stored intent attempt event_time none calls =
      let asked = review_request meta c in
      let answer = w.review calls asked in
      let reviewed = review_order asked answer ∷ calls in
      place_decided intent attempt event_time (decided (w.now reviewed) answer) reviewed

  unfoldable pub intent_stored :
      OrderIntent F → OrderAttempt F → Time → Option Text → History F → Handled F
  unfolding attempt_stored
  intent_stored intent attempt event_time (some e) calls =
      failed_with (internal_failure (codes "upsert order intent: " ++ e)) calls
  intent_stored intent attempt event_time none calls =
      let answer = w.create_attempt calls attempt in
      attempt_stored intent attempt event_time answer (create_order_attempt attempt answer ∷ calls)

  unfoldable pub place_active : Option Failure → History F → Handled F
  unfolding intent_stored requested_intent pending_attempt market_time_or_now
  place_active (some e) calls = failed_with e calls
  place_active none calls =
      let event_time = market_time_or_now c.req.market_time (w.now calls) in
      let intent_id = intent_id_of w c.req calls in
      let intent = requested_intent meta c.req c.side c.contract.type_code intent_id event_time in
      let attempt =
        pending_attempt meta c.req c.side c.contract.type_code intent_id (w.new_id calls 1)
          event_time in
      let answer = w.upsert_intent calls intent in
      intent_stored intent attempt event_time answer (upsert_order_intent intent answer ∷ calls)

  unfoldable pub place_routed : History F → Handled F
  unfolding validate_position_side place_active
  place_routed calls = elim (validate_position_side meta c.req.position_side) [
    | some e ↦ failed_with e calls
    | none ↦
        let answer = w.session calls meta c.req.strategy_id c.req.session_id in
        place_active answer
          (validate_active_session meta c.req.strategy_id c.req.session_id answer ∷ calls)
  ]

module _ {F : Type 0} ⦃fl : Float64 F⦄ (w : World F) (req : PlaceOrderRequest F) where
  abbrev asked_meta : History F
  asked_meta = get_meta req.account_id req.exchange req.market ∷ []

  unfoldable pub place_known : Checked F → Reply (Meta F) → History F → Handled F
  unfolding place_routed
  place_known c (fail e) calls = failed_with e calls
  place_known c (done meta) calls = place_routed w c meta calls

  unfoldable pub place_contracted : Text → Reply OrderContract → Handled F
  unfolding place_known record_order_contract_failure is_auditable_order_contract_error
  place_contracted side (fail e) =
      if is_auditable_order_contract_error e
      then record_order_contract_failure w req side e
          (w.meta [] req.account_id req.exchange req.market) asked_meta
      else failed_with e []
  place_contracted side (done contract) =
      place_known (record { req = req; side = side; contract = contract })
        (w.meta [] req.account_id req.exchange req.market) asked_meta

  unfoldable pub place_sided : Reply Text → Handled F
  unfolding place_contracted normalize_order_contract
  place_sided (fail e) = failed_with e []
  place_sided (done side) = place_contracted side (normalize_order_contract req)

  -- PlaceOrder
  unfoldable pub place_order : Handled F
  unfolding place_sided check_request normalize_order_side
  place_order = elim (check_request req) [
    | some e ↦ failed_with e []
    | none ↦ place_sided (normalize_order_side w.quoted req.side)
  ]
