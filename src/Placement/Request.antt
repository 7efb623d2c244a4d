-- ===== src/Placement/Request.antt =====
-- internal/order/service/grpc.go: the checks of PlaceOrder, and what it stores, asks and sends.
use core_service.Prelude.{Option, none, some, List, [], ◌∷◌, if◌then◌else◌, Result, ok, err}
use core_service.Prelude.Int.{ℤ, pos, eqb_ℤ}
use core_service.Text.{Text, codes, is_empty, trim_space}
use core_service.Float.{Float64, eq, zero}
use core_service.Lifecycle.Events.{Time}
use core_service.Risk.Types.{DecisionStatus, allow, reject, Violation, Decision, ReviewRequest}
use core_service.Risk.Rules.{violation}
use core_service.Placement.Model.{
  pending, Failure, PlaceOrderRequest, Meta, OrderIntent, OrderAttempt,
}
use core_service.Placement.World.{OrderRequest, History, World}
use core_service.Placement.Contract.{invalid, validate_route_request, OrderContract}
use core_service.Placement.ClientId.{build_client_order_id}

-- The list that marshalRiskReasons encodes as JSON.
unfoldable pub marshal_risk_reasons : Decision → List Violation
marshal_risk_reasons decision = elim decision.violations [
  | v ∷ vs ↦ v ∷ vs
  | [] ↦
      if is_empty (trim_space decision.reason_code)
      then []
      else violation decision.reason_code [] ∷ []
]

unfoldable pub risk_reject_message : Decision → Text
risk_reject_message decision = elim decision.violations [
  | v ∷ vs ↦ v.message
  | [] ↦ decision.reason_code
]

-- The decision that stands for an error of the review.
abbrev pub decided : Time → Result Decision → Decision
decided now (ok decision) = decision
decided now (err text) = record {
  status = reject;
  reason_code = codes "RISK_REVIEW_ERROR";
  violations = violation (codes "RISK_REVIEW_ERROR") text ∷ [];
  warnings = [];
  reviewed_at = now;
}

abbrev pub status_of_decision : DecisionStatus → Text
status_of_decision allow = codes "ALLOW"
status_of_decision reject = codes "REJECT"

-- A checked request: its side and its contract are normal.
pub record Checked (F : Type 0) : Type 0 where
  pub req : PlaceOrderRequest F
  pub side : Text
  pub contract : OrderContract

module _ {F : Type 0} ⦃fl : Float64 F⦄ where
  abbrev price_or_zero : PlaceOrderRequest F → F
  price_or_zero req = elim req.price [ none ↦ zero | some price ↦ price ]

  -- The intent's and the attempt's identifiers, drawn when the attempt is put together.
  abbrev pub intent_id_of : World F → PlaceOrderRequest F → History F → Text
  intent_id_of w req calls =
      let given = trim_space req.intent_id in if is_empty given then w.new_id calls 0 else given

  unfoldable pub requested_intent :
      Meta F → PlaceOrderRequest F → Text → ℤ → Text → Time → OrderIntent F
  requested_intent meta req side type_code intent_id at = record {
    intent_id = intent_id;
    time = at;
    account_id = req.account_id;
    venue_id = meta.venue_id;
    user_id = meta.user_id;
    strategy_id = req.strategy_id;
    session_id = req.session_id;
    environment = meta.environment;
    exchange = meta.exchange;
    market = meta.market;
    position_side = req.position_side;
    order_type = type_code;
    symbol = req.symbol;
    side = side;
    requested_qty = req.qty;
    requested_price = price_or_zero req;
    post_only = req.post_only;
    good_till_date = req.good_till_date;
    reduce_only = req.reduce_only;
    status = codes "REQUESTED";
    reject_code = [];
    reject_message = [];
  }

  unfoldable pub pending_attempt :
      Meta F
      → PlaceOrderRequest F
      → Text
      → ℤ
      → (intent_id attempt_id : Text) → Time
      → OrderAttempt F
  unfolding build_client_order_id
  pending_attempt meta req side type_code intent_id attempt_id at = record {
    attempt_id = attempt_id;
    intent_id = intent_id;
    time = at;
    account_id = req.account_id;
    venue_id = meta.venue_id;
    user_id = meta.user_id;
    strategy_id = req.strategy_id;
    session_id = req.session_id;
    environment = meta.environment;
    exchange = meta.exchange;
    market = meta.market;
    position_side = req.position_side;
    order_type = type_code;
    symbol = req.symbol;
    side = side;
    requested_qty = req.qty;
    requested_price = price_or_zero req;
    post_only = req.post_only;
    good_till_date = req.good_till_date;
    reduce_only = req.reduce_only;
    mark_price = req.mark_price;
    status = pending;
    error_message = [];
    client_order_id = build_client_order_id intent_id attempt_id;
    recovery_error = [];
    risk_status = [];
    risk_reasons = [];
    order_id = [];
    exchange_order_id = [];
  }

  unfoldable pub order_request : Meta F → Checked F → OrderAttempt F → OrderRequest F
  order_request meta c attempt = record {
    account_id = c.req.account_id;
    exchange = meta.exchange;
    market = meta.market;
    symbol = c.req.symbol;
    side = c.side;
    position_side = c.req.position_side;
    order_type = c.contract.order_type;
    time_in_force = c.contract.time_in_force;
    post_only = c.req.post_only;
    good_till_date = c.req.good_till_date;
    reduce_only = c.req.reduce_only;
    qty = c.req.qty;
    price = c.req.price;
    mark_price = c.req.mark_price;
    client_order_id = attempt.client_order_id;
  }

  unfoldable pub review_request : Meta F → Checked F → ReviewRequest F
  review_request meta c = record {
    account_id = c.req.account_id;
    venue_id = meta.venue_id;
    user_id = meta.user_id;
    environment = meta.environment;
    exchange = meta.exchange;
    market = meta.market;
    position_side = c.req.position_side;
    symbol = c.req.symbol;
    side = c.side;
    qty = c.req.qty;
    price = c.req.price;
    mark_price = c.req.mark_price;
    order_type = c.contract.order_type;
    time_in_force = c.contract.time_in_force;
    post_only = c.req.post_only;
    good_till_date = c.req.good_till_date;
    reduce_only = c.req.reduce_only;
  }

  -- The checks in front of the contract of the order.
  unfoldable pub check_request : PlaceOrderRequest F → Option Failure
  unfolding validate_route_request
  check_request req =
      if eqb_ℤ req.account_id (pos 0)
      then some (invalid (codes "account_id is required"))
      else if is_empty req.symbol
      then some (invalid (codes "symbol is required"))
      else if eq req.qty zero
      then some (invalid (codes "qty must be non-zero"))
      else validate_route_request req.exchange req.market req.position_side
