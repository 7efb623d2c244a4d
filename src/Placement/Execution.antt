-- ===== src/Placement/Execution.antt =====
-- internal/order/service/grpc.go: the order and the fills that are stored for an execution, when
-- recovery looks at the order again, and the lifecycle events of the fills.
pub mod Tracking
pub mod Identity
use core_service.Prelude.{ℕ, suc, ◌*◌, Bool, false, ◌||◌, none, some, List, [], ◌∷◌, if◌then◌else◌}
use core_service.Prelude.Int.{ℤ, pos, ◌+ℤ◌}
use core_service.Text.{Text, codes, is_empty, text_eq, normal, trim_space, equal_fold}
use core_service.Float.{Float64}
use core_service.Lifecycle.Events.{
  Event, Time, zero_time, is_zero_time, place_order_source, validate_event_route_facts,
}
use core_service.Placement.Model.{Meta, OrderAttempt, Order, OrderFill}
use core_service.Placement.World.{FillResult, OrderResult, save_lifecycle_event, History, World}
use core_service.Placement.Contract.{non_empty, abs, fallback_positive, fallback_remaining}

-- 5 s and 14 days
abbrev pub next_check_delay : ℤ
next_check_delay = pos (5 * 1_000_000_000)

abbrev pub recovery_deadline : ℤ
recovery_deadline = pos (14 * 24 * 3600 * 1_000_000_000)

abbrev pub any_fee_missing : {F : Type 0} → List (FillResult F) → Bool
any_fee_missing [] = false
any_fee_missing (fill ∷ fills) = fill.fee_missing || any_fee_missing fills

module _ {F : Type 0} where
  unfoldable pub recovery_status_for_execution : OrderResult F → Text
  recovery_status_for_execution result =
      if result.fill_pending
      then codes "FILL_PENDING"
      else if any_fee_missing result.fills
      then codes "FEE_MISSING"
      else if text_eq (normal result.status) (codes "PARTIALLY_FILLED")
      then codes "PARTIALLY_FILLED"
      else if text_eq (normal result.status) (codes "NEW")
      then codes "OPEN"
      else []

  unfoldable pub apply_recovery_tracking : Order F → OrderResult F → Time → Order F
  unfolding ◌+ℤ◌ recovery_status_for_execution
  apply_recovery_tracking order result now =
      let status = recovery_status_for_execution result in
      if is_empty status then order else record order {
        recovery_status = status;
        recovery_started_at = some now;
        next_check_at = some (now +ℤ next_check_delay);
        recovery_deadline_at = some (now +ℤ recovery_deadline);
        last_recovery_error = trim_space result.error_message;
      }

  -- The event of a fill. The identifier and the time of creation are the store's.
  unfoldable pub placed_event : ⦃fl : Float64 F⦄ → Order F → OrderFill F → Event F
  placed_event order fill = record {
    event_id = pos 0;
    session_id = fill.session_id;
    account_id = fill.account_id;
    venue_id = fill.venue_id;
    environment = fill.environment;
    exchange = fill.exchange;
    market = fill.market;
    position_side = fill.position_side;
    side = fill.side;
    intent_id = fill.intent_id;
    attempt_id = fill.attempt_id;
    order_id = fill.order_id;
    exchange_order_id = fill.exchange_order_id;
    exchange_trade_id = fill.exchange_trade_id;
    event_type = codes "fill";
    event_source = place_order_source;
    order_status = order.status;
    fill_delta = record {
      exchange_trade_id = fill.exchange_trade_id;
      exchange_order_id = fill.exchange_order_id;
      symbol = fill.symbol;
      qty = fill.qty;
      fill_price = fill.fill_price;
      fee = fill.fee;
      fee_asset = [];
      fee_missing = equal_fold fill.status (codes "FEE_MISSING");
      trade_time = fill.time;
    };
    order_state = record {
      exchange_order_id = order.exchange_order_id;
      client_order_id = order.client_order_id;
      symbol = order.symbol;
      status = order.status;
      orig_qty = order.orig_qty;
      executed_qty = order.executed_qty;
      remaining_qty = order.remaining_qty;
      avg_price = order.avg_price;
      updated_at = order.time;
    };
    occurred_at = fill.time;
    created_at = zero_time;
  }

module _ {F : Type 0} ⦃fl : Float64 F⦄ (w : World F) where
  -- An event that does not state its route is skipped; a failed write is only logged.
  unfoldable pub emit_event : Event F → History F → History F
  unfolding validate_event_route_facts
  emit_event event calls = elim (validate_event_route_facts event) [
    | some _ ↦ calls
    | none ↦ save_lifecycle_event event (w.save_event calls event) ∷ calls
  ]

  unfoldable pub emit_lifecycle_events : Order F → List (OrderFill F) → History F → History F
  unfolding emit_event placed_event
  emit_lifecycle_events order [] calls = calls
  emit_lifecycle_events order (fill ∷ fills) calls =
      emit_lifecycle_events order fills (emit_event (placed_event order fill) calls)

module _ {F : Type 0} ⦃fl : Float64 F⦄ (meta : Meta F) (attempt : OrderAttempt F) (strategy_id : ℤ)
    (session_id : Text) (market : ℤ) (result : OrderResult F) where
  -- The order before its recovery tracking, at the time, under its local identifier.
  unfoldable pub executed_order : Time → Text → Order F
  executed_order now local_id = record {
    order_id = local_id;
    exchange_order_id = result.exchange_order_id;
    client_order_id = non_empty result.client_order_id attempt.client_order_id;
    attempt_id = attempt.attempt_id;
    intent_id = attempt.intent_id;
    time = now;
    account_id = attempt.account_id;
    venue_id = attempt.venue_id;
    user_id = meta.user_id;
    strategy_id = strategy_id;
    session_id = session_id;
    environment = attempt.environment;
    exchange = attempt.exchange;
    market = market;
    position_side = attempt.position_side;
    symbol = non_empty result.symbol attempt.symbol;
    side = non_empty result.side attempt.side;
    orig_qty = fallback_positive result.orig_qty (abs attempt.requested_qty);
    executed_qty = result.executed_qty;
    remaining_qty =
        fallback_remaining result.orig_qty result.executed_qty result.remaining_qty
          (abs attempt.requested_qty);
    avg_price = result.avg_price;
    price = result.price;
    post_only = attempt.post_only;
    good_till_date = attempt.good_till_date;
    reduce_only = attempt.reduce_only;
    status = non_empty result.status (codes "NEW");
    error_message = result.error_message;
    recovery_status = [];
    recovery_started_at = none;
    next_check_at = none;
    recovery_deadline_at = none;
    last_recovery_error = [];
    force_closed_at = none;
  }

  unfoldable pub executed_fill : Time → Text → Text → FillResult F → OrderFill F
  executed_fill now local_id fill_id fill = record {
    fill_id = fill_id;
    exchange_trade_id = fill.exchange_trade_id;
    order_id = local_id;
    exchange_order_id = result.exchange_order_id;
    attempt_id = attempt.attempt_id;
    intent_id = attempt.intent_id;
    time = now;
    account_id = attempt.account_id;
    venue_id = attempt.venue_id;
    user_id = meta.user_id;
    symbol = non_empty result.symbol attempt.symbol;
    side = non_empty result.side attempt.side;
    qty = fill.qty;
    fill_price = fill.fill_price;
    fee = fill.fee;
    status =
        if fill.fee_missing then codes "FEE_MISSING" else non_empty result.status (codes "FILLED");
    strategy_id = strategy_id;
    environment = attempt.environment;
    exchange = attempt.exchange;
    market = market;
    position_side = attempt.position_side;
    session_id = session_id;
  }

  -- The fills, numbered from n for their identifiers.
  unfoldable pub executed_fills :
      (ℕ → Text) → Time → Text → ℕ → List (FillResult F) → List (OrderFill F)
  unfolding executed_fill
  executed_fills new_id now local_id n [] = []
  executed_fills new_id now local_id n (fill ∷ fills) =
      executed_fill now local_id (new_id n) fill ∷ executed_fills new_id now local_id (suc n) fills

  -- The identifiers are numbered: 0 for the order, the next ones for the fills.
  unfoldable pub build_persisted_execution :
      (new_id : ℕ → Text) (wall event_time : Time) → Order F × List (OrderFill F)
  unfolding executed_order executed_fills apply_recovery_tracking
  build_persisted_execution new_id wall event_time =
      let now = if is_zero_time event_time then wall else event_time in
      let local_id = non_empty attempt.order_id (new_id 0) in
      (
        apply_recovery_tracking (executed_order now local_id) result now,
        executed_fills new_id now local_id 1 result.fills,
      )
