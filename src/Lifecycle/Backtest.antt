-- ===== src/Lifecycle/Backtest.antt =====
-- internal/order/lifecycle/backtest_matcher.go: matching of a resting limit order against a bar,
-- and its cancellation.
pub mod Matching
use core_service.Prelude.{Bool, true, false, not, ◌||◌, Option, none, some, [], ◌∷◌, if◌then◌else◌}
use core_service.Prelude.Int.{ℤ, pos}
use core_service.Text.{Text, codes, text_eq, normal, first_non_empty}
use core_service.Float.{Float64, mul, abs, le, eq, zero}
use core_service.Lifecycle.Events.{Event, FillDelta, OrderState, Time, zero_time}
use core_service.Lifecycle.Scanner.Orders.{no_fill}

pub record BacktestBar (F : Type 0) : Type 0 where
  pub symbol : Text
  pub time : Time
  pub opening : F
  pub high : F
  pub low : F
  pub close : F

pub record BacktestLimitOrder (F : Type 0) : Type 0 where
  pub session_id : Text
  pub account_id : ℤ
  pub venue_id : ℤ
  pub environment : ℤ
  pub exchange : ℤ
  pub market : ℤ
  pub position_side : ℤ
  pub intent_id : Text
  pub attempt_id : Text
  pub order_id : Text
  pub exchange_order_id : Text
  pub client_order_id : Text
  pub symbol : Text
  pub side : Text
  pub qty : F
  pub limit_price : F
  pub fee_rate : F

pub record BacktestMatchResult (F : Type 0) : Type 0 where
  pub state : OrderState F
  pub event : Option (Event F)
  pub filled : Bool

module _ {F : Type 0} ⦃fl : Float64 F⦄ where
  unfoldable pub limit_touched : Text → F → BacktestBar F → Bool
  limit_touched side price bar =
      if text_eq (normal side) (codes "BUY")
      then le bar.low price
      else if text_eq (normal side) (codes "SELL")
      then le price bar.high
      else false

  -- The state of an order that has not been touched.
  unfoldable pub resting_state : BacktestLimitOrder F → BacktestBar F → OrderState F
  resting_state order bar = record {
    exchange_order_id = order.exchange_order_id;
    client_order_id = order.client_order_id;
    symbol = first_non_empty (order.symbol ∷ bar.symbol ∷ []);
    status = codes "NEW";
    orig_qty = abs order.qty;
    executed_qty = zero;
    remaining_qty = abs order.qty;
    avg_price = zero;
    updated_at = bar.time;
  }

  unfoldable pub filled_state : BacktestLimitOrder F → BacktestBar F → OrderState F
  unfolding resting_state
  filled_state order bar = record (resting_state order bar) {
    status = codes "FILLED";
    executed_qty = abs order.qty;
    remaining_qty = zero;
    avg_price = order.limit_price;
  }

  unfoldable pub backtest_fill : BacktestLimitOrder F → BacktestBar F → FillDelta F
  unfolding resting_state
  backtest_fill order bar = record {
    exchange_trade_id = [];
    exchange_order_id = order.exchange_order_id;
    symbol = (resting_state order bar).symbol;
    qty = abs order.qty;
    fill_price = order.limit_price;
    fee = mul (mul (abs order.qty) order.limit_price) order.fee_rate;
    fee_asset = [];
    fee_missing = false;
    trade_time = bar.time;
  }

  -- An event of the order, whose source is left empty.
  unfoldable pub backtest_event :
      BacktestLimitOrder F → Text → OrderState F → FillDelta F → Time → Event F
  backtest_event order event_type state fill at = record {
    event_id = pos 0;
    session_id = order.session_id;
    account_id = order.account_id;
    venue_id = order.venue_id;
    environment = order.environment;
    exchange = order.exchange;
    market = order.market;
    position_side = order.position_side;
    side = order.side;
    intent_id = order.intent_id;
    attempt_id = order.attempt_id;
    order_id = order.order_id;
    exchange_order_id = order.exchange_order_id;
    exchange_trade_id = [];
    event_type = event_type;
    event_source = [];
    order_status = state.status;
    fill_delta = fill;
    order_state = state;
    occurred_at = at;
    created_at = zero_time;
  }

  unfoldable pub match_backtest_limit_gtc :
      BacktestLimitOrder F → BacktestBar F → BacktestMatchResult F
  unfolding limit_touched resting_state filled_state backtest_fill backtest_event
  match_backtest_limit_gtc order bar =
      if le order.limit_price zero
        || eq order.qty zero
        || not (limit_touched order.side order.limit_price bar)
      then record { state = resting_state order bar; event = none; filled = false }
      else record {
        state = filled_state order bar;
        event = some (
            backtest_event order (codes "fill") (filled_state order bar) (backtest_fill order bar)
              bar.time);
        filled = true;
      }

  unfoldable pub cancel_backtest_limit_order : BacktestLimitOrder F → Time → Event F
  unfolding backtest_event
  cancel_backtest_limit_order order at =
      let state : OrderState F = record {
        exchange_order_id = order.exchange_order_id;
        client_order_id = order.client_order_id;
        symbol = order.symbol;
        status = codes "CANCELED";
        orig_qty = abs order.qty;
        executed_qty = zero;
        remaining_qty = abs order.qty;
        avg_price = zero;
        updated_at = at;
      } in
      backtest_event order (codes "canceled") state no_fill at
