-- ===== src/Lifecycle/Scanner/Orders.antt =====
-- internal/order/lifecycle/scanner.go: what the scanner reads from an order's state, and the
-- events that it builds.
pub mod Refs
use core_service.Prelude.{
  Bool, false, not, ◌&&◌, ◌||◌, Option, none, some, List, [], ◌∷◌, if◌then◌else◌,
}
use core_service.Prelude.Int.{pos, ◌+ℤ◌}
use core_service.Text.{Text, codes, is_empty, normal, one_of, first_non_empty}
use core_service.Float.{Float64, add, abs, lt, le, zero, tiny}
use core_service.Lifecycle.Events.{Event, FillDelta, OrderState, Time, zero_time, is_zero_time}
use core_service.Lifecycle.Scanner.Model.{OpenOrder, ScannerConfig, CancelResult}

abbrev pub terminal_statuses : List Text
terminal_statuses =
    codes "FILLED"
    ∷ codes "CANCELED"
    ∷ codes "EXPIRED"
    ∷ codes "REJECTED"
    ∷ codes "RECOVERY_EXPIRED"
    ∷ codes "FORCE_CLOSED"
    ∷ []

abbrev pub filled_statuses : List Text
filled_statuses = codes "FILLED" ∷ codes "PARTIALLY_FILLED" ∷ []

-- The zero time stands for "no deadline".
unfoldable pub order_recovery_deadline : ScannerConfig → OpenOrder → Time
unfolding ◌+ℤ◌
order_recovery_deadline cfg order =
    if not (is_zero_time order.recovery_deadline_at)
    then order.recovery_deadline_at
    else if not (is_zero_time order.recovery_started_at)
    then order.recovery_started_at +ℤ cfg.recovery_deadline
    else zero_time

abbrev pub cancel_error_text : Option Text → Text
cancel_error_text none = []
cancel_error_text (some e) = e

module _ {F : Type 0} where
  unfoldable pub enrich_open_order_from_state : OpenOrder → OrderState F → OpenOrder
  enrich_open_order_from_state order state = record order {
    exchange_order_id = first_non_empty (order.exchange_order_id ∷ state.exchange_order_id ∷ []);
    client_order_id = first_non_empty (order.client_order_id ∷ state.client_order_id ∷ []);
    symbol = first_non_empty (order.symbol ∷ state.symbol ∷ []);
  }

  unfoldable pub enrich_order_state_from_open_order : OpenOrder → OrderState F → Time → OrderState F
  enrich_order_state_from_open_order order state now = record state {
    exchange_order_id = first_non_empty (state.exchange_order_id ∷ order.exchange_order_id ∷ []);
    client_order_id = first_non_empty (state.client_order_id ∷ order.client_order_id ∷ []);
    symbol = first_non_empty (state.symbol ∷ order.symbol ∷ []);
    status = normal state.status;
    updated_at = if is_zero_time state.updated_at then now else state.updated_at;
  }

  -- The state that forceClose works with, from those of the exchange and of the cancellation.
  unfoldable pub force_closed_state : OpenOrder → OrderState F → CancelResult → Time → OrderState F
  force_closed_state order state cancelled now = record state {
    exchange_order_id =
        first_non_empty
          (state.exchange_order_id ∷ cancelled.exchange_order_id ∷ order.exchange_order_id ∷ []);
    client_order_id =
        first_non_empty
          (state.client_order_id ∷ cancelled.client_order_id ∷ order.client_order_id ∷ []);
    symbol = first_non_empty (state.symbol ∷ order.symbol ∷ []);
    status = first_non_empty (state.status ∷ cancelled.status ∷ []);
    updated_at = if is_zero_time state.updated_at then now else state.updated_at;
  }

module _ {F : Type 0} ⦃fl : Float64 F⦄ where
  unfoldable pub is_terminal_order_state : OrderState F → Bool
  is_terminal_order_state state =
      one_of (normal state.status) terminal_statuses
      || lt zero state.orig_qty && le state.remaining_qty zero

  unfoldable pub terminal_order_status : OrderState F → Text
  terminal_order_status state =
      let status = normal state.status in
      if is_empty status && (lt zero state.orig_qty && le state.remaining_qty zero)
      then codes "FILLED"
      else status

  unfoldable pub has_fill_delta : OrderState F → Bool
  has_fill_delta state = one_of (normal state.status) filled_statuses && lt zero state.executed_qty

  unfoldable pub trades_total : F → List (FillDelta F) → F
  trades_total total [] = total
  trades_total total (trade ∷ trades) = trades_total (add total (abs trade.qty)) trades

  unfoldable pub has_complete_fill_details : OrderState F → List (FillDelta F) → Bool
  has_complete_fill_details state trades =
      le state.executed_qty zero || le state.executed_qty (add (trades_total zero trades) tiny)

  -- The zero value of FillDelta, that an event without a fill carries.
  abbrev pub no_fill : FillDelta F
  no_fill = record {
    exchange_trade_id = [];
    exchange_order_id = [];
    symbol = [];
    qty = zero;
    fill_price = zero;
    fee = zero;
    fee_asset = [];
    fee_missing = false;
    trade_time = zero_time;
  }

  -- A fill without a time is given the scan's.
  abbrev pub timed_fill : FillDelta F → Time → FillDelta F
  timed_fill fill now = record fill {
    trade_time = if is_zero_time fill.trade_time then now else fill.trade_time;
  }

  -- The event of a fill whose time is set.
  unfoldable pub fill_event : OpenOrder → OrderState F → FillDelta F → Text → Event F
  fill_event order state fill source = record {
    event_id = pos 0;
    session_id = order.session_id;
    account_id = order.account_id;
    venue_id = order.venue_id;
    environment = order.environment;
    exchange = order.exchange;
    market = order.market;
    position_side = order.position_side;
    side = order.side;
    intent_id = order.intent_id;
    attempt_id = order.attempt_id;
    order_id = order.order_id;
    exchange_order_id =
        first_non_empty
          (fill.exchange_order_id ∷ state.exchange_order_id ∷ order.exchange_order_id ∷ []);
    exchange_trade_id = fill.exchange_trade_id;
    event_type = codes "fill";
    event_source = source;
    order_status = state.status;
    fill_delta = fill;
    order_state = state;
    occurred_at = fill.trade_time;
    created_at = zero_time;
  }

  unfoldable pub terminal_event : OpenOrder → OrderState F → Text → Text → Time → Event F
  terminal_event order state source status occurred_at = record {
    event_id = pos 0;
    session_id = order.session_id;
    account_id = order.account_id;
    venue_id = order.venue_id;
    environment = order.environment;
    exchange = order.exchange;
    market = order.market;
    position_side = order.position_side;
    side = order.side;
    intent_id = order.intent_id;
    attempt_id = order.attempt_id;
    order_id = order.order_id;
    exchange_order_id = first_non_empty (state.exchange_order_id ∷ order.exchange_order_id ∷ []);
    exchange_trade_id = [];
    event_type = codes "terminal";
    event_source = source;
    order_status = status;
    fill_delta = no_fill;
    order_state = state;
    occurred_at = occurred_at;
    created_at = zero_time;
  }
