-- ===== src/Lifecycle/UserData.antt =====
-- internal/order/lifecycle/user_data_ingestor.go: order updates of the user data stream as
-- lifecycle events. The store's answers are parameters.
pub mod Ingested
use core_service.Prelude.{
  Bool, true, false, not, ◌&&◌, Option, none, some, List, [], ◌∷◌, if◌then◌else◌, Result, ok, err,
}
use core_service.Prelude.Int.{ℤ, pos}
use core_service.Text.{Text, codes, text_eq, normal, one_of, first_non_empty}
use core_service.Float.{Float64, lt, zero}
use core_service.Lifecycle.Events.{
  Event, FillDelta, OrderState, Time, zero_time, is_zero_time, websocket_source,
  validate_event_route_facts,
}
use core_service.Lifecycle.Scanner.Model.{OpenOrder}
use core_service.Lifecycle.Scanner.Orders.{no_fill}

-- internal/exchange/adapter/capabilities.go
pub record UserDataOrderEvent (F : Type 0) : Type 0 where
  pub event_source : Text
  pub event_time : Time
  pub symbol : Text
  pub client_order_id : Text
  pub exchange_order_id : Text
  pub exchange_trade_id : Text
  pub side : Text
  pub position_side : Text
  pub order_type : Text
  pub time_in_force : Text
  pub order_status : Text
  pub execution_type : Text
  pub last_filled_qty : F
  pub last_filled_price : F
  pub accumulated_filled_qty : F
  pub fee : F
  pub fee_asset : Text
  pub reduce_only : Bool

pub record UserDataIngestStore (F : Type 0) : Type 0 where
  pub resolve_open_order : ℤ → Text → Text → Result OpenOrder
  pub save_event : Event F → Option Text

abbrev pub user_data_terminal_statuses : List Text
user_data_terminal_statuses =
    codes "FILLED" ∷ codes "CANCELED" ∷ codes "EXPIRED" ∷ codes "REJECTED" ∷ []

unfoldable pub is_terminal_user_data_status : Text → Bool
is_terminal_user_data_status status = one_of status user_data_terminal_statuses

module _ {F : Type 0} ⦃fl : Float64 F⦄ where
  abbrev pub is_execution : UserDataOrderEvent F → Bool
  is_execution event = text_eq (normal event.execution_type) (codes "TRADE")

  unfoldable pub ingested_fill : OpenOrder → UserDataOrderEvent F → Time → FillDelta F
  ingested_fill order event at = record {
    exchange_trade_id = event.exchange_trade_id;
    exchange_order_id = first_non_empty (event.exchange_order_id ∷ order.exchange_order_id ∷ []);
    symbol = first_non_empty (event.symbol ∷ order.symbol ∷ []);
    qty = event.last_filled_qty;
    fill_price = event.last_filled_price;
    fee = event.fee;
    fee_asset = event.fee_asset;
    fee_missing = false;
    trade_time = at;
  }

  unfoldable pub ingested_state : OpenOrder → UserDataOrderEvent F → Time → OrderState F
  ingested_state order event at = record {
    exchange_order_id = first_non_empty (event.exchange_order_id ∷ order.exchange_order_id ∷ []);
    client_order_id = first_non_empty (event.client_order_id ∷ order.client_order_id ∷ []);
    symbol = first_non_empty (event.symbol ∷ order.symbol ∷ []);
    status = normal event.order_status;
    orig_qty = zero;
    executed_qty = event.accumulated_filled_qty;
    remaining_qty = zero;
    avg_price = event.last_filled_price;
    updated_at = at;
  }

  -- The lifecycle event at the time of the update, a fill if a quantity was traded.
  unfoldable pub ingested_event : OpenOrder → UserDataOrderEvent F → Time → Event F
  unfolding ingested_fill ingested_state
  ingested_event order event at =
      let filled = is_execution event && lt zero event.last_filled_qty in
      record {
        event_id = pos 0;
        session_id = order.session_id;
        account_id = order.account_id;
        venue_id = order.venue_id;
        environment = order.environment;
        exchange = order.exchange;
        market = order.market;
        position_side = order.position_side;
        side = first_non_empty (event.side ∷ order.side ∷ []);
        intent_id = order.intent_id;
        attempt_id = order.attempt_id;
        order_id = order.order_id;
        exchange_order_id =
            first_non_empty (event.exchange_order_id ∷ order.exchange_order_id ∷ []);
        exchange_trade_id = event.exchange_trade_id;
        event_type = if filled then codes "fill" else codes "terminal";
        event_source = websocket_source;
        order_status = normal event.order_status;
        fill_delta = if filled then ingested_fill order event at else no_fill;
        order_state = ingested_state order event at;
        occurred_at = at;
        created_at = zero_time;
      }

  -- The error, and the event handed to the store. time.Now() is the parameter `wall`.
  unfoldable pub ingest :
      UserDataIngestStore F → ℤ → UserDataOrderEvent F → Time → Option Text × Option (Event F)
  unfolding ingested_event is_terminal_user_data_status
  ingest store venue event wall =
      if not (is_execution event) && not (is_terminal_user_data_status (normal event.order_status))
      then (none, none)
      else elim (store.resolve_open_order venue event.exchange_order_id event.client_order_id) [
        | err e ↦ (some e, none)
        | ok order ↦
            let at = if is_zero_time event.event_time then wall else event.event_time in
            let ingested = ingested_event order event at in
            elim (validate_event_route_facts ingested) [
              | some e ↦ (some e, none)
              | none ↦ (store.save_event ingested, some ingested)
            ]
      ]
