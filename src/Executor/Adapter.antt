-- ===== src/Executor/Adapter.antt =====
-- internal/order/executor/adapter_router.go. The registry of internal/exchange/adapter, the exchanges
-- behind it and the credential of an account are collaborators; a request does not show the
-- credential, which is handed on.
use core_service.Prelude.{Bool, false, Option, List, [], ◌∷◌, if◌then◌else◌, Result}
use core_service.Prelude.Int.{ℤ, pos, eqb_ℤ, to_int16}
use core_service.Text.{Text, codes, is_empty, equal_fold, trim_space}
use core_service.Float.{Float64, zero}
use core_service.Lifecycle.Events.{FillDelta, OrderState, Time}
use core_service.Placement.Model.{Meta}
use core_service.Placement.World.{OrderRequest, FillResult, OrderResult, Lookup}

-- internal/exchange/adapter: the route, and the requests and results of an exchange.
pub record Route : Type 0 where
  pub exchange : ℤ
  pub environment : ℤ
  pub market : ℤ

pub record AdapterOrderRequest (F : Type 0) : Type 0 where
  pub user_id : ℤ
  pub account_id : ℤ
  pub venue_id : ℤ
  pub exchange : ℤ
  pub environment : ℤ
  pub market : ℤ
  pub symbol : Text
  pub side : Text
  pub position_side : Text
  pub margin_mode : ℤ
  pub position_mode : ℤ
  pub order_type : Text
  pub time_in_force : Text
  pub post_only : Bool
  pub good_till_date : Option Time
  pub reduce_only : Bool
  pub qty : F
  pub price : Option F
  pub mark_price : F
  pub default_fee_rate : F
  pub slippage_bps : F
  pub client_order_id : Text

pub record AdapterOrderResult (F : Type 0) : Type 0 where
  pub exchange_order_id : Text
  pub client_order_id : Text
  pub symbol : Text
  pub side : Text
  pub position_side : Text
  pub order_type : Text
  pub time_in_force : Text
  pub status : Text
  pub orig_qty : F
  pub executed_qty : F
  pub remaining_qty : F
  pub avg_price : F
  pub price : F
  pub fills : List (FillDelta F)
  pub error_message : Text
  pub fill_pending : Bool

pub record QueryOrderRequest : Type 0 where
  pub account_id : ℤ
  pub venue_id : ℤ
  pub symbol : Text
  pub client_order_id : Text
  pub exchange_order_id : Text

pub record QueryTradesRequest : Type 0 where
  pub account_id : ℤ
  pub venue_id : ℤ
  pub symbol : Text
  pub exchange_order_id : Text

-- The order executor and the order state reader of a route. ErrOrderNotFound is `absent`.
pub record OrderStateReader (F : Type 0) : Type 0 where
  pub query_order : QueryOrderRequest → Lookup (OrderState F)
  pub query_trades : QueryTradesRequest → Result (List (FillDelta F))

pub record AdapterRouter (F : Type 0) : Type 0 where
  pub order_executor : Route → Result (AdapterOrderRequest F → Result (AdapterOrderResult F))
  pub order_state_reader : Route → Result (OrderStateReader F)
  -- The error of parseCredential, or none.
  pub parse_credential : Route → Meta F → Option Text

-- firstNonEmpty of mock.go, whose value is trimmed.
unfoldable pub first_trimmed : List Text → Text
first_trimmed [] = []
first_trimmed (s ∷ ss) =
    let rest = first_trimmed ss in if is_empty (trim_space s) then rest else trim_space s

unfoldable pub position_side_text : ℤ → Text
position_side_text side =
    if eqb_ℤ side (pos 1)
    then codes "LONG"
    else if eqb_ℤ side (pos 2)
    then codes "SHORT"
    else codes "BOTH"

-- MarginModeCross, MarginModeIsolated, MarginModeNone
unfoldable pub margin_mode_domain : Text → ℤ
margin_mode_domain value =
    if equal_fold (trim_space value) (codes "cross")
    then pos 1
    else if equal_fold (trim_space value) (codes "isolated")
    then pos 2
    else pos 0

-- PositionModeOneWay, PositionModeHedge, PositionModeNone
unfoldable pub position_mode_domain : Text → ℤ
position_mode_domain value =
    if equal_fold (trim_space value) (codes "one_way")
    then pos 1
    else if equal_fold (trim_space value) (codes "hedge")
    then pos 2
    else pos 0

module _ {F : Type 0} where
  -- The domain's enumerations are int16.
  unfoldable pub route_from_meta : Meta F → Route
  route_from_meta meta = record {
    exchange = to_int16 meta.exchange;
    environment = to_int16 meta.environment;
    market = to_int16 meta.market;
  }

  unfoldable pub to_adapter_order_request : OrderRequest F → Meta F → AdapterOrderRequest F
  unfolding position_side_text margin_mode_domain position_mode_domain
  to_adapter_order_request req meta = record {
    user_id = meta.user_id;
    account_id = req.account_id;
    venue_id = meta.venue_id;
    exchange = to_int16 meta.exchange;
    environment = to_int16 meta.environment;
    market = to_int16 meta.market;
    symbol = req.symbol;
    side = req.side;
    position_side = position_side_text req.position_side;
    margin_mode = margin_mode_domain meta.margin_mode;
    position_mode = position_mode_domain meta.position_mode;
    order_type = req.order_type;
    time_in_force = req.time_in_force;
    post_only = req.post_only;
    good_till_date = req.good_till_date;
    reduce_only = req.reduce_only;
    qty = req.qty;
    price = req.price;
    mark_price = req.mark_price;
    default_fee_rate = meta.default_fee_rate;
    slippage_bps = meta.slippage_bps;
    client_order_id = req.client_order_id;
  }

  abbrev pub fill_of : FillDelta F → FillResult F
  fill_of fill = record {
    exchange_trade_id = fill.exchange_trade_id;
    qty = fill.qty;
    fill_price = fill.fill_price;
    fee = fill.fee;
    fee_missing = fill.fee_missing;
  }

  unfoldable pub fills_of : List (FillDelta F) → List (FillResult F)
  fills_of [] = []
  fills_of (fill ∷ fills) = fill_of fill ∷ fills_of fills

  unfoldable pub from_adapter_order_result : AdapterOrderResult F → OrderResult F
  unfolding fills_of
  from_adapter_order_result result = record {
    exchange_order_id = result.exchange_order_id;
    client_order_id = result.client_order_id;
    symbol = result.symbol;
    side = result.side;
    order_type = result.order_type;
    time_in_force = result.time_in_force;
    status = result.status;
    orig_qty = result.orig_qty;
    executed_qty = result.executed_qty;
    remaining_qty = result.remaining_qty;
    avg_price = result.avg_price;
    price = result.price;
    fills = fills_of result.fills;
    error_message = result.error_message;
    fill_pending = result.fill_pending;
  }

module _ {F : Type 0} ⦃fl : Float64 F⦄ where
  unfoldable pub failed_order_result : Text → OrderResult F
  failed_order_result text = record {
    exchange_order_id = [];
    client_order_id = [];
    symbol = [];
    side = [];
    order_type = [];
    time_in_force = [];
    status = codes "FAILED";
    orig_qty = zero;
    executed_qty = zero;
    remaining_qty = zero;
    avg_price = zero;
    price = zero;
    fills = [];
    error_message = text;
    fill_pending = false;
  }

  unfoldable pub from_adapter_order_state : OrderState F → List (FillDelta F) → OrderResult F
  unfolding fills_of
  from_adapter_order_state state trades = record {
    exchange_order_id = state.exchange_order_id;
    client_order_id = state.client_order_id;
    symbol = state.symbol;
    side = [];
    order_type = [];
    time_in_force = [];
    status = state.status;
    orig_qty = state.orig_qty;
    executed_qty = state.executed_qty;
    remaining_qty = state.remaining_qty;
    avg_price = state.avg_price;
    price = zero;
    fills = fills_of trades;
    error_message = [];
    fill_pending = false;
  }
