-- ===== src/Lifecycle/Events.antt =====
-- internal/order/lifecycle/events.go: the event record and the check of its routing facts.
pub mod Facts
use core_service.Prelude.{
  ℕ, Bool, true, false, not, ◌||◌, Option, none, some, List, [], ◌∷◌, ◌++◌, if◌then◌else◌,
}
use core_service.Prelude.Int.{ℤ, pos, leb_ℤ, ltb_ℤ, eqb_ℤ}
use core_service.Text.{Text, codes, is_empty, trim_space, first_non_empty, one_of, decimal}

-- time.Time in nanoseconds since the zero time, and time.Duration.
abbrev pub Time : Type 0
Time = ℤ

abbrev pub zero_time : Time
zero_time = pos 0

-- t.IsZero(), t.Before(u)
abbrev pub is_zero_time : Time → Bool
is_zero_time t = eqb_ℤ t zero_time

abbrev pub before : Time → Time → Bool
before = ltb_ℤ

pub record FillDelta (F : Type 0) : Type 0 where
  pub exchange_trade_id : Text
  pub exchange_order_id : Text
  pub symbol : Text
  pub qty : F
  pub fill_price : F
  pub fee : F
  pub fee_asset : Text
  pub fee_missing : Bool
  pub trade_time : Time

pub record OrderState (F : Type 0) : Type 0 where
  pub exchange_order_id : Text
  pub client_order_id : Text
  pub symbol : Text
  pub status : Text
  pub orig_qty : F
  pub executed_qty : F
  pub remaining_qty : F
  pub avg_price : F
  pub updated_at : Time

pub record Event (F : Type 0) : Type 0 where
  pub event_id : ℤ
  pub session_id : Text
  pub account_id : ℤ
  pub venue_id : ℤ
  pub environment : ℤ
  pub exchange : ℤ
  pub market : ℤ
  pub position_side : ℤ
  pub side : Text
  pub intent_id : Text
  pub attempt_id : Text
  pub order_id : Text
  pub exchange_order_id : Text
  pub exchange_trade_id : Text
  pub event_type : Text
  pub event_source : Text
  pub order_status : Text
  pub fill_delta : FillDelta F
  pub order_state : OrderState F
  pub occurred_at : Time
  pub created_at : Time

abbrev pub place_order_source : Text
place_order_source = codes "place_order"

abbrev pub websocket_source : Text
websocket_source = codes "websocket"

abbrev pub rest_recovery_source : Text
rest_recovery_source = codes "rest_recovery"

abbrev pub force_close_source : Text
force_close_source = codes "force_close"

-- The sources that an event may name.
abbrev pub allowed_sources : List Text
allowed_sources =
    place_order_source ∷ websocket_source ∷ rest_recovery_source ∷ force_close_source ∷ []

unfoldable pub is_allowed_event_source : Text → Bool
is_allowed_event_source source = one_of (trim_space source) allowed_sources

abbrev is_position_side : ℤ → Bool
is_position_side p = eqb_ℤ p (pos 0) || eqb_ℤ p (pos 1) || eqb_ℤ p (pos 2)

-- The symbol of the fill, or else that of the order's state.
abbrev pub event_symbol : {F : Type 0} → Event F → Text
event_symbol e = first_non_empty (e.fill_delta.symbol ∷ e.order_state.symbol ∷ [])

-- The error of ValidateEventRouteFacts, or none.
unfoldable pub validate_event_route_facts : {F : Type 0} → Event F → Option Text
validate_event_route_facts e =
    if is_empty (trim_space e.event_type)
    then some (codes "event_type is required")
    else if not (is_allowed_event_source e.event_source)
    then some (codes "unsupported event_source: " ++ e.event_source)
    else if leb_ℤ e.account_id (pos 0)
    then some (codes "account_id is required")
    else if leb_ℤ e.venue_id (pos 0)
    then some (codes "venue_id is required")
    else if leb_ℤ e.exchange (pos 0)
    then some (codes "exchange is required")
    else if leb_ℤ e.market (pos 0)
    then some (codes "market is required")
    else if not (is_position_side e.position_side)
    then some (codes "unsupported position_side: " ++ decimal e.position_side)
    else if is_empty (trim_space e.side)
    then some (codes "side is required")
    else if is_empty (trim_space (event_symbol e))
    then some (codes "symbol is required")
    else none
