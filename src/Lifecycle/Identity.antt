-- ===== src/Lifecycle/Identity.antt =====
-- internal/order/lifecycle/events.go: the key by which a lifecycle event is saved at most once.
pub mod Trade
use core_service.Prelude.{Bool, ◌||◌, List, [], ◌∷◌, if◌then◌else◌}
use core_service.Text.{Text, codes, is_empty, trim_space, to_upper, first_non_empty, join}
use core_service.Float.{Float64, print_f}
use core_service.Lifecycle.Events.{Event, Time, is_zero_time}

module _ {F : Type 0} where
  unfoldable pub order_ref : Event F → Text
  order_ref e = trim_space (
      first_non_empty (
        e.exchange_order_id ∷ e.fill_delta.exchange_order_id ∷ e.order_state.exchange_order_id
        ∷ []))

  unfoldable pub trade_ref : Event F → Text
  trade_ref e =
      trim_space (first_non_empty (e.exchange_trade_id ∷ e.fill_delta.exchange_trade_id ∷ []))

  unfoldable pub status_ref : Event F → Text
  status_ref e = trim_space (first_non_empty (e.order_status ∷ e.order_state.status ∷ []))

  unfoldable pub identity_time : Event F → Time
  identity_time e =
      if is_zero_time e.order_state.updated_at then e.occurred_at else e.order_state.updated_at

-- The time's UTC().Format(time.RFC3339Nano) is the parameter `rfc3339`.
module _ {F : Type 0} ⦃fl : Float64 F⦄ (rfc3339 : Time → Text) where
  unfoldable pub state_key : Event F → Text
  state_key e =
      if is_empty (status_ref e) || is_zero_time (identity_time e)
      then []
      else join (codes "|") (
          codes "state"
          ∷ to_upper (order_ref e)
          ∷ to_upper (status_ref e)
          ∷ print_f e.order_state.executed_qty
          ∷ rfc3339 (identity_time e)
          ∷ [])

  unfoldable pub event_identity_key : Event F → Text
  unfolding state_key
  event_identity_key e =
      if is_empty (order_ref e)
      then []
      else if is_empty (trade_ref e)
      then state_key e
      else join (codes "|") (codes "trade" ∷ to_upper (order_ref e) ∷ to_upper (trade_ref e) ∷ [])
