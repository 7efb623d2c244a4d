-- ===== src/Placement/Execution/Identity.antt =====
-- The lifecycle event of a fill, as PlaceOrder writes it and as REST recovery writes it.
use core_service.Prelude.{◌≡◌, ◌≢◌, [], arith}
use core_service.Text.{Text, trim_space, first_non_empty}
use core_service.Float.{Float64}
use core_service.Lifecycle.Events.{FillDelta, OrderState, Time}
use core_service.Lifecycle.Identity.{order_ref, trade_ref, event_identity_key}
use core_service.Lifecycle.Identity.Trade.{agree_on_refs}
use core_service.Lifecycle.Scanner.Model.{OpenOrder}
use core_service.Lifecycle.Scanner.Orders.{fill_event, timed_fill}
use core_service.Lifecycle.Scanner.Orders.Refs.{
  not_blank, fill_event-order_ref, fill_event-trade_ref,
}
use core_service.Placement.Model.{Order, OrderFill}
use core_service.Placement.Execution.{placed_event}

module _ {F : Type 0} ⦃fl : Float64 F⦄ where
  placed_event-order_ref :
      (order : Order F) (fill : OrderFill F)
      → trim_space fill.exchange_order_id ≢ []
      → order_ref (placed_event order fill) ≡ trim_space fill.exchange_order_id
  unfolding order_ref placed_event first_non_empty
  placed_event-order_ref order fill h = ground (arith, not_blank fill.exchange_order_id h)

  placed_event-trade_ref :
      (order : Order F) (fill : OrderFill F)
      → trim_space fill.exchange_trade_id ≢ []
      → trade_ref (placed_event order fill) ≡ trim_space fill.exchange_trade_id
  unfolding trade_ref placed_event first_non_empty
  placed_event-trade_ref order fill h = ground (arith, not_blank fill.exchange_trade_id h)

  -- A trade that PlaceOrder reports and the same trade as REST recovery reads it later (the same
  -- order and trade identifiers of the exchange, neither blank) have one identity key, so that the
  -- store can keep one of them, whatever else the two events say.
  pub placement_and_recovery_agree :
      (rfc3339 : Time → Text) (order : Order F) (fill : OrderFill F) (recovered : OpenOrder)
      (state : OrderState F) (read : FillDelta F) (source : Text) (now : Time)
      → read.exchange_order_id ≡ fill.exchange_order_id
      → read.exchange_trade_id ≡ fill.exchange_trade_id
      → trim_space fill.exchange_order_id ≢ []
      → trim_space fill.exchange_trade_id ≢ []
      → event_identity_key rfc3339 (placed_event order fill)
        ≡ event_identity_key rfc3339 (fill_event recovered state (timed_fill read now) source)
  placement_and_recovery_agree rfc3339 order fill recovered state read source now o t ho ht =
      let kept = timed_fill read now in
      agree_on_refs rfc3339 (placed_event order fill) (fill_event recovered state kept source)
        fill.exchange_order_id fill.exchange_trade_id ho ht (placed_event-order_ref order fill ho)
        (rw⁻¹ o (fill_event-order_ref recovered state kept source (rw o ho)))
        (placed_event-trade_ref order fill ht)
        (rw⁻¹ t (fill_event-trade_ref recovered state kept source (rw t ht)))
