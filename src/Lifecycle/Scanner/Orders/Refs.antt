-- ===== src/Lifecycle/Scanner/Orders/Refs.antt =====
-- The order and the trade that the event of a recovered fill names.
use core_service.Prelude.{◌≡◌, ◌≢◌, false, refl, [], ◌∷◌, arith}
use core_service.Text.{Text, is_empty, trim_space, first_non_empty}
use core_service.Float.{Float64}
use core_service.Lifecycle.Events.{FillDelta, OrderState}
use core_service.Lifecycle.Identity.{order_ref, trade_ref}
use core_service.Lifecycle.Scanner.Model.{OpenOrder}
use core_service.Lifecycle.Scanner.Orders.{fill_event}

-- A text that is not blank is not empty.
pub not_blank : (s : Text) → trim_space s ≢ [] → is_empty s ≡ false
unfolding trim_space
not_blank [] h = absurd (h refl)
not_blank (c ∷ s) h = refl

module _ {F : Type 0} ⦃fl : Float64 F⦄ (order : OpenOrder) (state : OrderState F)
    (fill : FillDelta F) (source : Text) where
  pub fill_event-order_ref :
      trim_space fill.exchange_order_id ≢ []
      → order_ref (fill_event order state fill source) ≡ trim_space fill.exchange_order_id
  unfolding order_ref fill_event first_non_empty
  fill_event-order_ref h = ground (arith, not_blank fill.exchange_order_id h)

  pub fill_event-trade_ref :
      trim_space fill.exchange_trade_id ≢ []
      → trade_ref (fill_event order state fill source) ≡ trim_space fill.exchange_trade_id
  unfolding trade_ref fill_event first_non_empty
  fill_event-trade_ref h = ground (arith, not_blank fill.exchange_trade_id h)
