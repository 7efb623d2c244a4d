-- ===== src/Risk/Rules.antt =====
-- internal/order/risk/symbol_rules.go and the amounts of internal/order/risk/gate.go: what the
-- venue's capability and the symbol's rules demand of an order.
use core_service.Prelude.{
  Bool, true, false, not, ◌&&◌, ◌||◌, Option, none, some, List, [], ◌∷◌, ◌++◌, if◌then◌else◌,
}
use core_service.Text.{Text, codes, is_empty, text_eq, normal, trim_space, equal_fold, one_of}
use core_service.Float.{
  Float64, add, sub, mul, div, abs, round, max, lt, le, zero, tiny, small, print_g,
}
use core_service.Risk.Types.{
  Violation, no_violation, ReviewRequest, FuturesRiskMetadata, OrderCapability,
}

abbrev pub is_some {ℓ} : {A : Type ℓ} → Option A → Bool
is_some none = false
is_some (some _) = true

unfoldable pub contains_fold : List Text → Text → Bool
contains_fold [] needle = false
contains_fold (value ∷ values) needle =
    text_eq (normal value) (normal needle) || contains_fold values needle

abbrev pub violation : Text → Text → Violation
violation code message = record { code = code; message = message }

abbrev pub combination : Text → Violation
combination = violation (codes "UNSUPPORTED_ORDER_COMBINATION")

module _ {F : Type 0} where
  unfoldable pub capability_order_type : ReviewRequest F → Text
  capability_order_type req =
      let order_type = normal req.order_type in
      if is_empty order_type then codes "MARKET" else order_type

  -- The time in force that a limit order has when it names none.
  unfoldable pub capability_time_in_force : ReviewRequest F → Text
  unfolding capability_order_type
  capability_time_in_force req =
      let tif = normal req.time_in_force in
      if text_eq (capability_order_type req) (codes "LIMIT") && is_empty tif
      then codes "GTC"
      else tif

  -- What a market order must not set.
  unfoldable pub validate_market_order : ReviewRequest F → Violation
  validate_market_order req =
      if is_some req.price
      then combination (codes "market order must not set price")
      else if req.post_only
      then combination (codes "market order must not set post_only")
      else if not (is_empty (trim_space req.time_in_force))
      then combination (codes "market order must not set time_in_force")
      else if is_some req.good_till_date
      then combination (codes "market order must not set good_till_date")
      else no_violation

  -- The checks behind those of a market order, on the time in force.
  unfoldable pub validate_options : ReviewRequest F → OrderCapability → Violation
  unfolding capability_time_in_force
  validate_options req capability =
      let tif = capability_time_in_force req in
      if req.post_only && not capability.supports_post_only
      then violation (codes "POST_ONLY_UNSUPPORTED") (codes "post_only is unsupported")
      else if not (is_empty tif) && not (contains_fold capability.time_in_force tif)
      then violation (codes "TIME_IN_FORCE_UNSUPPORTED")
          (codes "time_in_force " ++ (tif ++ codes " is unsupported"))
      else if req.post_only && one_of tif (codes "IOC" ∷ codes "FOK" ∷ codes "GTD" ∷ [])
      then combination (codes "post_only cannot be combined with time_in_force=" ++ tif)
      else if (text_eq tif (codes "GTD") || is_some req.good_till_date)
          && not capability.supports_gtd
      then violation (codes "GTD_UNSUPPORTED") (codes "good_till_date is unsupported")
      else if req.reduce_only && not capability.supports_reduce_only
      then violation (codes "REDUCE_ONLY_UNSUPPORTED") (codes "reduce_only is unsupported")
      else no_violation

  unfoldable pub validate_capability : ReviewRequest F → OrderCapability → Violation
  unfolding capability_order_type validate_market_order validate_options
  validate_capability req capability =
      let order_type = capability_order_type req in
      let market = validate_market_order req in
      if not (contains_fold capability.order_types order_type)
      then violation (codes "ORDER_TYPE_UNSUPPORTED")
          (codes "order_type " ++ (order_type ++ codes " is unsupported"))
      else if text_eq order_type (codes "MARKET") && not (is_empty market.code)
      then market
      else validate_options req capability

module _ {F : Type 0} ⦃fl : Float64 F⦄ where
  unfoldable pub price_basis : ReviewRequest F → F
  price_basis req = elim req.price [
    | none ↦ req.mark_price
    | some price ↦ if lt zero price then price else req.mark_price
  ]

  unfoldable pub order_notional : ReviewRequest F → F
  unfolding price_basis
  order_notional req =
      if le (price_basis req) zero then zero else mul (abs req.qty) (price_basis req)

  unfoldable pub aligns_to_increment : F → F → Bool
  aligns_to_increment value increment =
      let scaled = div value increment in
      let nearest = round scaled in
      le increment zero
      || le (abs (sub scaled nearest)) small
      || le (abs (sub value (mul nearest increment))) (max tiny (mul increment small))

  -- A limit price that is not on the symbol's ticks.
  unfoldable pub is_off_tick : ReviewRequest F → FuturesRiskMetadata F → Bool
  is_off_tick req metadata = elim req.price [
    | none ↦ false
    | some price ↦
        equal_fold (trim_space req.order_type) (codes "LIMIT")
        && lt zero metadata.tick_size
        && not (aligns_to_increment price metadata.tick_size)
  ]

  abbrev price_text : ReviewRequest F → Text
  price_text req = elim req.price [ none ↦ [] | some price ↦ print_g price ]

  unfoldable pub validate_symbol_rules : ReviewRequest F → FuturesRiskMetadata F → Violation
  unfolding is_off_tick
  validate_symbol_rules req metadata =
      let qty = abs req.qty in
      let notional = order_notional req in
      if lt zero metadata.min_qty && lt (add qty tiny) metadata.min_qty
      then violation (codes "MIN_QTY_VIOLATION") (
          codes "qty " ++ (print_g qty ++ (codes " is below min_qty " ++ print_g metadata.min_qty)))
      else if lt zero metadata.step_size && not (aligns_to_increment qty metadata.step_size)
      then violation (codes "STEP_SIZE_VIOLATION") (
          codes "qty "
          ++ (print_g qty ++ (codes " is not aligned to step_size " ++ print_g metadata.step_size)))
      else if is_off_tick req metadata
      then violation (codes "TICK_SIZE_VIOLATION") (
          codes "price "
          ++ (price_text req
              ++ (codes " is not aligned to tick_size " ++ print_g metadata.tick_size)))
      else if lt zero metadata.min_notional && lt (add notional tiny) metadata.min_notional
      then violation (codes "MIN_NOTIONAL_VIOLATION") (
          codes "notional "
          ++ (print_g notional
              ++ (codes " is below min_notional " ++ print_g metadata.min_notional)))
      else no_violation
