-- ===== src/Risk/Gate/Covers.antt =====
-- What stands behind an order that the gate has allowed.
use core_service.Prelude.{◌≡◌, true, false, arith, ok}
use core_service.Text.{codes, normal, equal_fold, text_eq_self}
use core_service.Float.{Float64, abs, le, zero}
use core_service.Domain.{market_spot, market_perpetual_futures}
use core_service.Lifecycle.Events.{Time}
use core_service.Risk.Types.{ReviewRequest, Snapshot, is_violation}
use core_service.Risk.Rules.{order_notional}
use core_service.Risk.Balance.{
  quote_asset, base_asset, validate_spot_balance, validate_futures_balance,
}
use core_service.Risk.Balance.Funded.{
  IsCovered, IsFuturesFunded, spot_buy-IsCovered, spot_sell-IsCovered, futures-IsFuturesFunded,
}
use core_service.Risk.Gate.{
  DefaultGate, allowed, normal_request, read_snapshot, read_rules, is_market, validate_balance,
  review,
}
use core_service.Risk.Gate.Cleared.{allowed→ReadsClear}

module _ {F : Type 0} ⦃fl : Float64 F⦄ (g : DefaultGate F) (req : ReviewRequest F) (at : Time)
    (allows : review g req at ≡ ok (allowed at)) where
  spot_snapshot :
      (held complete : Snapshot F)
      → is_market market_spot (normal_request req) ≡ true
      → read_rules g (normal_request req) held ≡ ok complete
      → complete ≡ held
  unfolding read_rules
  spot_snapshot held complete spot r = ground arith

  spot_violation :
      (complete : Snapshot F)
      → is_market market_spot (normal_request req) ≡ true
      → is_violation (validate_balance (normal_request req) complete) ≡ false
      → is_violation (validate_spot_balance (normal_request req) complete) ≡ false
  unfolding validate_balance
  spot_violation complete spot free = ground arith

  futures_violation :
      (complete : Snapshot F)
      → is_market market_perpetual_futures (normal_request req) ≡ true
      → is_violation (validate_balance (normal_request req) complete) ≡ false
      → is_violation (validate_futures_balance (normal_request req) complete) ≡ false
  unfolding validate_balance
  futures_violation complete futures free = ground arith

  fold_buy :
      normal req.side ≡ codes "BUY" → equal_fold (normal_request req).side (codes "BUY") ≡ true
  unfolding normal_request equal_fold
  fold_buy buy = rw buy (text_eq_self _)

  fold_sell :
      normal req.side ≡ codes "SELL" → equal_fold (normal_request req).side (codes "SELL") ≡ true
  unfolding normal_request equal_fold
  fold_sell sell = rw sell (text_eq_self _)

  -- A spot BUY that the gate allows does not reduce only, has a notional above zero, and the
  -- balance of its quote asset in the snapshot that the reader gave covers the notional.
  pub allowed_spot_buy :
      is_market market_spot (normal_request req) ≡ true
      → normal req.side ≡ codes "BUY"
      → let r = normal_request req in
        (held : Snapshot F) × (read_snapshot g r ≡ ok held)
        × (req.reduce_only ≡ false)
        × (le (order_notional r) zero ≡ false)
        × IsCovered held (quote_asset r.symbol) (order_notional r)
  unfolding normal_request
  allowed_spot_buy spot buy =
      let (held, complete, s, r, free) = (allowed→ReadsClear g req at allows).funded in
      let same = spot_snapshot held complete spot r in
      let (opening, priced, covered) =
        spot_buy-IsCovered (normal_request req) held
          (rw (← same) (spot_violation complete spot free)) (fold_buy buy) in
      (held, s, opening, priced, covered)

  -- A spot SELL that the gate allows: the unlocked balance of its base asset in the snapshot that
  -- the reader gave covers the quantity.
  pub allowed_spot_sell :
      is_market market_spot (normal_request req) ≡ true
      → normal req.side ≡ codes "SELL"
      → let r = normal_request req in
        (held : Snapshot F) × (read_snapshot g r ≡ ok held)
        × IsCovered held (base_asset r.symbol) (abs r.qty)
  allowed_spot_sell spot sell =
      let (held, complete, s, r, free) = (allowed→ReadsClear g req at allows).funded in
      let same = spot_snapshot held complete spot r in
      (
        held,
        s,
        spot_sell-IsCovered (normal_request req) held
            (rw (← same) (spot_violation complete spot free)) (fold_sell sell),
      )

  -- A futures order that the gate allows has risk metadata with a leverage above zero, meets the
  -- symbol's rules, and either reduces only and closes no more than an open position of the other
  -- side, or its margin at that leverage is available.
  pub allowed_futures :
      is_market market_perpetual_futures (normal_request req) ≡ true
      → let r = normal_request req in
        (held complete : Snapshot F) × (read_snapshot g r ≡ ok held)
        × (read_rules g r held ≡ ok complete)
        × IsFuturesFunded r complete
  allowed_futures futures =
      let (held, complete, s, r, free) = (allowed→ReadsClear g req at allows).funded in
      (
        held,
        complete,
        s,
        r,
        futures-IsFuturesFunded (normal_request req) complete
            (futures_violation complete futures free),
      )
