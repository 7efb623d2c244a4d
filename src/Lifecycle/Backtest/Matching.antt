-- ===== src/Lifecycle/Backtest/Matching.antt =====
-- A limit order fills whole at its limit price or not at all.
use core_service.Prelude.{◌≡◌, ◌⊎◌, inl, inr, true, false, none, some, arith, Bool-cases, not, ◌||◌}
use core_service.Text.{codes, normal, text_eq→eq}
use core_service.Float.{Float64, abs, le, eq, zero}
use core_service.Lifecycle.Events.{Event}
use core_service.Lifecycle.Backtest.{
  BacktestBar, BacktestLimitOrder, BacktestMatchResult, limit_touched, backtest_event, filled_state,
  backtest_fill, match_backtest_limit_gtc,
}

module _ {F : Type 0} ⦃fl : Float64 F⦄ (order : BacktestLimitOrder F) (bar : BacktestBar F) where
  -- The order fills whole, at its limit, and one event states the fill.
  pub record IsFilled (r : BacktestMatchResult F) : Type 0 where
    pub priced : le order.limit_price zero ≡ false
    pub sized : eq order.qty zero ≡ false
    pub reached :
        ((normal order.side ≡ codes "BUY") × (le bar.low order.limit_price ≡ true))
        ⊎ ((normal order.side ≡ codes "SELL") × (le order.limit_price bar.high ≡ true))
    pub status : r.state.status ≡ codes "FILLED"
    pub executed : r.state.executed_qty ≡ r.state.orig_qty
    pub remaining : r.state.remaining_qty ≡ zero
    pub at_limit : r.state.avg_price ≡ order.limit_price
    pub event :
        (e : Event F) × (r.event ≡ some e)
        × (e.fill_delta.qty ≡ abs order.qty)
        × (e.fill_delta.fill_price ≡ order.limit_price)
        × (e.order_state ≡ r.state)

  pub record IsResting (r : BacktestMatchResult F) : Type 0 where
    pub status : r.state.status ≡ codes "NEW"
    pub executed : r.state.executed_qty ≡ zero
    pub remaining : r.state.remaining_qty ≡ r.state.orig_qty
    pub silent : r.event ≡ none

  touched_cases :
      limit_touched order.side order.limit_price bar ≡ true
      → ((normal order.side ≡ codes "BUY") × (le bar.low order.limit_price ≡ true))
        ⊎ ((normal order.side ≡ codes "SELL") × (le order.limit_price bar.high ≡ true))
  unfolding limit_touched
  touched_cases h = ground (
    arith,
    text_eq→eq (normal order.side) (codes "BUY"),
    text_eq→eq (normal order.side) (codes "SELL"),
  )

  -- A match either fills the order whole, which takes a positive limit price, a quantity and a bar
  -- that reaches the limit from the order's side, or leaves it resting with no event.
  pub match_all_or_nothing :
      let r = match_backtest_limit_gtc order bar in
      ((r.filled ≡ true) × IsFilled r) ⊎ ((r.filled ≡ false) × IsResting r)
  unfolding match_backtest_limit_gtc
  match_all_or_nothing =
      elim (Bool-cases (
        le order.limit_price zero
        || eq order.qty zero
        || not (limit_touched order.side order.limit_price bar))) [
          | inl out ↦ inr (ground arith)
          | inr crossed ↦ inl (
            ground arith,
            record {
              priced = ground arith;
              sized = ground arith;
              reached = touched_cases (ground arith);
              status = ground arith;
              executed = ground arith;
              remaining = ground arith;
              at_limit = ground arith;
              event = (
                backtest_event order (codes "fill") (filled_state order bar)
                    (backtest_fill order bar) bar.time,
                ground arith,
                ground arith,
                ground arith,
                ground arith,
              );
            },
          )
        ]
