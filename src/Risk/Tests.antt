-- ===== src/Risk/Tests.antt =====
-- Runs of the gate, and its theorems at concrete inputs.
use core_service.Prelude.{
  arith, count_if, ◌≤◌, ℕ, ◌≡◌, refl, ◌≢◌, ◌↔◌, ◌⊎◌, Bool, true, false, none, some, [], ◌∷◌, ◌++◌,
  ok,
}
use core_service.Prelude.Int.{ℤ, pos, ◌+ℤ◌, ◌-ℤ◌, to_int16}
use mathlib.Core.List.{Permᴰ}
use core_service.Text.{
  Text, codes, normal, one_of, text_eq, to_upper, trim_space, upper_byte, equal_fold,
}
use core_service.Float.{le, zero, abs}
use core_service.Float.Fixed.{units, fixed}
use core_service.Lifecycle.Scanner.Model.{OpenOrder}
use core_service.Risk.Types.{ReviewRequest, OrderCapability, FuturesRiskMetadata, Snapshot}
use core_service.Risk.Rules.{
  contains_fold, validate_capability, order_notional, validate_symbol_rules, aligns_to_increment,
}
use core_service.Risk.Balance.{
  base_asset, quote_asset, available_balance, futures_metadata, validate_spot_balance,
  validate_futures_balance, quote_assets, has_suffix, balance_of, metadata_of,
}
use core_service.Risk.Balance.Assets.{symbol_split}
use core_service.Risk.Balance.Funded.{IsCovered, IsFuturesFunded}
use core_service.Domain.{market_spot, market_perpetual_futures}
use mathlib.Core.List.Permᴰ
use core_service.Risk.Metadata.{BySymbol, merge_risk_metadata, find}
use core_service.Risk.Metadata.Order.{leverage_of, merge_keeps_leverage, merge_order_irrelevant}
use core_service.Risk.Pending.{has_pending_route}
use core_service.Risk.Pending.Matches.{OnRoute, AnyOf, has_pending_route_iff}
use core_service.Risk.Gate.{
  DefaultGate, pending_key, allowed, normal_request, read_pending, read_capability, read_snapshot,
  read_rules, is_market, validate_balance, review_route, review,
}
use core_service.Risk.Gate.Decided.{IsDecided, review-IsDecided}
use core_service.Risk.Gate.Cleared.{IsCleared, review-allowed_iff}
use core_service.Risk.Gate.Covers.{allowed_spot_buy, allowed_spot_sell, allowed_futures}

abbrev capability : OrderCapability
capability = record {
  market = pos 2;
  order_types = codes "LIMIT" ∷ codes "market" ∷ [];
  time_in_force = codes "GTC" ∷ codes "IOC" ∷ [];
  supports_post_only = true;
  supports_gtd = false;
  supports_reduce_only = true;
}

abbrev metadata : Text → ℕ → FuturesRiskMetadata ℤ
metadata symbol leverage = record {
  symbol = symbol;
  configured_leverage = units leverage;
  step_size = pos 0;
  tick_size = pos 0;
  min_qty = pos 0;
  min_notional = pos 0;
}

abbrev held_snapshot : Snapshot ℤ
held_snapshot = record {
  available_balance = units 20;
  balances =
      record { asset = codes "BTC"; available = units 2; locked = units 0 }
      ∷ record { asset = codes "usdt"; available = units 150; locked = units 0 }
      ∷ [];
  positions = [];
  futures_risk_metadata = metadata (codes "BTCUSDT") 10 ∷ [];
}

abbrev gate : DefaultGate ℤ
gate = record {
  capability_reader = some (λ route. ok capability);
  snapshot_reader = some (λ req. ok held_snapshot);
  pending_reader = some (λ key. ok false);
  symbol_rules_reader = some (λ req. ok (metadata (codes "btcusdt") 0 ∷ []));
  range = λ m. m;
}

abbrev order : ℤ → Text → ReviewRequest ℤ
order market side = record {
  account_id = pos 7;
  venue_id = pos 3;
  user_id = pos 1;
  environment = pos 1;
  exchange = pos 1;
  market = market;
  position_side = pos 0;
  symbol = codes " btcusdt";
  side = side;
  qty = units 1;
  price = none;
  mark_price = units 100;
  order_type = [];
  time_in_force = [];
  post_only = false;
  good_till_date = none;
  reduce_only = false;
}

futures_allowed : review gate (order (pos 2) (codes "buy")) (pos 5) ≡ ok (allowed (pos 5))
unfolding ◌+ℤ◌ ◌-ℤ◌ review normal_request review_route read_pending read_capability read_snapshot
    read_rules validate_balance validate_futures_balance validate_capability contains_fold
    validate_symbol_rules order_notional futures_metadata merge_risk_metadata find metadata_of
    normal to_upper upper_byte trim_space text_eq to_int16 one_of aligns_to_increment
futures_allowed = refl

spot_buy_allowed : review gate (order (pos 1) (codes "buy")) (pos 5) ≡ ok (allowed (pos 5))
unfolding ◌+ℤ◌ ◌-ℤ◌ review normal_request review_route read_pending read_capability read_snapshot
    read_rules validate_balance validate_spot_balance validate_capability contains_fold
    order_notional available_balance base_asset quote_asset has_suffix balance_of normal to_upper
    upper_byte trim_space text_eq to_int16 one_of equal_fold
spot_buy_allowed = refl

spot_sell_allowed : review gate (order (pos 1) (codes "Sell ")) (pos 5) ≡ ok (allowed (pos 5))
unfolding ◌+ℤ◌ ◌-ℤ◌ review normal_request review_route read_pending read_capability read_snapshot
    read_rules validate_balance validate_spot_balance validate_capability contains_fold
    order_notional available_balance base_asset quote_asset has_suffix balance_of normal to_upper
    upper_byte trim_space text_eq to_int16 one_of equal_fold
spot_sell_allowed = refl

is_futures :
    is_market market_perpetual_futures (normal_request (order (pos 2) (codes "buy"))) ≡ true
unfolding normal_request to_int16
is_futures = refl

is_spot : (side : Text) → is_market market_spot (normal_request (order (pos 1) side)) ≡ true
unfolding normal_request to_int16
is_spot side = refl

buys : normal (codes "buy") ≡ codes "BUY"
unfolding normal to_upper upper_byte trim_space
buys = refl

sells : normal (codes "Sell ") ≡ codes "SELL"
unfolding normal to_upper upper_byte trim_space
sells = refl

review-allowed_iff_example :
    (review gate (order (pos 2) (codes "buy")) (pos 5) ≡ ok (allowed (pos 5)))
    ↔ IsCleared gate (order (pos 2) (codes "buy"))
review-allowed_iff_example = review-allowed_iff gate (order (pos 2) (codes "buy")) (pos 5)

review-IsDecided_example : IsDecided (pos 5) (allowed (pos 5))
review-IsDecided_example =
    review-IsDecided gate (order (pos 2) (codes "buy")) (pos 5) (allowed (pos 5)) futures_allowed

allowed_futures_example :
    let r = normal_request (order (pos 2) (codes "buy")) in
    (held complete : Snapshot ℤ) × (read_snapshot gate r ≡ ok held)
    × (read_rules gate r held ≡ ok complete)
    × IsFuturesFunded r complete
allowed_futures_example =
    allowed_futures gate (order (pos 2) (codes "buy")) (pos 5) futures_allowed is_futures

allowed_spot_buy_example :
    let r = normal_request (order (pos 1) (codes "buy")) in
    (held : Snapshot ℤ) × (read_snapshot gate r ≡ ok held)
    × (◌≡◌ {A = Bool} false false)
    × (le (order_notional r) zero ≡ false)
    × IsCovered held (quote_asset r.symbol) (order_notional r)
allowed_spot_buy_example =
    allowed_spot_buy gate (order (pos 1) (codes "buy")) (pos 5) spot_buy_allowed
      (is_spot (codes "buy")) buys

allowed_spot_sell_example :
    let r = normal_request (order (pos 1) (codes "Sell ")) in
    (held : Snapshot ℤ) × (read_snapshot gate r ≡ ok held)
    × IsCovered held (base_asset r.symbol) (abs r.qty)
allowed_spot_sell_example =
    allowed_spot_sell gate (order (pos 1) (codes "Sell ")) (pos 5) spot_sell_allowed
      (is_spot (codes "Sell ")) sells

symbol_split_example :
    ((base_asset (codes "btcusdt") ≡ []) × (quote_asset (codes "btcusdt") ≡ []))
    ⊎ ((base_asset (codes "btcusdt") ++ quote_asset (codes "btcusdt") ≡ normal (codes "btcusdt"))
        × (base_asset (codes "btcusdt") ≢ [])
        × (one_of (quote_asset (codes "btcusdt")) quote_assets ≡ true))
symbol_split_example = symbol_split (codes "btcusdt")

-- The map's entries in another order.
abbrev backwards : BySymbol ℤ → BySymbol ℤ
backwards [] = []
backwards (a ∷ []) = a ∷ []
backwards (a ∷ b ∷ m) = b ∷ a ∷ m

backwards-visits : (m : BySymbol ℤ) → Permᴰ m (backwards m)
backwards-visits [] = Permᴰ.nil
backwards-visits (a ∷ []) = Permᴰ.cons refl Permᴰ.nil
backwards-visits (a ∷ b ∷ m) = Permᴰ.swap refl refl

one_entry :
    count_if
      (λ entry. text_eq (normal entry.symbol) (codes "BTCUSDT"))
      (metadata (codes "BTCUSDT") 10 ∷ [])
    ≤ 1
unfolding text_eq normal to_upper upper_byte trim_space
one_entry = omega arith

merge_keeps_leverage_example :
    leverage_of (
      metadata_of
        (merge_risk_metadata backwards
          (metadata (codes "BTCUSDT") 10 ∷ [])
          (metadata (codes "ETHUSDT") 0 ∷ metadata (codes "btcusdt") 3 ∷ []))
        (codes "BTCUSDT"))
    ≡ leverage_of (metadata_of (metadata (codes "BTCUSDT") 10 ∷ []) (codes "BTCUSDT"))
merge_keeps_leverage_example =
    merge_keeps_leverage backwards backwards-visits (metadata (codes "BTCUSDT") 10 ∷ [])
      (metadata (codes "ETHUSDT") 0 ∷ metadata (codes "btcusdt") 3 ∷ []) (codes "BTCUSDT") one_entry

merge_order_irrelevant_example :
    metadata_of
      (merge_risk_metadata backwards
        (metadata (codes "BTCUSDT") 10 ∷ [])
        (metadata (codes "ETHUSDT") 2 ∷ []))
      (codes "ETHUSDT")
    ≡ metadata_of
        (merge_risk_metadata
          (λ m. m)
          (metadata (codes "BTCUSDT") 10 ∷ [])
          (metadata (codes "ETHUSDT") 2 ∷ []))
        (codes "ETHUSDT")
merge_order_irrelevant_example =
    merge_order_irrelevant backwards (λ m. m) backwards-visits Permᴰ.refl
      (metadata (codes "BTCUSDT") 10 ∷ []) (metadata (codes "ETHUSDT") 2 ∷ []) (codes "ETHUSDT")

abbrev open_order : OpenOrder
open_order = record {
  session_id = [];
  account_id = pos 7;
  venue_id = pos 3;
  environment = pos 1;
  exchange = pos 1;
  market = pos 2;
  position_side = pos 0;
  side = codes "BUY";
  intent_id = [];
  attempt_id = [];
  order_id = codes "o-1";
  exchange_order_id = codes "ex-1";
  client_order_id = [];
  symbol = codes "BTCUSDT";
  recovery_status = [];
  recovery_started_at = pos 0;
  next_check_at = pos 0;
  recovery_deadline_at = pos 0;
  last_recovery_error = [];
}

has_pending_route_iff_example :
    (has_pending_route
        (λ limit. ok (open_order ∷ []))
        (pos 0)
        (pending_key (order (pos 2) (codes "buy")))
      ≡ ok true)
    ↔ AnyOf (OnRoute (pending_key (order (pos 2) (codes "buy")))) (open_order ∷ [])
has_pending_route_iff_example =
    has_pending_route_iff (λ limit. ok (open_order ∷ [])) (pos 0)
      (pending_key (order (pos 2) (codes "buy"))) (open_order ∷ []) refl
