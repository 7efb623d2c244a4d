-- ===== src/Risk/Balance.antt =====
-- internal/order/risk/balance.go: whether the snapshot of the venue covers an order.
pub mod Assets
pub mod Funded
use core_service.Prelude.{
  Bool, true, false, not, ◌&&◌, ◌||◌, Option, none, some, List, [], ◌∷◌, ◌++◌, if◌then◌else◌, ltb,
  length,
}
use core_service.Prelude.Int.{ℤ, pos, eqb_ℤ}
use core_service.Text.{Text, codes, is_empty, text_eq, normal, equal_fold}
use core_service.Float.{Float64, add, div, abs, lt, le, zero, tiny, print_g}
use core_service.Risk.Types.{
  Violation, no_violation, is_violation, ReviewRequest, Position, FuturesRiskMetadata, Balance,
  Snapshot,
}
use core_service.Risk.Rules.{violation, order_notional, validate_symbol_rules}

abbrev pub quote_assets : List Text
quote_assets =
    codes "USDT"
    ∷ codes "USDC"
    ∷ codes "BUSD"
    ∷ codes "FDUSD"
    ∷ codes "TUSD"
    ∷ codes "BTC"
    ∷ codes "ETH"
    ∷ codes "BNB"
    ∷ []

-- strings.HasSuffix(s, suffix)
unfoldable pub has_suffix : Text → Text → Bool
has_suffix [] suffix = text_eq [] suffix
has_suffix (c ∷ s) suffix = text_eq (c ∷ s) suffix || has_suffix s suffix

-- The symbol ends in the quote asset and is longer than it.
unfoldable pub has_quote : Text → Text → Bool
has_quote symbol quote = has_suffix symbol quote && ltb (length quote) (length symbol)

-- strings.TrimSuffix(s, suffix)
unfoldable pub trim_suffix : Text → Text → Text
trim_suffix [] suffix = []
trim_suffix (c ∷ s) suffix = if text_eq (c ∷ s) suffix then [] else c ∷ trim_suffix s suffix

unfoldable pub base_asset_in : Text → List Text → Text
unfolding has_quote trim_suffix
base_asset_in symbol [] = []
base_asset_in symbol (quote ∷ quotes) =
    if has_quote symbol quote then trim_suffix symbol quote else base_asset_in symbol quotes

unfoldable pub quote_asset_in : Text → List Text → Text
unfolding has_quote
quote_asset_in symbol [] = []
quote_asset_in symbol (quote ∷ quotes) =
    if has_quote symbol quote then quote else quote_asset_in symbol quotes

unfoldable pub base_asset : Text → Text
unfolding base_asset_in
base_asset symbol = base_asset_in (normal symbol) quote_assets

unfoldable pub quote_asset : Text → Text
unfolding quote_asset_in
quote_asset symbol = quote_asset_in (normal symbol) quote_assets

unfoldable pub position_side_text : ℤ → Text
position_side_text side =
    if eqb_ℤ side (pos 1)
    then codes "LONG"
    else if eqb_ℤ side (pos 2)
    then codes "SHORT"
    else codes "BOTH"

module _ {F : Type 0} where
  unfoldable pub balance_of : List (Balance F) → Text → Option F
  balance_of [] asset = none
  balance_of (item ∷ items) asset =
      if text_eq (normal item.asset) asset then some item.available else balance_of items asset

  unfoldable pub available_balance : Snapshot F → Text → Option F
  available_balance snapshot asset = balance_of snapshot.balances (normal asset)

  unfoldable pub metadata_of : List (FuturesRiskMetadata F) → Text → Option (FuturesRiskMetadata F)
  metadata_of [] symbol = none
  metadata_of (item ∷ items) symbol =
      if text_eq (normal item.symbol) symbol then some item else metadata_of items symbol

  unfoldable pub futures_metadata : Snapshot F → Text → Option (FuturesRiskMetadata F)
  futures_metadata snapshot symbol = metadata_of snapshot.futures_risk_metadata (normal symbol)

  abbrev pub item_side : Position F → Text
  item_side item =
      let side = normal item.position_side in if is_empty side then codes "BOTH" else side

  unfoldable pub position_of : List (Position F) → Text → Text → Option (Position F)
  position_of [] symbol want = none
  position_of (item ∷ items) symbol want =
      if text_eq (normal item.symbol) symbol && text_eq (item_side item) want
      then some item
      else position_of items symbol want

  unfoldable pub futures_position : Snapshot F → Text → ℤ → Option (Position F)
  unfolding position_side_text
  futures_position snapshot symbol side =
      position_of snapshot.positions (normal symbol) (position_side_text side)

abbrev pub position_missing : Violation
position_missing =
    violation (codes "REDUCE_ONLY_POSITION_MISSING")
      (codes "reduce_only requires an existing position")

abbrev pub metadata_missing : Violation
metadata_missing =
    violation (codes "RISK_METADATA_MISSING") (codes "futures risk metadata is missing")

module _ {F : Type 0} ⦃fl : Float64 F⦄ where
  -- The balance is missing or does not reach the amount.
  abbrev pub falls_short : Option F → F → Bool
  falls_short none amount = true
  falls_short (some available) amount = lt (add available tiny) amount

  unfoldable pub validate_spot_buy : ReviewRequest F → Snapshot F → Violation
  validate_spot_buy req snapshot =
      let notional = order_notional req in
      let quote = quote_asset req.symbol in
      if le notional zero
      then violation (codes "PRICE_REQUIRED_FOR_RISK")
          (codes "positive price or mark_price is required for spot buy risk check")
      else if falls_short (available_balance snapshot quote) notional
      then violation (codes "INSUFFICIENT_QUOTE_BALANCE") (
          codes "available "
          ++ (quote ++ (codes " balance is below required notional " ++ print_g notional)))
      else no_violation

  unfoldable pub validate_spot_balance : ReviewRequest F → Snapshot F → Violation
  unfolding validate_spot_buy
  validate_spot_balance req snapshot =
      let base = base_asset req.symbol in
      let quote = quote_asset req.symbol in
      if req.reduce_only && equal_fold req.side (codes "BUY")
      then violation (codes "SPOT_REDUCE_ONLY_BUY") (codes "spot reduce_only only supports SELL")
      else if is_empty base || is_empty quote
      then violation (codes "SYMBOL_RULES_MISSING") (codes "cannot infer base asset from symbol")
      else if equal_fold req.side (codes "SELL")
          && falls_short (available_balance snapshot base) (abs req.qty)
      then violation (codes "INSUFFICIENT_UNLOCKED_QTY")
          (codes "available " ++ (base ++ codes " qty is insufficient"))
      else if equal_fold req.side (codes "BUY")
      then validate_spot_buy req snapshot
      else no_violation

  -- The order's side reduces the position: a SELL a long one, a BUY a short one.
  unfoldable pub side_mismatch : Text → F → Violation
  side_mismatch side qty =
      if equal_fold side (codes "SELL")
      then (if le qty zero
          then violation (codes "REDUCE_ONLY_POSITION_MISMATCH")
              (codes "reduce_only SELL requires a long position")
          else no_violation)
      else if equal_fold side (codes "BUY") && le zero qty
      then violation (codes "REDUCE_ONLY_POSITION_MISMATCH")
          (codes "reduce_only BUY requires a short position")
      else no_violation

  unfoldable pub validate_futures_reduce_only : ReviewRequest F → Snapshot F → Violation
  unfolding side_mismatch
  validate_futures_reduce_only req snapshot =
      elim (futures_position snapshot req.symbol req.position_side) [
        | none ↦ position_missing
        | some position ↦
            let qty = abs req.qty in
            let mismatch = side_mismatch req.side position.qty in
            if le (abs position.qty) tiny
            then position_missing
            else if is_violation mismatch
            then mismatch
            else if lt (add (abs position.qty) tiny) qty
            then violation (codes "REDUCE_ONLY_QTY_EXCEEDS_POSITION") (
                codes "reduce_only qty "
                ++ (print_g qty ++ (codes " exceeds position qty " ++ print_g (abs position.qty))))
            else no_violation
      ]

  unfoldable pub validate_futures_margin :
      ReviewRequest F → Snapshot F → FuturesRiskMetadata F → Violation
  validate_futures_margin req snapshot metadata =
      let notional = order_notional req in
      let margin = div notional metadata.configured_leverage in
      if le notional zero
      then violation (codes "PRICE_REQUIRED_FOR_RISK")
          (codes "positive price or mark_price is required for futures risk check")
      else if lt (add snapshot.available_balance tiny) margin
      then violation (codes "INSUFFICIENT_AVAILABLE_BALANCE") (
          codes "available_balance "
          ++ (print_g snapshot.available_balance
              ++ (codes " is below required_margin " ++ print_g margin)))
      else no_violation

  unfoldable pub validate_futures_balance : ReviewRequest F → Snapshot F → Violation
  unfolding validate_futures_reduce_only validate_futures_margin
  validate_futures_balance req snapshot = elim (futures_metadata snapshot req.symbol) [
    | none ↦ metadata_missing
    | some metadata ↦
        let rules = validate_symbol_rules req metadata in
        if le metadata.configured_leverage zero
        then metadata_missing
        else if is_violation rules
        then rules
        else if req.reduce_only
        then validate_futures_reduce_only req snapshot
        else validate_futures_margin req snapshot metadata
  ]
