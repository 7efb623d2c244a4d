-- ===== src/Risk/Pending.antt =====
-- internal/order/risk/pending.go: the readers of the gate over the open orders, the symbol rules of
-- an exchange and the wallet of a venue.
pub mod Matches
use core_service.Prelude.{
  Bool, true, false, ◌&&◌, ◌||◌, List, [], ◌∷◌, map, if◌then◌else◌, Result, ok, err, ◌>>=◌,
}
use core_service.Prelude.Int.{ℤ, pos, leb_ℤ, eqb_ℤ}
use core_service.Text.{Text, normal, trim_space, equal_fold}
use core_service.Float.{Float64, sub, eq, zero}
use core_service.Domain.Wallet.{
  SpotAsset, FuturesPosition, FuturesRiskMetadata as WalletMetadata, OnlineAccountInfo,
}
use core_service.Lifecycle.Scanner.Model.{OpenOrder}
use core_service.Risk.Types.{
  PendingRouteKey, SnapshotRequest, Balance, Position, FuturesRiskMetadata, Snapshot,
}

unfoldable pub pending_order_matches : OpenOrder → PendingRouteKey → Bool
pending_order_matches order key =
    eqb_ℤ order.account_id key.account_id
    && eqb_ℤ order.venue_id key.venue_id
    && eqb_ℤ order.environment key.environment
    && eqb_ℤ order.exchange key.exchange
    && eqb_ℤ order.market key.market
    && eqb_ℤ order.position_side key.position_side
    && equal_fold (trim_space order.symbol) (trim_space key.symbol)

unfoldable pub any_pending : List OpenOrder → PendingRouteKey → Bool
any_pending [] key = false
any_pending (order ∷ orders) key = pending_order_matches order key || any_pending orders key

-- The store's open orders, at most `limit` of them, are the parameter `list_open_orders`.
unfoldable pub has_pending_route : (ℤ → Result (List OpenOrder)) → ℤ → PendingRouteKey → Result Bool
unfolding any_pending
has_pending_route list_open_orders limit key =
    list_open_orders (if leb_ℤ limit (pos 0) then pos 500 else limit) >>= λ orders.
    ok (any_pending orders key)

-- internal/exchange/adapter/capabilities.go
pub record SymbolRule (F : Type 0) : Type 0 where
  pub symbol : Text
  pub market : ℤ
  pub min_qty : F
  pub step_size : F
  pub min_notional : F
  pub tick_size : F

module _ {F : Type 0} ⦃fl : Float64 F⦄ where
  unfoldable pub rule_metadata : SymbolRule F → FuturesRiskMetadata F
  rule_metadata rule = record {
    symbol = normal rule.symbol;
    configured_leverage = zero;
    step_size = rule.step_size;
    tick_size = rule.tick_size;
    min_qty = rule.min_qty;
    min_notional = rule.min_notional;
  }

  -- The adapter's rules for a list of symbols, behind the registry, are the parameter `rules_of`.
  unfoldable pub read_symbol_rules :
      (List Text → Result (List (SymbolRule F)))
      → SnapshotRequest
      → Result (List (FuturesRiskMetadata F))
  unfolding rule_metadata
  read_symbol_rules rules_of req =
      rules_of (normal req.symbol ∷ []) >>= λ rules. ok (map rule_metadata rules)

  unfoldable pub spot_balance : SpotAsset F → Balance F
  spot_balance asset = record {
    asset = asset.symbol;
    available = sub asset.qty asset.locked;
    locked = asset.locked;
  }

  unfoldable pub snapshot_position : FuturesPosition F → Position F
  snapshot_position p = record {
    symbol = p.symbol;
    position_side = p.position_side;
    qty = p.position_qty;
  }

  unfoldable pub snapshot_metadata : WalletMetadata F → FuturesRiskMetadata F
  snapshot_metadata item = record {
    symbol = item.symbol;
    configured_leverage = item.configured_leverage;
    step_size = item.step_size;
    tick_size = item.tick_size;
    min_qty = zero;
    min_notional = zero;
  }

  unfoldable pub snapshot_from_online_info : OnlineAccountInfo F → Snapshot F
  unfolding spot_balance snapshot_position snapshot_metadata
  snapshot_from_online_info info = record {
    available_balance =
        if eq info.available_balance zero
        then info.futures.available_balance
        else info.available_balance;
    balances = map spot_balance info.spot.assets;
    positions = map snapshot_position info.futures.positions;
    futures_risk_metadata = map snapshot_metadata info.futures.risk_metadata;
  }
