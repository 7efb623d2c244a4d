-- ===== src/Domain/Wallet.antt =====
-- internal/domain/model.go: canonical wallet state.
use core_service.Prelude.{Bool, Option, List}
use core_service.Prelude.Int.{ℤ}
use core_service.Text.{Text}
use core_service.Lifecycle.Events.{Time}

pub record FuturesPosition (F : Type 0) : Type 0 where
  pub symbol : Text
  pub direction : ℤ
  pub initial_balance : F
  pub leverage : F
  pub fee_rate : F
  pub mark_price : F
  pub qty : F
  pub position_qty : F
  pub entry_price : F
  pub unrealized_pnl : F
  pub position_side : Text
  pub margin_type : Text
  pub margin_mode : Text
  pub notional : F
  pub initial_margin : F
  pub position_initial_margin : F
  pub open_order_initial_margin : F
  pub maint_margin : F
  pub isolated_wallet : F
  pub liquidation_price : F
  pub break_even_price : F

pub record FuturesRiskBracket (F : Type 0) : Type 0 where
  pub bracket : ℤ
  pub notional_floor : F
  pub notional_cap : F
  pub initial_leverage : F
  pub maint_margin_ratio : F
  pub cumulative : F

pub record FuturesRiskMetadata (F : Type 0) : Type 0 where
  pub symbol : Text
  pub configured_leverage : F
  pub configured_margin_mode : Text
  pub price_precision : ℤ
  pub quantity_precision : ℤ
  pub tick_size : F
  pub step_size : F
  pub brackets : List (FuturesRiskBracket F)

pub record FuturesWallet (F : Type 0) : Type 0 where
  pub margin_mode : Text
  pub position_mode : Text
  pub initial_balance : F
  pub deposit_sum : F
  pub withdrawal_sum : F
  pub positions : List (FuturesPosition F)
  pub wallet_balance : F
  pub available_balance : F
  pub total_unrealized_pnl : F
  pub unrealized_pnl : F
  pub margin_balance : F
  pub total_margin_balance : F
  pub total_position_initial_margin : F
  pub total_open_order_initial_margin : F
  pub total_maint_margin : F
  pub total_cross_wallet_balance : F
  pub total_cross_un_pnl : F
  pub risk_metadata : List (FuturesRiskMetadata F)
  pub multi_assets_mode : Bool
  pub portfolio_margin : Bool
  pub display_wallet_balance_usd : F
  pub display_margin_balance_usd : F
  pub display_unrealized_pnl_usd : F

pub record SpotAsset (F : Type 0) : Type 0 where
  pub symbol : Text
  pub qty : F
  pub locked : F
  pub avg_entry_price : F
  pub price : Option F

pub record SpotWallet (F : Type 0) : Type 0 where
  pub free : F
  pub locked : F
  pub assets : List (SpotAsset F)

pub record OnlineAccountInfo (F : Type 0) : Type 0 where
  pub account_id : ℤ
  pub environment : ℤ
  pub futures : FuturesWallet F
  pub spot : SpotWallet F
  pub total_value : F
  pub wallet_balance : F
  pub available_balance : F
  pub updated_at : Time
