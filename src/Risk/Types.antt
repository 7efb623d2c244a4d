-- ===== src/Risk/Types.antt =====
-- internal/order/risk/types.go
use core_service.Prelude.{Bool, not, Option, List, []}
use core_service.Prelude.Int.{ℤ}
use core_service.Text.{Text, is_empty}
use core_service.Lifecycle.Events.{Time}

pub data DecisionStatus : Type 0 where
  allow reject : DecisionStatus

pub record Violation : Type 0 where
  pub code : Text
  pub message : Text

-- The zero value, which stands for no violation.
abbrev pub no_violation : Violation
no_violation = record { code = []; message = [] }

-- violation.Code != ""
abbrev pub is_violation : Violation → Bool
is_violation v = not (is_empty v.code)

pub record Decision : Type 0 where
  pub status : DecisionStatus
  pub reason_code : Text
  pub violations : List Violation
  pub warnings : List Violation
  pub reviewed_at : Time

pub record RouteKey : Type 0 where
  pub account_id : ℤ
  pub venue_id : ℤ
  pub user_id : ℤ
  pub environment : ℤ
  pub exchange : ℤ
  pub market : ℤ

pub record PendingRouteKey : Type 0 where
  pub account_id : ℤ
  pub venue_id : ℤ
  pub environment : ℤ
  pub exchange : ℤ
  pub market : ℤ
  pub position_side : ℤ
  pub symbol : Text

pub record SnapshotRequest : Type 0 where
  pub route_key : RouteKey
  pub symbol : Text

pub record ReviewRequest (F : Type 0) : Type 0 where
  pub account_id : ℤ
  pub venue_id : ℤ
  pub user_id : ℤ
  pub environment : ℤ
  pub exchange : ℤ
  pub market : ℤ
  pub position_side : ℤ
  pub symbol : Text
  pub side : Text
  pub qty : F
  pub price : Option F
  pub mark_price : F
  pub order_type : Text
  pub time_in_force : Text
  pub post_only : Bool
  pub good_till_date : Option Time
  pub reduce_only : Bool

pub record Balance (F : Type 0) : Type 0 where
  pub asset : Text
  pub available : F
  pub locked : F

pub record Position (F : Type 0) : Type 0 where
  pub symbol : Text
  pub position_side : Text
  pub qty : F

pub record FuturesRiskMetadata (F : Type 0) : Type 0 where
  pub symbol : Text
  pub configured_leverage : F
  pub step_size : F
  pub tick_size : F
  pub min_qty : F
  pub min_notional : F

pub record Snapshot (F : Type 0) : Type 0 where
  pub available_balance : F
  pub balances : List (Balance F)
  pub positions : List (Position F)
  pub futures_risk_metadata : List (FuturesRiskMetadata F)

-- internal/exchange/adapter/capabilities.go
pub record OrderCapability : Type 0 where
  pub market : ℤ
  pub order_types : List Text
  pub time_in_force : List Text
  pub supports_post_only : Bool
  pub supports_gtd : Bool
  pub supports_reduce_only : Bool
