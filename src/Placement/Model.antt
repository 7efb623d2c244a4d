-- ===== src/Placement/Model.antt =====
-- internal/order/service/grpc.go: the request and the response of PlaceOrder, the records that are
-- stored, the collaborators of the service, and the calls that it makes of them.
use core_service.Prelude.{Bool, Option, List}
use core_service.Prelude.Int.{ℤ}
use core_service.Text.{Text, codes}
use core_service.Lifecycle.Events.{Time}
use core_service.Risk.Types.{Violation}

-- google.golang.org/grpc/codes, as far as the service tells them apart.
pub data StatusCode : Type 0 where
  invalid_argument failed_precondition permission_denied not_found internal other : StatusCode

pub record Failure : Type 0 where
  pub code : StatusCode
  pub message : Text

-- What a handler returns.
pub data Reply (A : Type 0) : Type 0 where
  done : A → Reply A
  fail : Failure → Reply A

-- The statuses of an attempt.
pub data AttemptStatus : Type 0 where
  pending accepted failed unknown recovering recovered recovery_failed risk_rejected : AttemptStatus

unfoldable pub status_text : AttemptStatus → Text
status_text pending = codes "PENDING"
status_text accepted = codes "ACCEPTED"
status_text failed = codes "FAILED"
status_text unknown = codes "UNKNOWN"
status_text recovering = codes "RECOVERING"
status_text recovered = codes "RECOVERED"
status_text recovery_failed = codes "RECOVERY_FAILED"
status_text risk_rejected = codes "RISK_REJECTED"

-- proto/order_service.proto. A market time that is not a valid timestamp counts as none.
pub record PlaceOrderRequest (F : Type 0) : Type 0 where
  pub account_id : ℤ
  pub symbol : Text
  pub side : Text
  pub qty : F
  pub price : Option F
  pub mark_price : F
  pub strategy_id : ℤ
  pub market : ℤ
  pub session_id : Text
  pub intent_id : Text
  pub exchange : ℤ
  pub position_side : ℤ
  pub order_type : Text
  pub time_in_force : Text
  pub market_time : Option Time
  pub post_only : Bool
  pub good_till_date : Option Time
  pub reduce_only : Bool

-- internal/order/accountmeta/meta.go, without the credentials, which the service only hands on.
pub record Meta (F : Type 0) : Type 0 where
  pub account_id : ℤ
  pub venue_id : ℤ
  pub user_id : ℤ
  pub environment : ℤ
  pub exchange : ℤ
  pub market : ℤ
  pub margin_mode : Text
  pub position_mode : Text
  pub default_fee_rate : F
  pub slippage_bps : F

-- internal/order/repository/repository.go
pub record OrderIntent (F : Type 0) : Type 0 where
  pub intent_id : Text
  pub time : Time
  pub account_id : ℤ
  pub venue_id : ℤ
  pub user_id : ℤ
  pub strategy_id : ℤ
  pub session_id : Text
  pub environment : ℤ
  pub exchange : ℤ
  pub market : ℤ
  pub position_side : ℤ
  pub order_type : ℤ
  pub symbol : Text
  pub side : Text
  pub requested_qty : F
  pub requested_price : F
  pub post_only : Bool
  pub good_till_date : Option Time
  pub reduce_only : Bool
  pub status : Text
  pub reject_code : Text
  pub reject_message : Text

-- The reasons of the risk review are the list that the code encodes as JSON; a status of the review
-- that is empty is one that has not taken place.
pub record OrderAttempt (F : Type 0) : Type 0 where
  pub attempt_id : Text
  pub intent_id : Text
  pub time : Time
  pub account_id : ℤ
  pub venue_id : ℤ
  pub user_id : ℤ
  pub strategy_id : ℤ
  pub session_id : Text
  pub environment : ℤ
  pub exchange : ℤ
  pub market : ℤ
  pub position_side : ℤ
  pub order_type : ℤ
  pub symbol : Text
  pub side : Text
  pub requested_qty : F
  pub requested_price : F
  pub post_only : Bool
  pub good_till_date : Option Time
  pub reduce_only : Bool
  pub mark_price : F
  pub status : AttemptStatus
  pub error_message : Text
  pub client_order_id : Text
  pub recovery_error : Text
  pub risk_status : Text
  pub risk_reasons : List Violation
  pub order_id : Text
  pub exchange_order_id : Text

pub record Order (F : Type 0) : Type 0 where
  pub order_id : Text
  pub exchange_order_id : Text
  pub client_order_id : Text
  pub attempt_id : Text
  pub intent_id : Text
  pub time : Time
  pub account_id : ℤ
  pub venue_id : ℤ
  pub user_id : ℤ
  pub strategy_id : ℤ
  pub session_id : Text
  pub environment : ℤ
  pub exchange : ℤ
  pub market : ℤ
  pub position_side : ℤ
  pub symbol : Text
  pub side : Text
  pub orig_qty : F
  pub executed_qty : F
  pub remaining_qty : F
  pub avg_price : F
  pub price : F
  pub post_only : Bool
  pub good_till_date : Option Time
  pub reduce_only : Bool
  pub status : Text
  pub error_message : Text
  pub recovery_status : Text
  pub recovery_started_at : Option Time
  pub next_check_at : Option Time
  pub recovery_deadline_at : Option Time
  pub last_recovery_error : Text
  pub force_closed_at : Option Time

pub record OrderFill (F : Type 0) : Type 0 where
  pub fill_id : Text
  pub exchange_trade_id : Text
  pub order_id : Text
  pub exchange_order_id : Text
  pub attempt_id : Text
  pub intent_id : Text
  pub time : Time
  pub account_id : ℤ
  pub venue_id : ℤ
  pub user_id : ℤ
  pub symbol : Text
  pub side : Text
  pub qty : F
  pub fill_price : F
  pub fee : F
  pub status : Text
  pub strategy_id : ℤ
  pub environment : ℤ
  pub exchange : ℤ
  pub market : ℤ
  pub position_side : ℤ
  pub session_id : Text

-- A record that PlaceOrder answers with is the stored one; its conversion copies the fields.
pub record PlaceOrderResponse (F : Type 0) : Type 0 where
  pub intent_id : Text
  pub attempt_id : Text
  pub attempt_status : AttemptStatus
  pub error_message : Text
  pub client_order_id : Text
  pub order : Option (Order F)
  pub fill_deltas : List (OrderFill F)

pub record ResolveOrderAttemptRequest : Type 0 where
  pub account_id : ℤ
  pub intent_id : Text
  pub attempt_id : Text
  pub client_order_id : Text
