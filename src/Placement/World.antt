-- ===== src/Placement/World.antt =====
-- internal/order/service/grpc.go: the collaborators of the service, and the calls that it makes of
-- them. A collaborator answers from the list of the calls made so far, latest first, so that any of
-- its behaviours is covered.
use core_service.Prelude.{ℕ, Bool, Option, List, Result}
use core_service.Prelude.Int.{ℤ}
use core_service.Text.{Text}
use core_service.Lifecycle.Events.{Event, Time}
use core_service.Risk.Types.{Decision, ReviewRequest}
use core_service.Placement.Model.{Failure, Reply, Meta, OrderIntent, OrderAttempt, Order, OrderFill}

-- internal/order/executor/executor.go
pub record OrderRequest (F : Type 0) : Type 0 where
  pub account_id : ℤ
  pub exchange : ℤ
  pub market : ℤ
  pub symbol : Text
  pub side : Text
  pub position_side : ℤ
  pub order_type : Text
  pub time_in_force : Text
  pub post_only : Bool
  pub good_till_date : Option Time
  pub reduce_only : Bool
  pub qty : F
  pub price : Option F
  pub mark_price : F
  pub client_order_id : Text

pub record RecoveryRequest : Type 0 where
  pub account_id : ℤ
  pub symbol : Text
  pub client_order_id : Text
  pub exchange_order_id : Text

pub record FillResult (F : Type 0) : Type 0 where
  pub exchange_trade_id : Text
  pub qty : F
  pub fill_price : F
  pub fee : F
  pub fee_missing : Bool

pub record OrderResult (F : Type 0) : Type 0 where
  pub exchange_order_id : Text
  pub client_order_id : Text
  pub symbol : Text
  pub side : Text
  pub order_type : Text
  pub time_in_force : Text
  pub status : Text
  pub orig_qty : F
  pub executed_qty : F
  pub remaining_qty : F
  pub avg_price : F
  pub price : F
  pub fills : List (FillResult F)
  pub error_message : Text
  pub fill_pending : Bool

-- The answer of a lookup; ErrOrderNotFound and ErrNotFound are `absent`.
pub data Lookup (A : Type 0) : Type 0 where
  found : A → Lookup A
  absent : Lookup A
  unanswered : Text → Lookup A

-- internal/order/notification/event.go, the fields that the service sets.
pub record Notice : Type 0 where
  pub schema_version : ℤ
  pub user_id : ℤ
  pub category : Text
  pub event_type : Text
  pub severity : Text
  pub account_id : ℤ
  pub strategy_id : ℤ
  pub session_id : Text
  pub order_id : Text
  pub attempt_id : Text
  pub title : Text
  pub message : Text
  pub dedupe_key : Text
  pub metadata : List (Text × Text)

-- A call and its answer; a write carries its error, or none.
pub data Call (F : Type 0) : Type 0 where
  get_meta : (account exchange market : ℤ) → Call F
  validate_active_session : Meta F → ℤ → Text → Option Failure → Call F
  upsert_order_intent : OrderIntent F → Option Text → Call F
  create_order_attempt : OrderAttempt F → Option Text → Call F
  finalize_order_attempt :
      OrderAttempt F → Option (Order F) → List (OrderFill F) → Option Text → Call F
  finalize_risk_rejected_attempt : OrderIntent F → OrderAttempt F → Option Text → Call F
  review_order : ReviewRequest F → Result Decision → Call F
  execute : OrderRequest F → Meta F → Result (OrderResult F) → Call F
  resolve : RecoveryRequest → Meta F → Lookup (OrderResult F) → Call F
  save_lifecycle_event : Event F → Option Text → Call F
  publish : Notice → Call F
  find_order_attempt : ℤ → (intent attempt client : Text) → Call F
  find_order_by_attempt list_order_fills_by_attempt : Text → Call F

abbrev pub History : Type 0 → Type 0
History F = List (Call F)

-- The collaborators, the clock and the generator of identifiers, by the calls made so far. The
-- repository may lack FinalizeRiskRejectedAttempt. `quoted` is the verb %q and `rfc3339` a time's
-- UTC().Format(time.RFC3339).
pub record World (F : Type 0) : Type 0 where
  pub meta : History F → (account exchange market : ℤ) → Reply (Meta F)
  pub session : History F → Meta F → ℤ → Text → Option Failure
  pub upsert_intent : History F → OrderIntent F → Option Text
  pub create_attempt : History F → OrderAttempt F → Option Text
  pub finalize : History F → OrderAttempt F → Option (Order F) → List (OrderFill F) → Option Text
  pub finalize_rejected : Option (History F → OrderIntent F → OrderAttempt F → Option Text)
  pub review : History F → ReviewRequest F → Result Decision
  pub executes : History F → OrderRequest F → Meta F → Result (OrderResult F)
  pub resolves : History F → RecoveryRequest → Meta F → Lookup (OrderResult F)
  pub save_event : History F → Event F → Option Text
  pub find_attempt : History F → ℤ → (intent attempt client : Text) → Lookup (OrderAttempt F)
  pub find_order : History F → Text → Lookup (Order F)
  pub list_fills : History F → Text → Result (List (OrderFill F))
  pub now : History F → Time
  pub new_id : History F → ℕ → Text
  pub quoted : Text → Text
  pub rfc3339 : Time → Text

-- What a handler returns, and the calls that it has made.
pub record Outcome (F : Type 0) (A : Type 0) : Type 0 where
  pub reply : A
  pub calls : History F
