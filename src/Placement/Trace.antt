-- ===== src/Placement/Trace.antt =====
-- What the calls of one placement have to satisfy, whatever the collaborators answer.
pub mod Quiet
pub mod Recovery
pub mod Execution
pub mod Rejection
pub mod Unfit
pub mod Whole
pub mod Promises
use core_service.Prelude.{
  ◌≡◌, ◌⊎◌, ◌≢◌, Bool, true, false, Option, none, some, List, [], ◌∷◌, Result, ok, err,
}
use core_service.Text.{Text, trim_space}
use core_service.Lifecycle.Events.{Event}
use core_service.Lifecycle.Events.Facts.{RouteFacts}
use core_service.Risk.Types.{allow}
use core_service.Placement.Model.{
  AttemptStatus, pending, recovery_failed, OrderAttempt, Order, OrderFill, PlaceOrderResponse,
  Reply, done, fail,
}
use core_service.Placement.World.{
  OrderResult, Call, get_meta, validate_active_session, upsert_order_intent, create_order_attempt,
  finalize_order_attempt, finalize_risk_rejected_attempt, review_order, execute, resolve,
  save_lifecycle_event, publish, find_order_attempt, find_order_by_attempt,
  list_order_fills_by_attempt, History, Outcome,
}
use core_service.Placement.Answer.{build_place_order_response, Handled}
use core_service.Placement.Recheck.{is_settled}

-- What a write of an attempt has stored.
pub record Stored (F : Type 0) : Type 0 where
  pub attempt : OrderAttempt F
  pub order : Option (Order F)
  pub fills : List (OrderFill F)

module _ {F : Type 0} where
  abbrev pub stored_as : OrderAttempt F → Option (Order F) → List (OrderFill F) → Option (Stored F)
  stored_as attempt order fills = some (record { attempt = attempt; order = order; fills = fills })

  -- The last write of the attempt that did not fail.
  abbrev pub stored : History F → Option (Stored F)
  stored [] = none
  stored (create_order_attempt a none ∷ cs) = stored_as a none []
  stored (finalize_order_attempt a o fs none ∷ cs) = stored_as a o fs
  stored (finalize_risk_rejected_attempt i a none ∷ cs) = stored_as a none []
  stored (_ ∷ cs) = stored cs

  -- The exchange's answer to the last order that it was handed.
  abbrev pub sent : History F → Option (Result (OrderResult F))
  sent [] = none
  sent (execute r m answer ∷ cs) = some answer
  sent (_ ∷ cs) = sent cs

  -- The attempt is stored, with a status that may change.
  abbrev pub IsOpen : Option (Stored F) → Type 0
  IsOpen none = ⊥
  IsOpen (some s) = is_settled s.attempt.status ≡ false

  abbrev pub IsPending : Option (Stored F) → Type 0
  IsPending none = ⊥
  IsPending (some s) = s.attempt.status ≡ pending

  -- The gate has just allowed the order, right after the attempt was stored.
  abbrev pub IsCleared : History F → Type 0
  IsCleared
        (review_order q (ok d) ∷ create_order_attempt a none ∷ upsert_order_intent i none ∷ cs) =
      (d.status ≡ allow) × (a.status ≡ pending) × (i.intent_id ≡ a.intent_id)
  IsCleared _ = ⊥

module _ {F : Type 0} (id client : Text) where
  abbrev pub IsOf : OrderAttempt F → Type 0
  IsOf a = (a.attempt_id ≡ id) × (a.client_order_id ≡ client)

  -- All writes are of the one attempt `id`, and the exchange hears of it under `client` only. The
  -- attempt is created once; it is sent once, right after the gate has allowed it; it is queried only
  -- after it was sent; and its status is written only while it may change.
  abbrev pub IsOrderly : History F → Type 0
  IsOrderly [] = Unit
  IsOrderly (upsert_order_intent i e ∷ cs) = (sent cs ≡ none) × IsOrderly cs
  IsOrderly (create_order_attempt a e ∷ cs) =
      IsOf a × (stored cs ≡ none) × (sent cs ≡ none) × IsOrderly cs
  IsOrderly (finalize_risk_rejected_attempt i a e ∷ cs) =
      IsOf a × IsPending (stored cs) × (sent cs ≡ none) × IsOrderly cs
  IsOrderly (finalize_order_attempt a o fs e ∷ cs) = IsOf a × IsOpen (stored cs) × IsOrderly cs
  IsOrderly (execute r m answer ∷ cs) =
      (r.client_order_id ≡ client) × (sent cs ≡ none) × IsCleared cs × IsOrderly cs
  IsOrderly (resolve r m answer ∷ cs) =
      (r.client_order_id ≡ client) × (sent cs ≢ none) × IsOpen (stored cs) × IsOrderly cs
  IsOrderly (save_lifecycle_event e answer ∷ cs) =
      (e.attempt_id ≡ id) × RouteFacts e × (sent cs ≢ none) × IsOrderly cs
  IsOrderly (_ ∷ cs) = IsOrderly cs

module _ {F : Type 0} where
  -- An error is no order of the exchange: none was sent, or the exchange named none.
  abbrev pub IsRefused : Option (Result (OrderResult F)) → Type 0
  IsRefused none = Unit
  IsRefused (some (ok result)) = trim_space result.exchange_order_id ≡ []
  IsRefused (some (err e)) = ⊥

  -- A response states what the last write stored, or is that recovery failed, without an order.
  abbrev pub IsAnswer : Text → Text → History F → Reply (PlaceOrderResponse F) → Type 0
  IsAnswer id client calls (fail e) = IsRefused (sent calls)
  IsAnswer id client calls (done r) =
      (r.attempt_id ≡ id)
      × (r.client_order_id ≡ client)
      × (((r.attempt_status ≡ recovery_failed) × (r.order ≡ none) × (r.fill_deltas ≡ []))
          ⊎ ((s : Stored F) × (stored calls ≡ some s)
              × (r ≡ build_place_order_response s.attempt s.order s.fills)))

-- A handler ends with orderly calls and such an answer.
pub record IsPlaced {F : Type 0} (id client : Text) (o : Handled F) : Type 0 where
  pub orderly : IsOrderly id client o.calls
  pub answers : IsAnswer id client o.calls o.reply
