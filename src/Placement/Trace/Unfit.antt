-- ===== src/Placement/Trace/Unfit.antt =====
-- A placement of which nothing is stored yet, and the one whose contract is not supported.
use core_service.Prelude.{◌≡◌, refl, inl, inr, Option, none, some, [], ◌∷◌, Option-cases}
use core_service.Text.{Text}
use core_service.Float.{Float64}
use core_service.Placement.Model.{
  Failure, Reply, done, fail, PlaceOrderRequest, Meta, OrderIntent, OrderAttempt,
}
use core_service.Placement.World.{upsert_order_intent, create_order_attempt, History, World}
use core_service.Placement.Answer.{Handled, failed_with}
use core_service.Placement.Contract.{validate_position_side}
use core_service.Placement.Unfit.{
  unfit_attempt_stored, unfit_intent_stored, unfit_active, record_order_contract_failure,
}
use core_service.Placement.Trace.{stored, sent, IsOrderly, IsPlaced}
use core_service.Placement.Trace.Recovery.{answered-IsPlaced}

module _ {F : Type 0} where
  -- Nothing is stored or sent yet.
  pub record IsUntouched (h : History F) : Type 0 where
    pub unstored : stored h ≡ none
    pub unsent : sent h ≡ none
    pub orderly : (id client : Text) → IsOrderly id client h

  -- One attempt, under one client order id.
  abbrev pub IsOnePlacement : Handled F → Type 0
  IsOnePlacement o = (id : Text) × (client : Text) × IsPlaced id client o

  pub fail-IsPlaced :
      (id client : Text) (e : Failure) (h : History F)
      → sent h ≡ none
      → IsOrderly id client h
      → IsPlaced id client (failed_with e h)
  fail-IsPlaced id client e h unsent orderly = record { orderly = orderly; answers = rw unsent tt }

  pub untouched-fails :
      (e : Failure) (h : History F) → IsUntouched h → IsOnePlacement (failed_with e h)
  untouched-fails e h u = ([], [], fail-IsPlaced [] [] e h u.unsent (u.orderly [] []))

module _ {F : Type 0} ⦃fl : Float64 F⦄ (w : World F) (req : PlaceOrderRequest F) (side : Text)
    (contract_err : Failure) where
  unfit_attempt_stored-IsPlaced :
      (i : OrderIntent F) (a : OrderAttempt F) (e : Option Text) (h : History F)
      → IsUntouched h
      → IsPlaced a.attempt_id a.client_order_id (
          unfit_attempt_stored w req side contract_err a e
            (create_order_attempt a e ∷ upsert_order_intent i none ∷ h))
  unfolding unfit_attempt_stored
  unfit_attempt_stored-IsPlaced i a (some text) h u =
      fail-IsPlaced _ _ _ _ u.unsent ((refl, refl), u.unstored, u.unsent, (u.unsent, u.orderly _ _))
  unfit_attempt_stored-IsPlaced i a none h u =
      answered-IsPlaced w _ _ a none []
        (create_order_attempt a none ∷ upsert_order_intent i none ∷ h) (refl, refl) refl
        ((refl, refl), u.unstored, u.unsent, (u.unsent, u.orderly _ _))

  unfit_intent_stored-IsPlaced :
      (i : OrderIntent F) (a : OrderAttempt F) (e : Option Text) (h : History F)
      → IsUntouched h
      → IsPlaced a.attempt_id a.client_order_id
          (unfit_intent_stored w req side contract_err a e (upsert_order_intent i e ∷ h))
  unfolding unfit_intent_stored
  unfit_intent_stored-IsPlaced i a (some text) h u =
      fail-IsPlaced _ _ _ _ u.unsent (u.unsent, u.orderly _ _)
  unfit_intent_stored-IsPlaced i a none h u = unfit_attempt_stored-IsPlaced i a _ h u

  unfit_active-IsOnePlacement :
      (meta : Meta F) (answer : Option Failure) (h : History F)
      → IsUntouched h
      → IsOnePlacement (unfit_active w req side contract_err meta answer h)
  unfolding unfit_active
  unfit_active-IsOnePlacement meta (some e) h u = untouched-fails e h u
  unfit_active-IsOnePlacement meta none h u = (_, _, unfit_intent_stored-IsPlaced _ _ _ h u)

  pub record_order_contract_failure-IsOnePlacement :
      (answer : Reply (Meta F)) (h : History F)
      → IsUntouched h
      → IsOnePlacement (record_order_contract_failure w req side contract_err answer h)
  unfolding record_order_contract_failure
  record_order_contract_failure-IsOnePlacement (fail e) h u = untouched-fails contract_err h u
  record_order_contract_failure-IsOnePlacement (done meta) h u =
      elim (Option-cases (validate_position_side meta req.position_side)) [
        | inl e ↦
            rw (record_order_contract_failure, e)
              (unfit_active-IsOnePlacement meta _ _
                (record { unstored = u.unstored; unsent = u.unsent; orderly = u.orderly }))
        | inr (failure, e) ↦
            rw (record_order_contract_failure, e) (untouched-fails contract_err h u)
      ]
