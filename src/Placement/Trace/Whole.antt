-- ===== src/Placement/Trace/Whole.antt =====
-- A whole placement.
use core_service.Prelude.{
  ◌≡◌, refl, inl, inr, Option, none, some, [], ◌∷◌, Option-cases, Bool-cases, Result, ok, err,
}
use core_service.Text.{Text}
use core_service.Float.{Float64}
use core_service.Lifecycle.Events.{Time}
use core_service.Risk.Types.{Decision, ReviewRequest}
use core_service.Placement.Model.{
  pending, Failure, Reply, done, fail, PlaceOrderRequest, Meta, OrderIntent, OrderAttempt,
}
use core_service.Placement.World.{
  get_meta, upsert_order_intent, create_order_attempt, review_order, History, World,
}
use core_service.Placement.Contract.{
  OrderContract, validate_position_side, market_time_or_now, is_auditable_order_contract_error,
}
use core_service.Placement.Request.{
  Checked, decided, intent_id_of, requested_intent, pending_attempt, check_request, review_request,
}
use core_service.Placement.Place.{
  place_decided, attempt_stored, intent_stored, place_active, place_routed, place_known,
  place_contracted, place_sided, place_order,
}
use core_service.Placement.Trace.{IsPlaced}
use core_service.Placement.Trace.Rejection.{place_decided-IsPlaced}
use core_service.Placement.Trace.Unfit.{
  IsUntouched, IsOnePlacement, fail-IsPlaced, untouched-fails,
  record_order_contract_failure-IsOnePlacement,
}

module _ {F : Type 0} ⦃fl : Float64 F⦄ (w : World F) (c : Checked F) (meta : Meta F) where
  -- The gate's answer, the decision that it stands for included.
  reviewed-IsPlaced :
      (i : OrderIntent F) (a : OrderAttempt F) (at now : Time) (q : ReviewRequest F)
      (answer : Result Decision) (h : History F)
      → IsUntouched h
      → a.status ≡ pending
      → i.intent_id ≡ a.intent_id
      → IsPlaced a.attempt_id a.client_order_id (
          place_decided w c meta i a at
            (decided now answer)
            (review_order q answer ∷ create_order_attempt a none ∷ upsert_order_intent i none ∷ h))
  reviewed-IsPlaced i a at now q (ok decision) h u waiting same =
      place_decided-IsPlaced w c meta _ _ i a at decision _ (refl, refl) waiting u.unsent
        ((refl, refl), u.unstored, u.unsent, (u.unsent, u.orderly _ _))
        (λ allowed. (allowed, waiting, same))
  reviewed-IsPlaced i a at now q (err text) h u waiting same =
      place_decided-IsPlaced w c meta _ _ i a at (decided now (err text)) _ (refl, refl) waiting
        u.unsent ((refl, refl), u.unstored, u.unsent, (u.unsent, u.orderly _ _)) (λ allowed. cc)

  attempt_stored-IsPlaced :
      (i : OrderIntent F) (a : OrderAttempt F) (at : Time) (e : Option Text) (h : History F)
      → IsUntouched h
      → a.status ≡ pending
      → i.intent_id ≡ a.intent_id
      → IsPlaced a.attempt_id a.client_order_id (
          attempt_stored w c meta i a at e
            (create_order_attempt a e ∷ upsert_order_intent i none ∷ h))
  unfolding attempt_stored
  attempt_stored-IsPlaced i a at (some text) h u waiting same =
      fail-IsPlaced _ _ _ _ u.unsent ((refl, refl), u.unstored, u.unsent, (u.unsent, u.orderly _ _))
  attempt_stored-IsPlaced i a at none h u waiting same =
      let q = review_request meta c in
      let answer = w.review (create_order_attempt a none ∷ upsert_order_intent i none ∷ h) q in
      let h' =
        review_order q answer ∷ create_order_attempt a none ∷ upsert_order_intent i none ∷ h in
      reviewed-IsPlaced i a at (w.now h') q answer h u waiting same

  intent_stored-IsPlaced :
      (i : OrderIntent F) (a : OrderAttempt F) (at : Time) (e : Option Text) (h : History F)
      → IsUntouched h
      → a.status ≡ pending
      → i.intent_id ≡ a.intent_id
      → IsPlaced a.attempt_id a.client_order_id
          (intent_stored w c meta i a at e (upsert_order_intent i e ∷ h))
  unfolding intent_stored
  intent_stored-IsPlaced i a at (some text) h u waiting same =
      fail-IsPlaced _ _ _ _ u.unsent (u.unsent, u.orderly _ _)
  intent_stored-IsPlaced i a at none h u waiting same =
      attempt_stored-IsPlaced i a at _ h u waiting same

  place_active-IsOnePlacement :
      (answer : Option Failure) (h : History F)
      → IsUntouched h
      → IsOnePlacement (place_active w c meta answer h)
  unfolding place_active requested_intent pending_attempt
  place_active-IsOnePlacement (some e) h u = untouched-fails e h u
  place_active-IsOnePlacement none h u =
      let at = market_time_or_now c.req.market_time (w.now h) in
      let intent_id = intent_id_of w c.req h in
      let code = c.contract.type_code in
      let i = requested_intent meta c.req c.side code intent_id at in
      let a = pending_attempt meta c.req c.side code intent_id (w.new_id h 1) at in
      (_, _, intent_stored-IsPlaced i a at (w.upsert_intent h i) h u refl refl)

  place_routed-IsOnePlacement :
      (h : History F) → IsUntouched h → IsOnePlacement (place_routed w c meta h)
  unfolding place_routed
  place_routed-IsOnePlacement h u =
      elim (Option-cases (validate_position_side meta c.req.position_side)) [
        | inl e ↦
            rw (place_routed, e)
              (place_active-IsOnePlacement _ _
                (record { unstored = u.unstored; unsent = u.unsent; orderly = u.orderly }))
        | inr (failure, e) ↦ rw (place_routed, e) (untouched-fails failure h u)
      ]

module _ {F : Type 0} ⦃fl : Float64 F⦄ (w : World F) (req : PlaceOrderRequest F) where
  place_known-IsOnePlacement :
      (c : Checked F) (answer : Reply (Meta F)) (h : History F)
      → IsUntouched h
      → IsOnePlacement (place_known w req c answer h)
  unfolding place_known
  place_known-IsOnePlacement c (fail e) h u = untouched-fails e h u
  place_known-IsOnePlacement c (done meta) h u = place_routed-IsOnePlacement w c meta h u

  IsUntouched-start : IsUntouched {F = F} []
  IsUntouched-start = record { unstored = refl; unsent = refl; orderly = λ id client. tt }

  IsUntouched-meta : IsUntouched {F = F} (get_meta req.account_id req.exchange req.market ∷ [])
  IsUntouched-meta = record { unstored = refl; unsent = refl; orderly = λ id client. tt }

  place_contracted-IsOnePlacement :
      (side : Text) (answer : Reply OrderContract)
      → IsOnePlacement (place_contracted w req side answer)
  unfolding place_contracted
  place_contracted-IsOnePlacement side (done contract) =
      place_known-IsOnePlacement (record { req = req; side = side; contract = contract })
        (w.meta [] req.account_id req.exchange req.market) _ IsUntouched-meta
  place_contracted-IsOnePlacement side (fail e) =
      elim (Bool-cases (is_auditable_order_contract_error e)) [
        | inl audited ↦
            rw (place_contracted, audited)
              (record_order_contract_failure-IsOnePlacement w req side e
                (w.meta [] req.account_id req.exchange req.market) _ IsUntouched-meta)
        | inr plain ↦ rw (place_contracted, plain) (untouched-fails e [] IsUntouched-start)
      ]

  place_sided-IsOnePlacement : (answer : Reply Text) → IsOnePlacement (place_sided w req answer)
  unfolding place_sided
  place_sided-IsOnePlacement (fail e) = untouched-fails e [] IsUntouched-start
  place_sided-IsOnePlacement (done side) = place_contracted-IsOnePlacement side _

  -- Whatever the collaborators answer, the calls of PlaceOrder are those of one orderly placement,
  -- and it answers with what was stored last, or that recovery failed, or with an error if no order
  -- was sent or the exchange named none.
  pub place_order-IsOnePlacement : IsOnePlacement (place_order w req)
  unfolding place_order
  place_order-IsOnePlacement = elim (Option-cases (check_request req)) [
    | inl e ↦ rw (place_order, e) (place_sided-IsOnePlacement _)
    | inr (failure, e) ↦ rw (place_order, e) (untouched-fails failure [] IsUntouched-start)
  ]
