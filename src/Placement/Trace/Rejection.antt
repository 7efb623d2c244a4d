-- ===== src/Placement/Trace/Rejection.antt =====
-- A rejection by the gate keeps the calls of a placement orderly, and so does the stage that the
-- decision of the gate begins.
use core_service.Prelude.{◌≡◌, ◌⊎◌, refl, inl, inr, Option, none, some, [], ◌∷◌, Option-cases}
use core_service.Text.{Text}
use core_service.Float.{Float64}
use core_service.Lifecycle.Events.{Time}
use core_service.Risk.Types.{DecisionStatus, allow, reject, Decision}
use core_service.Placement.Model.{Meta, OrderIntent, OrderAttempt}
use core_service.Placement.World.{
  upsert_order_intent, finalize_order_attempt, finalize_risk_rejected_attempt, execute, History,
  World, Outcome,
}
use core_service.Placement.Request.{Checked, order_request}
use core_service.Placement.Review.{
  rejected_attempt, rejected_intent, reviewed_attempt, finalize_rejected_attempt,
}
use core_service.Placement.Place.{rejection_stored, place_rejected, place_decided}
use core_service.Placement.Trace.{
  stored_as, stored, sent, IsPending, IsCleared, IsOf, IsOrderly, IsPlaced,
}
use core_service.Placement.Trace.Recovery.{answered-IsPlaced}
use core_service.Placement.Trace.Execution.{pending-IsOpen, place_executed-IsPlaced}

module _ {F : Type 0} (id client : Text) where
  -- The rejected attempt is stored, unless there is an error, and nothing was sent.
  record IsFinalized (a : OrderAttempt F) (o : Outcome F (Option Text)) : Type 0 where
    pub orderly : IsOrderly id client o.calls
    pub unsent : sent o.calls ≡ none
    pub kept : o.reply ≡ none → stored o.calls ≡ stored_as a none []

  finalizer-kept :
      (i : OrderIntent F) (a : OrderAttempt F) (e : Option Text) (h : History F)
      → e ≡ none
      → stored (finalize_risk_rejected_attempt i a e ∷ h) ≡ stored_as a none []
  finalizer-kept i a none h done = refl
  finalizer-kept i a (some text) h done = cc

  write-kept :
      (a : OrderAttempt F) (e : Option Text) (h : History F)
      → e ≡ none
      → stored (finalize_order_attempt a none [] e ∷ h) ≡ stored_as a none []
  write-kept a none h done = refl
  write-kept a (some text) h done = cc

  finalize_rejected_attempt-IsFinalized :
      (w : World F) (i : OrderIntent F) (a : OrderAttempt F) (h : History F)
      → IsOf id client a
      → IsPending (stored h)
      → sent h ≡ none
      → IsOrderly id client h
      → IsFinalized a (finalize_rejected_attempt w i a h)
  unfolding finalize_rejected_attempt
  finalize_rejected_attempt-IsFinalized w i a h named waiting unsent orderly =
      elim (Option-cases w.finalize_rejected) [
        | inr (finalizer, e) ↦ rw e (record {
          orderly = (named, waiting, unsent, orderly);
          unsent = unsent;
          kept = finalizer-kept i a (finalizer h i a) h;
        })
        | inl missing ↦ rw missing (elim (Option-cases (w.upsert_intent h i)) [
          | inr (text, e) ↦
              rw e (record { orderly = (unsent, orderly); unsent = unsent; kept = λ done. cc })
          | inl e ↦ rw e (
              let h' = upsert_order_intent i (w.upsert_intent h i) ∷ h in
              record {
                orderly = (named, pending-IsOpen (stored h) waiting, (unsent, orderly));
                unsent = unsent;
                kept = write-kept a (w.finalize h' a none []) h';
              })
        ])
      ]

module _ {F : Type 0} ⦃fl : Float64 F⦄ (w : World F) (c : Checked F) (meta : Meta F)
    (id client : Text) where
  rejection_stored-IsPlaced :
      (a : OrderAttempt F) (o : Outcome F (Option Text))
      → IsOf id client a
      → IsFinalized id client a o
      → IsPlaced id client (rejection_stored w c meta a o)
  unfolding rejection_stored
  rejection_stored-IsPlaced a o named final = elim (Option-cases o.reply) [
    | inl e ↦
        rw e (answered-IsPlaced w id client a none [] o.calls named (final.kept e) final.orderly)
    | inr (text, e) ↦ rw e (record { orderly = final.orderly; answers = rw final.unsent tt })
  ]

  place_rejected-IsPlaced :
      (i : OrderIntent F) (a : OrderAttempt F) (decision : Decision) (h : History F)
      → IsOf id client a
      → IsPending (stored h)
      → sent h ≡ none
      → IsOrderly id client h
      → IsPlaced id client (place_rejected w c meta i a decision h)
  unfolding place_rejected rejected_attempt
  place_rejected-IsPlaced i a decision h named waiting unsent orderly =
      let a' = rejected_attempt a decision (w.now h) in
      rejection_stored-IsPlaced a' _ named (
        finalize_rejected_attempt-IsFinalized id client w (rejected_intent i a' decision) a' h named
          waiting unsent orderly)

  DecisionStatus-cases : (s : DecisionStatus) → (s ≡ allow) ⊎ (s ≡ reject)
  DecisionStatus-cases allow = inl refl
  DecisionStatus-cases reject = inr refl

  -- An allowed order is sent only where the gate has cleared it.
  pub place_decided-IsPlaced :
      (i : OrderIntent F) (a : OrderAttempt F) (at : Time) (decision : Decision) (h : History F)
      → IsOf id client a
      → IsPending (stored h)
      → sent h ≡ none
      → IsOrderly id client h
      → (decision.status ≡ allow → IsCleared h)
      → IsPlaced id client (place_decided w c meta i a at decision h)
  unfolding place_decided order_request reviewed_attempt
  place_decided-IsPlaced i a at decision h named waiting unsent orderly cleared =
      elim (DecisionStatus-cases decision.status) [
        | inr e ↦
            let rejecting = record decision { status = reject } in
            rw e (
              place_rejected-IsPlaced i (reviewed_attempt a rejecting) rejecting h named waiting
                unsent orderly)
        | inl e ↦
            let a' = reviewed_attempt a (record decision { status = allow }) in
            let r = order_request meta c a in
            rw e (
              place_executed-IsPlaced w c meta id client a' at (w.executes h r meta)
                (execute r meta (w.executes h r meta) ∷ h) named refl
                (pending-IsOpen (stored h) waiting) (named.1, unsent, cleared e, orderly))
      ]
