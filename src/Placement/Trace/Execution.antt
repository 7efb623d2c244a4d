-- ===== src/Placement/Trace/Execution.antt =====
-- What follows on the review keeps the calls of a placement orderly, and answers with what it has
-- stored.
use core_service.Prelude.{
  ◌≡◌, ◌≢◌, refl, sym, inl, inr, true, Option, none, some, List, [], ◌∷◌, Bool-cases, Result, ok,
  err,
}
use core_service.Text.{Text, is_empty, trim_space}
use core_service.Float.{Float64}
use core_service.Lifecycle.Events.{Time}
use core_service.Placement.Model.{accepted, unknown, Meta, OrderAttempt, Order, OrderFill}
use core_service.Placement.World.{OrderResult, finalize_order_attempt, History, World}
use core_service.Placement.Execution.{build_persisted_execution}
use core_service.Placement.Answer.{settled}
use core_service.Placement.Recheck.{is_settled}
use core_service.Placement.Request.{Checked}
use core_service.Placement.Review.{unknown_attempt, refused_attempt, unstored_attempt}
use core_service.Placement.Place.{
  accepted_stored, place_accepted, refusal_stored, place_refused, place_executed,
}
use core_service.Placement.Trace.{
  Stored, stored, sent, IsOpen, IsPending, IsOf, IsOrderly, IsPlaced,
}
use core_service.Placement.Trace.Quiet.{AreOf, emit_lifecycle_events-IsQuiet}
use core_service.Placement.Trace.Recovery.{
  answered-IsPlaced, executed_fills-AreOf, settled-IsOf, resolve_attempt-IsPlaced,
}

-- A text without a byte is the empty one.
is_empty→eq : (s : Text) → is_empty s ≡ true → s ≡ []
is_empty→eq [] h = refl
is_empty→eq (c ∷ s) h = cc

module _ {F : Type 0} where
  pub pending-IsOpen : (s : Option (Stored F)) → IsPending s → IsOpen s
  unfolding is_settled
  pending-IsOpen none h = h
  pending-IsOpen (some s) h = rw h refl

  -- Whether the write of UNKNOWN fails or not, the attempt stays open.
  unknown-IsOpen :
      (a : OrderAttempt F) (e : Option Text) (h : History F)
      → a.status ≡ unknown
      → IsOpen (stored h)
      → IsOpen (stored (finalize_order_attempt a none [] e ∷ h))
  unfolding is_settled
  unknown-IsOpen a none h marked undecided = rw marked refl
  unknown-IsOpen a (some text) h marked undecided = undecided

module _ {F : Type 0} ⦃fl : Float64 F⦄ (w : World F) (c : Checked F) (meta : Meta F)
    (id client : Text) where
  accepted_stored-IsPlaced :
      (a : OrderAttempt F) (o : Order F) (fills : List (OrderFill F)) (e : Option Text)
      (h : History F)
      → IsOf id client a
      → AreOf id fills
      → sent h ≢ none
      → IsOpen (stored h)
      → IsOrderly id client h
      → IsPlaced id client
          (accepted_stored w c meta a o fills e (finalize_order_attempt a (some o) fills e ∷ h))
  unfolding accepted_stored unstored_attempt
  accepted_stored-IsPlaced a o fills none h named filled was_sent undecided orderly =
      let kept = finalize_order_attempt a (some o) fills none ∷ h in
      let quiet =
        emit_lifecycle_events-IsQuiet w id client o fills kept filled was_sent
          (named, undecided, orderly) in
      answered-IsPlaced w id client a (some o) fills _ named quiet.same_stored quiet.orderly
  accepted_stored-IsPlaced a o fills (some text) h named filled was_sent undecided orderly =
      let h' = finalize_order_attempt a (some o) fills (some text) ∷ h in
      let a' = unstored_attempt a text (w.now h') in
      let still = unknown-IsOpen a' (w.finalize h' a' none []) h' refl undecided in
      resolve_attempt-IsPlaced w meta c.req.strategy_id c.req.session_id meta.market id client a' _
        named was_sent still (named, undecided, (named, undecided, orderly))

  place_accepted-IsPlaced :
      (a : OrderAttempt F) (result : OrderResult F) (at : Time) (h : History F)
      → IsOf id client a
      → sent h ≢ none
      → IsOpen (stored h)
      → IsOrderly id client h
      → IsPlaced id client (place_accepted w c meta a result at h)
  unfolding place_accepted build_persisted_execution
  place_accepted-IsPlaced a result at h named was_sent undecided orderly =
      let now = w.now h in
      let (o, fills) =
        build_persisted_execution meta a c.req.strategy_id c.req.session_id meta.market result
          (w.new_id h) now at in
      let a' = settled accepted a o result now in
      accepted_stored-IsPlaced a' o fills (w.finalize h a' (some o) fills) h
        (settled-IsOf w meta c.req.strategy_id c.req.session_id meta.market id client accepted a o
          result now named)
        (rw (sym named.0) (
          executed_fills-AreOf w meta c.req.strategy_id c.req.session_id meta.market a result
            (w.new_id h) _ _ 1 result.fills))
        was_sent undecided orderly

  refusal_stored-IsPlaced :
      (a : OrderAttempt F) (result : OrderResult F) (e : Option Text) (h : History F)
      → IsOf id client a
      → sent h ≡ some (ok result)
      → trim_space result.exchange_order_id ≡ []
      → IsOpen (stored h)
      → IsOrderly id client h
      → IsPlaced id client (refusal_stored w c meta a e (finalize_order_attempt a none [] e ∷ h))
  unfolding refusal_stored
  refusal_stored-IsPlaced a result none h named was_sent blank undecided orderly =
      answered-IsPlaced w id client a none [] (finalize_order_attempt a none [] none ∷ h) named refl
        (named, undecided, orderly)
  refusal_stored-IsPlaced a result (some text) h named was_sent blank undecided orderly = record {
    orderly = (named, undecided, orderly);
    answers = rw was_sent blank;
  }

  pub place_executed-IsPlaced :
      (a : OrderAttempt F) (at : Time) (answer : Result (OrderResult F)) (h : History F)
      → IsOf id client a
      → sent h ≡ some answer
      → IsOpen (stored h)
      → IsOrderly id client h
      → IsPlaced id client (place_executed w c meta a at answer h)
  unfolding place_executed unknown_attempt place_refused refused_attempt
  place_executed-IsPlaced a at (err text) h named was_sent undecided orderly =
      let a' = unknown_attempt a text (w.now h) in
      let still = unknown-IsOpen a' (w.finalize h a' none []) h refl undecided in
      resolve_attempt-IsPlaced w meta c.req.strategy_id c.req.session_id meta.market id client a' _
        named (λ e. cc) still (named, undecided, orderly)
  place_executed-IsPlaced a at (ok result) h named was_sent undecided orderly =
      elim (Bool-cases (is_empty (trim_space result.exchange_order_id))) [
        | inl blank ↦
            let a' = refused_attempt a result (w.now h) in
            rw blank (
              refusal_stored-IsPlaced a' result (w.finalize h a' none []) h named was_sent
                (is_empty→eq _ blank) undecided orderly)
        | inr given ↦
            rw given (place_accepted-IsPlaced a result at h named (λ e. cc) undecided orderly)
      ]
