-- ===== src/Placement/Trace/Recovery.antt =====
-- Recovery keeps the calls of an attempt orderly, and answers with what it has stored.
use core_service.Prelude.{
  ℕ, suc, ◌≡◌, ◌≢◌, refl, sym, ◌∙◌, inl, inr, Option, none, some, List, [], ◌∷◌, arith, Bool-cases,
}
use core_service.Prelude.Int.{ℤ}
use core_service.Text.{Text, is_empty, trim_space}
use core_service.Float.{Float64}
use core_service.Lifecycle.Events.{Time}
use core_service.Placement.Model.{
  AttemptStatus, done, recovering, recovered, Meta, OrderAttempt, Order, OrderFill,
}
use core_service.Placement.World.{
  FillResult, OrderResult, Lookup, found, absent, unanswered, finalize_order_attempt, History,
  World,
}
use core_service.Placement.Execution.{executed_fill, executed_fills, build_persisted_execution}
use core_service.Placement.Answer.{
  build_place_order_response, outcome, build_recovery_failed_response, settled, absent_attempt,
  unanswered_attempt, finalized, answered,
}
use core_service.Placement.Resolve.{
  confirmed_absent, resolve_absent, resolve_unanswered, stored_execution, resolve_found,
  resolve_answered, resolve_attempt,
}
use core_service.Placement.Recheck.{is_settled}
use core_service.Placement.Trace.{stored_as, stored, sent, IsOpen, IsOf, IsOrderly, IsPlaced}
use core_service.Placement.Trace.Quiet.{publish-IsQuiet, AreOf, emit_lifecycle_events-IsQuiet}

module _ {F : Type 0} ⦃fl : Float64 F⦄ (w : World F) (id client : Text) where
  pub answered-IsPlaced :
      (a : OrderAttempt F) (o : Option (Order F)) (fills : List (OrderFill F)) (h : History F)
      → IsOf id client a
      → stored h ≡ stored_as a o fills
      → IsOrderly id client h
      → IsPlaced id client (answered w a o fills h)
  unfolding answered build_place_order_response
  answered-IsPlaced a o fills h named is_stored orderly =
      let quiet = publish-IsQuiet w id client a o h orderly in
      record {
        orderly = quiet.orderly;
        answers = (named.0, named.1, inr (_, quiet.same_stored ∙ is_stored, refl));
      }

  -- RECOVERY_FAILED, which is what a failed write is answered with.
  failure-IsPlaced :
      (a : OrderAttempt F) (text : Text) (h : History F)
      → IsOf id client a
      → IsOrderly id client h
      → IsPlaced id client (outcome (done (build_recovery_failed_response a text)) h)
  unfolding build_recovery_failed_response build_place_order_response
  failure-IsPlaced a text h named orderly = record {
    orderly = orderly;
    answers = (named.0, named.1, inl (refl, refl, refl));
  }

  confirmed_absent-IsPlaced :
      (a : OrderAttempt F) (e : Option Text) (h : History F)
      → IsOf id client a
      → IsOpen (stored h)
      → IsOrderly id client h
      → IsPlaced id client (confirmed_absent w a e (finalize_order_attempt a none [] e ∷ h))
  unfolding confirmed_absent
  confirmed_absent-IsPlaced a none h named undecided orderly =
      answered-IsPlaced a none [] (finalize_order_attempt a none [] none ∷ h) named refl
        (named, undecided, orderly)
  confirmed_absent-IsPlaced a (some text) h named undecided orderly =
      failure-IsPlaced a _ _ named (named, undecided, orderly)

  resolve_absent-IsPlaced :
      (a : OrderAttempt F) (h : History F)
      → IsOf id client a
      → IsOpen (stored h)
      → IsOrderly id client h
      → IsPlaced id client (resolve_absent w a h)
  unfolding resolve_absent absent_attempt
  resolve_absent-IsPlaced a h named undecided orderly =
      let a' = absent_attempt a (w.now h) in
      confirmed_absent-IsPlaced a' (w.finalize h a' none []) h named undecided orderly

  resolve_unanswered-IsPlaced :
      (a : OrderAttempt F) (text : Text) (h : History F)
      → IsOf id client a
      → IsOpen (stored h)
      → IsOrderly id client h
      → IsPlaced id client (resolve_unanswered w a text h)
  unfolding resolve_unanswered unanswered_attempt
  resolve_unanswered-IsPlaced a text h named undecided orderly =
      let a' = unanswered_attempt a text (w.now h) in
      let quiet =
        publish-IsQuiet w id client a' none (finalized w a' none [] h)
          (named, undecided, orderly) in
      failure-IsPlaced a' text _ named quiet.orderly

  stored_execution-IsPlaced :
      (a : OrderAttempt F) (o : Order F) (fills : List (OrderFill F)) (e : Option Text)
      (h : History F)
      → IsOf id client a
      → AreOf id fills
      → sent h ≢ none
      → IsOpen (stored h)
      → IsOrderly id client h
      → IsPlaced id client
          (stored_execution w a o fills e (finalize_order_attempt a (some o) fills e ∷ h))
  unfolding stored_execution
  stored_execution-IsPlaced a o fills none h named filled was_sent undecided orderly =
      let kept = finalize_order_attempt a (some o) fills none ∷ h in
      let quiet =
        emit_lifecycle_events-IsQuiet w id client o fills kept filled was_sent
          (named, undecided, orderly) in
      answered-IsPlaced a (some o) fills _ named quiet.same_stored quiet.orderly
  stored_execution-IsPlaced a o fills (some text) h named filled was_sent undecided orderly =
      failure-IsPlaced a _ _ named (named, undecided, orderly)

module _ {F : Type 0} ⦃fl : Float64 F⦄ (w : World F) (meta : Meta F) (strategy_id : ℤ)
    (session_id : Text) (market : ℤ) where
  pub executed_fills-AreOf :
      (a : OrderAttempt F) (result : OrderResult F) (new_id : ℕ → Text) (now : Time)
      (local_id : Text) (n : ℕ) (fills : List (FillResult F))
      → AreOf a.attempt_id
          (executed_fills meta a strategy_id session_id market result new_id now local_id n fills)
  unfolding executed_fills executed_fill
  executed_fills-AreOf a result new_id now local_id n [] = tt
  executed_fills-AreOf a result new_id now local_id n (fill ∷ fills) =
      (refl, executed_fills-AreOf a result new_id now local_id (suc n) fills)

  pub settled-IsOf :
      (id client : Text) (status : AttemptStatus) (a : OrderAttempt F) (o : Order F)
      (result : OrderResult F) (now : Time)
      → IsOf id client a
      → IsOf id client (settled status a o result now)
  unfolding settled
  settled-IsOf id client status a o result now named = elim (Bool-cases result.fill_pending) [
    | inl e ↦ ground arith
    | inr e ↦ ground arith
  ]

  resolve_found-IsPlaced :
      (id client : Text) (a : OrderAttempt F) (result : OrderResult F) (h : History F)
      → IsOf id client a
      → sent h ≢ none
      → IsOpen (stored h)
      → IsOrderly id client h
      → IsPlaced id client (resolve_found w meta strategy_id session_id market a result h)
  unfolding resolve_found build_persisted_execution
  resolve_found-IsPlaced id client a result h named was_sent undecided orderly =
      let now = w.now h in
      let (o, fills) =
        build_persisted_execution meta a strategy_id session_id market result (w.new_id h) now
          now in
      let a' = settled recovered a o result now in
      stored_execution-IsPlaced w id client a' o fills (w.finalize h a' (some o) fills) h
        (settled-IsOf id client recovered a o result now named)
        (rw (sym named.0) (executed_fills-AreOf a result (w.new_id h) _ _ 1 result.fills)) was_sent
        undecided orderly

  resolve_answered-IsPlaced :
      (id client : Text) (a : OrderAttempt F) (answer : Lookup (OrderResult F)) (h : History F)
      → IsOf id client a
      → sent h ≢ none
      → IsOpen (stored h)
      → IsOrderly id client h
      → IsPlaced id client (resolve_answered w meta strategy_id session_id market a answer h)
  unfolding resolve_answered
  resolve_answered-IsPlaced id client a absent h named was_sent undecided orderly =
      resolve_absent-IsPlaced w id client a h named undecided orderly
  resolve_answered-IsPlaced id client a (unanswered text) h named was_sent undecided orderly =
      resolve_unanswered-IsPlaced w id client a text h named undecided orderly
  resolve_answered-IsPlaced id client a (found result) h named was_sent undecided orderly =
      elim (Bool-cases (is_empty (trim_space result.exchange_order_id))) [
        | inl blank ↦ rw blank (resolve_absent-IsPlaced w id client a h named undecided orderly)
        | inr given ↦
            rw given (resolve_found-IsPlaced id client a result h named was_sent undecided orderly)
      ]

  -- Whether the write of RECOVERING fails or not, the attempt stays open.
  marked-IsOpen :
      (a : OrderAttempt F) (e : Option Text) (h : History F)
      → a.status ≡ recovering
      → IsOpen (stored h)
      → IsOpen (stored (finalize_order_attempt a none [] e ∷ h))
  unfolding is_settled
  marked-IsOpen a none h marked undecided = rw marked refl
  marked-IsOpen a (some text) h marked undecided = undecided

  pub resolve_attempt-IsPlaced :
      (id client : Text) (a : OrderAttempt F) (h : History F)
      → IsOf id client a
      → sent h ≢ none
      → IsOpen (stored h)
      → IsOrderly id client h
      → IsPlaced id client (resolve_attempt w meta strategy_id session_id market a h)
  unfolding resolve_attempt
  resolve_attempt-IsPlaced id client a h named was_sent undecided orderly =
      let a' = record a { status = recovering; time = w.now h } in
      let still = marked-IsOpen a' (w.finalize h a' none []) h refl undecided in
      resolve_answered-IsPlaced id client a' _ _ named was_sent still
        (named.1, was_sent, still, (named, undecided, orderly))
