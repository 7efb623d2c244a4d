-- ===== src/Placement/Recheck/Final.antt =====
-- internal/order/service/grpc.go: the calls of ResolveOrderAttempt, and attempts that have ended.
use core_service.Prelude.{
  ◌≡◌, ◌⊎◌, refl, inl, inr, true, Option, none, some, List, [], ◌∷◌, arith, Bool-cases,
  Option-cases,
}
use core_service.Prelude.Int.{ℤ, pos, eqb_ℤ}
use core_service.Text.{Text, is_empty, trim_space}
use core_service.Float.{Float64}
use core_service.Lifecycle.Events.{Event, validate_event_route_facts}
use core_service.Placement.Model.{
  Failure, AttemptStatus, accepted, failed, risk_rejected, recovering, recovered, Reply, done, fail,
  Meta, OrderAttempt, Order, OrderFill, PlaceOrderResponse, ResolveOrderAttemptRequest,
  invalid_argument,
}
use core_service.Placement.World.{
  OrderResult, Lookup, found, absent, unanswered, Call, find_order_attempt, find_order_by_attempt,
  list_order_fills_by_attempt, execute, History, World, get_meta, resolve,
}
use core_service.Placement.Contract.{invalid}
use core_service.Placement.Execution.{
  build_persisted_execution, emit_event, emit_lifecycle_events, placed_event,
}
use core_service.Placement.Notice.{order_notification_class, publish_order_notification}
use core_service.Placement.Answer.{
  absent_attempt, unanswered_attempt, finalized, settled, Handled, failed_with,
  build_place_order_response, answered,
}
use core_service.Placement.Resolve.{
  confirmed_absent, resolve_absent, resolve_unanswered, stored_execution, resolve_found,
  resolve_answered, resolve_attempt, recovery_request,
}
use core_service.Placement.Recheck.{
  is_settled, names_nothing, resolve_settled, resolve_open, resolve_known, resolve_order_attempt,
}

-- The statuses in which an attempt has its last answer.
abbrev pub IsEnded : AttemptStatus → Type 0
IsEnded s = (s ≡ accepted) ⊎ (s ≡ recovered) ⊎ (s ≡ failed) ⊎ (s ≡ risk_rejected)

IsEnded-is_settled : (s : AttemptStatus) → IsEnded s → is_settled s ≡ true
unfolding is_settled
IsEnded-is_settled s h = ground (arith, h)

module _ {F : Type 0} where
  -- No order is handed to the exchange.
  abbrev pub SendsNone : History F → Type 0
  SendsNone [] = Unit
  SendsNone (execute r m answer ∷ cs) = ⊥
  SendsNone (_ ∷ cs) = SendsNone cs

  -- Nothing but lookups of the repository.
  abbrev pub AreLookups : History F → Type 0
  AreLookups [] = Unit
  AreLookups (find_order_attempt account intent attempt client ∷ cs) = AreLookups cs
  AreLookups (find_order_by_attempt attempt ∷ cs) = AreLookups cs
  AreLookups (list_order_fills_by_attempt attempt ∷ cs) = AreLookups cs
  AreLookups _ = ⊥

module _ {F : Type 0} ⦃fl : Float64 F⦄ (w : World F) where
  publish-SendsNone :
      (a : OrderAttempt F) (o : Option (Order F)) (h : History F)
      → SendsNone h
      → SendsNone (publish_order_notification w a o h)
  unfolding publish_order_notification
  publish-SendsNone a o h quiet = elim (Option-cases (order_notification_class a.status)) [
    | inl e ↦ ground arith
    | inr (kind, e) ↦ ground arith
  ]

  emit_event-SendsNone : (e : Event F) (h : History F) → SendsNone h → SendsNone (emit_event w e h)
  unfolding emit_event
  emit_event-SendsNone e h quiet = elim (Option-cases (validate_event_route_facts e)) [
    | inl valid ↦ ground arith
    | inr (text, invalid) ↦ ground arith
  ]

  emit_lifecycle_events-SendsNone :
      (o : Order F) (fills : List (OrderFill F)) (h : History F)
      → SendsNone h
      → SendsNone (emit_lifecycle_events w o fills h)
  unfolding emit_lifecycle_events
  emit_lifecycle_events-SendsNone o [] h quiet = quiet
  emit_lifecycle_events-SendsNone o (fill ∷ fills) h quiet =
      emit_lifecycle_events-SendsNone o fills _ (emit_event-SendsNone (placed_event o fill) h quiet)

  confirmed_absent-SendsNone :
      (a : OrderAttempt F) (e : Option Text) (h : History F)
      → SendsNone h
      → SendsNone (confirmed_absent w a e h).calls
  unfolding confirmed_absent answered
  confirmed_absent-SendsNone a none h quiet = publish-SendsNone a none h quiet
  confirmed_absent-SendsNone a (some text) h quiet = quiet

  resolve_absent-SendsNone :
      (a : OrderAttempt F) (h : History F) → SendsNone h → SendsNone (resolve_absent w a h).calls
  unfolding resolve_absent
  resolve_absent-SendsNone a h quiet =
      let a' = absent_attempt a (w.now h) in
      confirmed_absent-SendsNone a' (w.finalize h a' none []) (finalized w a' none [] h) quiet

  stored_execution-SendsNone :
      (a : OrderAttempt F) (o : Order F) (fills : List (OrderFill F)) (e : Option Text)
      (h : History F)
      → SendsNone h
      → SendsNone (stored_execution w a o fills e h).calls
  unfolding stored_execution answered
  stored_execution-SendsNone a o fills none h quiet =
      publish-SendsNone a (some o) _ (emit_lifecycle_events-SendsNone o fills h quiet)
  stored_execution-SendsNone a o fills (some text) h quiet = quiet

module _ {F : Type 0} ⦃fl : Float64 F⦄ (w : World F) (meta : Meta F) (strategy_id : ℤ)
    (session_id : Text) (market : ℤ) where
  resolve_answered-SendsNone :
      (a : OrderAttempt F) (answer : Lookup (OrderResult F)) (h : History F)
      → SendsNone h
      → SendsNone (resolve_answered w meta strategy_id session_id market a answer h).calls
  unfolding resolve_answered resolve_unanswered resolve_found
  resolve_answered-SendsNone a absent h quiet = resolve_absent-SendsNone w a h quiet
  resolve_answered-SendsNone a (unanswered text) h quiet =
      let a' = unanswered_attempt a text (w.now h) in
      publish-SendsNone w a' none (finalized w a' none [] h) quiet
  resolve_answered-SendsNone a (found result) h quiet =
      elim (Bool-cases (is_empty (trim_space result.exchange_order_id))) [
        | inl blank ↦ rw (resolve_answered, blank) (resolve_absent-SendsNone w a h quiet)
        | inr given ↦
            let now = w.now h in
            let (o, fills) =
              build_persisted_execution meta a strategy_id session_id market result (w.new_id h) now
                now in
            let a' = settled recovered a o result now in
            rw (resolve_answered, given)
              (stored_execution-SendsNone w a' o fills (w.finalize h a' (some o) fills)
                (finalized w a' (some o) fills h) quiet)
      ]

  resolve_attempt-SendsNone :
      (a : OrderAttempt F) (h : History F)
      → SendsNone h
      → SendsNone (resolve_attempt w meta strategy_id session_id market a h).calls
  unfolding resolve_attempt
  resolve_attempt-SendsNone a h quiet =
      let a' = record a { status = recovering; time = w.now h } in
      let req = recovery_request w meta strategy_id session_id market a in
      let marked = finalized w a' none [] h in
      let answer = w.resolves marked req meta in
      resolve_answered-SendsNone a' answer (resolve req meta answer ∷ marked) quiet

module _ {F : Type 0} ⦃fl : Float64 F⦄ (w : World F) (req : ResolveOrderAttemptRequest) where
  resolve_open-SendsNone :
      (a : OrderAttempt F) (meta : Reply (Meta F)) (h : History F)
      → SendsNone h
      → SendsNone (resolve_open w a meta h).calls
  unfolding resolve_open
  resolve_open-SendsNone a (fail e) h quiet = quiet
  resolve_open-SendsNone a (done meta) h quiet =
      resolve_attempt-SendsNone w meta a.strategy_id a.session_id a.market a h quiet

  resolve_known-SendsNone :
      (known : Lookup (OrderAttempt F)) (h : History F)
      → SendsNone h
      → SendsNone (resolve_known w req known h).calls
  unfolding resolve_known resolve_settled
  resolve_known-SendsNone absent h quiet = quiet
  resolve_known-SendsNone (unanswered text) h quiet = quiet
  resolve_known-SendsNone (found a) h quiet = elim (Bool-cases (is_settled a.status)) [
    | inl e ↦ rw (resolve_known, e) quiet
    | inr e ↦
        rw (resolve_known, e)
          (resolve_open-SendsNone a (w.meta h req.account_id a.exchange a.market)
            (get_meta req.account_id a.exchange a.market ∷ h) quiet)
  ]

  -- The attempt that the request asks for.
  abbrev pub lookup_of : Lookup (OrderAttempt F)
  lookup_of = w.find_attempt [] req.account_id req.intent_id req.attempt_id req.client_order_id

  abbrev asked : Call F
  asked = find_order_attempt req.account_id req.intent_id req.attempt_id req.client_order_id

  -- ResolveOrderAttempt never hands an order to the exchange.
  pub resolve_order_attempt-SendsNone : SendsNone (resolve_order_attempt w req).calls
  unfolding resolve_order_attempt
  resolve_order_attempt-SendsNone = elim (Bool-cases (eqb_ℤ req.account_id (pos 0))) [
    | inl nobody ↦ rw (resolve_order_attempt, nobody) tt
    | inr somebody ↦ elim (Bool-cases (names_nothing req)) [
      | inl nothing ↦ rw (resolve_order_attempt, somebody, nothing) tt
      | inr named ↦
          rw (resolve_order_attempt, somebody, named)
            (resolve_known-SendsNone lookup_of (asked ∷ []) tt)
    ]
  ]

  -- The request has no account, or names no attempt.
  abbrev pub IsUnfit : Type 0
  IsUnfit =
      (req.account_id ≡ pos 0)
      ⊎ ((is_empty (trim_space req.intent_id) ≡ true)
          × (is_empty (trim_space req.attempt_id) ≡ true)
          × (is_empty (trim_space req.client_order_id) ≡ true))

  -- The answer about a settled attempt, unless the request names none.
  pub record IsFinal (a : OrderAttempt F) (o : Handled F) : Type 0 where
    pub untouched : AreLookups o.calls
    pub answers :
        ((e : Failure) × (o.reply ≡ fail e) × (e.code ≡ invalid_argument) × IsUnfit)
        ⊎ ((r : PlaceOrderResponse F) × (o.reply ≡ done r)
            × (r.attempt_status ≡ a.status)
            × (r.attempt_id ≡ a.attempt_id))

  invalid-IsFinal :
      (a : OrderAttempt F) (message : Text) → IsUnfit → IsFinal a (failed_with (invalid message) [])
  invalid-IsFinal a message unfit = record {
    untouched = tt;
    answers = inl (invalid message, refl, refl, unfit);
  }

  unnamed-IsUnfit : names_nothing req ≡ true → IsUnfit
  unfolding names_nothing
  unnamed-IsUnfit h = ground arith

  settled-IsFinal :
      (a : OrderAttempt F) (h : History F) → AreLookups h → IsFinal a (resolve_settled w a h)
  unfolding resolve_settled build_place_order_response
  settled-IsFinal a h looked = record { untouched = looked; answers = inr (_, refl, refl, refl) }

  -- If the stored attempt that the request asks for is accepted, recovered, failed or rejected by the
  -- gate, the calls are lookups of the repository only, so nothing is written and the exchange is not
  -- asked; the answer is a response with the attempt's identifier and its stored status, or an
  -- invalid-argument error, which only a request without an account or without any identifier gets.
  pub resolve_order_attempt-IsFinal :
      (a : OrderAttempt F)
      → lookup_of ≡ found a
      → IsEnded a.status
      → IsFinal a (resolve_order_attempt w req)
  unfolding resolve_order_attempt
  resolve_order_attempt-IsFinal a known ended =
      let e = IsEnded-is_settled a.status ended in
      elim (Bool-cases (eqb_ℤ req.account_id (pos 0))) [
        | inl nobody ↦
            rw (resolve_order_attempt, nobody) (invalid-IsFinal a _ (inl (ground (arith, nobody))))
        | inr somebody ↦ elim (Bool-cases (names_nothing req)) [
          | inl nothing ↦
              rw (resolve_order_attempt, somebody, nothing)
                (invalid-IsFinal a _ (unnamed-IsUnfit nothing))
          | inr named ↦
              rw (resolve_order_attempt, somebody, named, known, resolve_known, e)
                (settled-IsFinal a (asked ∷ []) tt)
        ]
      ]
