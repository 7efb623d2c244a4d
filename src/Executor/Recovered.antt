-- ===== src/Executor/Recovered.antt =====
-- internal/order/executor/adapter_router.go under resolveAttempt: the trades of an attempt that is
-- answered as recovered.
use core_service.Prelude.{
  ℕ, suc, ◌≡◌, ◌≢◌, arith, refl, sym, ◌∙◌, ap, inl, inr, true, false, Option, none, some, List, [],
  ◌∷◌, map, Bool-cases,
}
use mathlib.Core.Path.{subst}
use core_service.Prelude.Int.{ℤ}
use core_service.Text.{Text, is_empty, trim_space}
use core_service.Float.{Float64}
use core_service.Lifecycle.Events.{FillDelta, Time}
use core_service.Placement.Model.{
  recovering, recovered, failed, Reply, done, fail, Meta, OrderAttempt, Order, OrderFill,
  PlaceOrderResponse,
}
use core_service.Placement.World.{
  RecoveryRequest, FillResult, OrderResult, Lookup, found, absent, unanswered, resolve, History,
  World,
}
use core_service.Placement.Execution.{
  apply_recovery_tracking, executed_fill, executed_fills, executed_order, build_persisted_execution,
  recovery_status_for_execution,
}
use core_service.Placement.Answer.{
  build_place_order_response, build_recovery_failed_response, settled, absent_attempt, finalized,
  answered,
}
use core_service.Placement.Resolve.{
  confirmed_absent, resolve_absent, resolve_unanswered, stored_execution, resolve_found,
  resolve_answered, recovery_request, resolve_attempt,
}
use core_service.Executor.Adapter.{AdapterRouter}
use core_service.Executor.Resolve.{adapter_resolve}
use core_service.Executor.Handed.{fills_of-qty}
use core_service.Executor.Accounted.{AddUp, IsRead, IsSafeRead, adapter_resolve-IsSafeRead}

true-ne-false : true ≢ false
true-ne-false e = cc

module _ {F : Type 0} ⦃fl : Float64 F⦄ where
  -- The trades that the route's exchange answered for an attempt's order, and what it stated as
  -- executed.
  pub record IsReadFor (router : AdapterRouter F) (meta : Meta F) (a : OrderAttempt F)
      (executed : F) (trades : List (FillDelta F)) : Type 0 where
    pub request : RecoveryRequest
    pub asked :
        (request.account_id ≡ a.account_id)
        × (request.client_order_id ≡ a.client_order_id)
        × (request.exchange_order_id ≡ a.exchange_order_id)
    pub read : IsRead router request meta executed trades

  -- The response has the order, and one fill for each of the trades that the exchange answered for
  -- the attempt, which add up to what the order states as executed.
  pub record HasTrades (router : AdapterRouter F) (meta : Meta F) (a : OrderAttempt F)
      (response : PlaceOrderResponse F) : Type 0 where
    pub order : Order F
    pub trades : List (FillDelta F)
    pub stored : response.order ≡ some order
    pub filled : map (λ f. f.qty) response.fill_deltas ≡ map (λ t. t.qty) trades
    pub add_up : AddUp order.executed_qty trades
    pub read : IsReadFor router meta a order.executed_qty trades

  applied-executed_qty :
      (o : Order F) (result : OrderResult F) (now : Time)
      → (apply_recovery_tracking o result now).executed_qty ≡ o.executed_qty
  unfolding apply_recovery_tracking
  applied-executed_qty o result now =
      elim (Bool-cases (is_empty (recovery_status_for_execution result))) [
        | inl e ↦ rw (apply_recovery_tracking, e) refl
        | inr e ↦ rw (apply_recovery_tracking, e) refl
      ]

  settled-recovered :
      (a : OrderAttempt F) (o : Order F) (result : OrderResult F) (now : Time)
      → (settled recovered a o result now).status ≡ recovered
      → result.fill_pending ≡ false
  unfolding settled
  settled-recovered a o result now status = elim (Bool-cases result.fill_pending) [
    | inl e ↦ ground arith
    | inr e ↦ e
  ]

module _ {F : Type 0} ⦃fl : Float64 F⦄ (w : World F) (router : AdapterRouter F) (meta : Meta F)
    (asked : OrderAttempt F) where
  -- A response that says that the attempt has recovered has its trades.
  abbrev pub IsComplete : Reply (PlaceOrderResponse F) → Type 0
  IsComplete (fail e) = Unit
  IsComplete (done response) =
      response.attempt_status ≡ recovered → HasTrades router meta asked response

  confirmed_absent-IsComplete :
      (a : OrderAttempt F) (e : Option Text) (h : History F)
      → a.status ≡ failed
      → IsComplete (confirmed_absent w a e h).reply
  unfolding confirmed_absent answered build_place_order_response build_recovery_failed_response
  confirmed_absent-IsComplete a none h lost = λ status. cc
  confirmed_absent-IsComplete a (some text) h lost = λ status. cc

  resolve_absent-IsComplete :
      (a : OrderAttempt F) (h : History F) → IsComplete (resolve_absent w a h).reply
  unfolding resolve_absent absent_attempt
  resolve_absent-IsComplete a h =
      let a' = absent_attempt a (w.now h) in
      confirmed_absent-IsComplete a' (w.finalize h a' none []) (finalized w a' none [] h) refl

  -- What is stored of an execution, with the fills, if it is complete.
  abbrev pub HasFills : Order F → List (OrderFill F) → Type 0
  HasFills o fills =
      (trades : List (FillDelta F)) × (map (λ f. f.qty) fills ≡ map (λ t. t.qty) trades)
      × AddUp o.executed_qty trades
      × IsReadFor router meta asked o.executed_qty trades

  stored_execution-IsComplete :
      (a : OrderAttempt F) (o : Order F) (fills : List (OrderFill F)) (e : Option Text)
      (h : History F)
      → (a.status ≡ recovered → HasFills o fills)
      → IsComplete (stored_execution w a o fills e h).reply
  unfolding stored_execution answered build_place_order_response build_recovery_failed_response
  stored_execution-IsComplete a o fills none h known = λ status.
      let (trades, filled, add_up, read) = known status in
      record {
        order = o;
        trades = trades;
        stored = refl;
        filled = filled;
        add_up = add_up;
        read = read;
      }
  stored_execution-IsComplete a o fills (some text) h known = λ status. cc

module _ {F : Type 0} ⦃fl : Float64 F⦄ (w : World F) (meta : Meta F) (strategy_id : ℤ)
    (session_id : Text) (market : ℤ) where
  executed_fills-qty :
      (a : OrderAttempt F) (result : OrderResult F) (new_id : ℕ → Text) (now : Time)
      (local_id : Text) (n : ℕ) (fills : List (FillResult F))
      → map
          (λ f. f.qty)
          (executed_fills meta a strategy_id session_id market result new_id now local_id n fills)
        ≡ map (λ f. f.qty) fills
  unfolding executed_fills executed_fill
  executed_fills-qty a result new_id now local_id n [] = refl
  executed_fills-qty a result new_id now local_id n (fill ∷ fills) =
      ap (λ qs. fill.qty ∷ qs) (executed_fills-qty a result new_id now local_id (suc n) fills)

  module _ (router : AdapterRouter F) (asked : OrderAttempt F) (req : RecoveryRequest)
      (names : (req.account_id ≡ asked.account_id)
        × (req.client_order_id ≡ asked.client_order_id)
        × (req.exchange_order_id ≡ asked.exchange_order_id)) where
    resolve_found-IsComplete :
        (a : OrderAttempt F) (result : OrderResult F) (h : History F)
        → IsSafeRead router req meta result
        → IsComplete w router meta asked
            (resolve_found w meta strategy_id session_id market a result h).reply
    unfolding resolve_found build_persisted_execution executed_order
    resolve_found-IsComplete a result h safe =
        let now = w.now h in
        let (o, fills) =
          build_persisted_execution meta a strategy_id session_id market result (w.new_id h) now
            now in
        let a' = settled recovered a o result now in
        stored_execution-IsComplete w router meta asked a' o fills (w.finalize h a' (some o) fills)
          _
          (λ status. elim safe [
            | inl (pending, none_filled) ↦
                absurd (true-ne-false (sym pending ∙ settled-recovered a o result now status))
            | inr (complete, trades, same, add_up, read) ↦ (
              trades,
              executed_fills-qty a result (w.new_id h) _ _ 1 result.fills
                  ∙ ap (λ fs. map (λ f. f.qty) fs) same
                  ∙ fills_of-qty trades,
              subst (λ q. AddUp q trades) (sym (applied-executed_qty _ result _)) add_up,
              record {
                request = req;
                asked = names;
                read =
                    subst (λ q. IsRead router req meta q trades)
                      (sym (applied-executed_qty _ result _)) read;
              },
            )
          ])

    resolve_answered-IsComplete :
        (a : OrderAttempt F) (answer : Lookup (OrderResult F)) (h : History F)
        → ((result : OrderResult F) → answer ≡ found result → IsSafeRead router req meta result)
        → IsComplete w router meta asked
            (resolve_answered w meta strategy_id session_id market a answer h).reply
    unfolding resolve_answered resolve_unanswered build_recovery_failed_response
        build_place_order_response
    resolve_answered-IsComplete a absent h safe = resolve_absent-IsComplete w router meta asked a h
    resolve_answered-IsComplete a (unanswered text) h safe = λ status. cc
    resolve_answered-IsComplete a (found result) h safe =
        elim (Bool-cases (is_empty (trim_space result.exchange_order_id))) [
          | inl blank ↦
              rw (resolve_answered, blank) (resolve_absent-IsComplete w router meta asked a h)
          | inr given ↦
              rw (resolve_answered, given) (resolve_found-IsComplete a result h (safe result refl))
        ]

  -- Where the adapter router answers the recovery queries, an attempt that is answered as recovered
  -- has its order; the exchange of the account's route was asked for the attempt's order and for its
  -- trades; the response has one fill for each trade that it answered, of the same quantity; the order
  -- states the executed quantity that it answered; and the trades add up to that, up to 1e-12, unless
  -- it is not above zero.
  pub resolve_attempt-HasTrades :
      (router : AdapterRouter F)
      → ((h : History F) (req : RecoveryRequest) (m : Meta F)
          → w.resolves h req m ≡ adapter_resolve router req m)
      → (a : OrderAttempt F) (h : History F) (response : PlaceOrderResponse F)
      → (resolve_attempt w meta strategy_id session_id market a h).reply ≡ done response
      → response.attempt_status ≡ recovered
      → HasTrades router meta a response
  unfolding resolve_attempt
  resolve_attempt-HasTrades router routed a h response replied status =
      let a' = record a { status = recovering; time = w.now h } in
      let req = recovery_request w meta strategy_id session_id market a in
      let marked = finalized w a' none [] h in
      let answer = w.resolves marked req meta in
      subst (IsComplete w router meta a) replied
        (resolve_answered-IsComplete router a req (refl, refl, refl) a' answer
          (resolve req meta answer ∷ marked)
          (λ result known.
            adapter_resolve-IsSafeRead router req meta result
              (sym (routed marked req meta) ∙ known)))
        status
