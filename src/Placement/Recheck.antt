-- ===== src/Placement/Recheck.antt =====
-- internal/order/service/grpc.go: ResolveOrderAttempt, which answers about a stored attempt.
pub mod Final
use core_service.Prelude.{
  Bool, true, false, ◌&&◌, Option, none, some, List, [], ◌∷◌, ◌++◌, if◌then◌else◌, Result, ok, err,
}
use core_service.Prelude.Int.{pos, eqb_ℤ}
use core_service.Text.{codes, is_empty, trim_space}
use core_service.Float.{Float64}
use core_service.Placement.Model.{
  AttemptStatus, accepted, failed, recovered, risk_rejected, Reply, done, fail, Meta, OrderAttempt,
  Order, OrderFill, PlaceOrderResponse, ResolveOrderAttemptRequest,
}
use core_service.Placement.World.{
  Lookup, found, absent, unanswered, get_meta, find_order_attempt, find_order_by_attempt,
  list_order_fills_by_attempt, History, World, Outcome,
}
use core_service.Placement.Contract.{invalid}
use core_service.Placement.Answer.{internal_failure, outcome, build_place_order_response}
use core_service.Placement.Resolve.{resolve_attempt}

unfoldable pub is_settled : AttemptStatus → Bool
is_settled failed = true
is_settled accepted = true
is_settled recovered = true
is_settled risk_rejected = true
is_settled _ = false

unfoldable pub names_nothing : ResolveOrderAttemptRequest → Bool
names_nothing req =
    is_empty (trim_space req.intent_id)
    && (is_empty (trim_space req.attempt_id) && is_empty (trim_space req.client_order_id))

module _ {F : Type 0} ⦃fl : Float64 F⦄ (w : World F) where
  -- The stored order and fills of an attempt; an error of a lookup is only logged.
  unfoldable pub loaded_order : Lookup (Order F) → Option (Order F)
  loaded_order (found order) = some order
  loaded_order absent = none
  loaded_order (unanswered text) = none

  unfoldable pub loaded_fills : Result (List (OrderFill F)) → List (OrderFill F)
  loaded_fills (ok fills) = fills
  loaded_fills (err text) = []

  unfoldable pub resolve_settled :
      OrderAttempt F → History F → Outcome F (Reply (PlaceOrderResponse F))
  unfolding loaded_order loaded_fills build_place_order_response
  resolve_settled attempt calls =
      let asked = find_order_by_attempt attempt.attempt_id ∷ calls in
      let order = loaded_order (w.find_order calls attempt.attempt_id) in
      let fills = loaded_fills (w.list_fills asked attempt.attempt_id) in
      outcome (done (build_place_order_response attempt order fills))
        (list_order_fills_by_attempt attempt.attempt_id ∷ asked)

  unfoldable pub resolve_open :
      OrderAttempt F → Reply (Meta F) → History F → Outcome F (Reply (PlaceOrderResponse F))
  unfolding resolve_attempt
  resolve_open attempt (fail e) calls = outcome (fail e) calls
  resolve_open attempt (done meta) calls =
      resolve_attempt w meta attempt.strategy_id attempt.session_id attempt.market attempt calls

  -- The attempt that the repository found.
  unfoldable pub resolve_known :
      ResolveOrderAttemptRequest
      → Lookup (OrderAttempt F)
      → History F
      → Outcome F (Reply (PlaceOrderResponse F))
  unfolding resolve_settled resolve_open is_settled
  resolve_known req absent calls =
      outcome
        (done (record {
          intent_id = req.intent_id;
          attempt_id = [];
          attempt_status = failed;
          error_message = codes "attempt not found; no local execution record exists";
          client_order_id = req.client_order_id;
          order = none;
          fill_deltas = [];
        }))
        calls
  resolve_known req (unanswered text) calls =
      outcome (fail (internal_failure (codes "find order attempt: " ++ text))) calls
  resolve_known req (found attempt) calls =
      if is_settled attempt.status
      then resolve_settled attempt calls
      else resolve_open attempt (w.meta calls req.account_id attempt.exchange attempt.market)
          (get_meta req.account_id attempt.exchange attempt.market ∷ calls)

  unfoldable pub resolve_order_attempt :
      ResolveOrderAttemptRequest → Outcome F (Reply (PlaceOrderResponse F))
  unfolding resolve_known names_nothing
  resolve_order_attempt req =
      if eqb_ℤ req.account_id (pos 0)
      then outcome (fail (invalid (codes "account_id is required"))) []
      else if names_nothing req
      then outcome (fail (invalid (codes "intent_id, attempt_id, or client_order_id is required")))
          []
      else resolve_known req
          (w.find_attempt [] req.account_id req.intent_id req.attempt_id req.client_order_id)
          (find_order_attempt req.account_id req.intent_id req.attempt_id req.client_order_id ∷ [])
