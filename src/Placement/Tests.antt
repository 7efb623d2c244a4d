-- ===== src/Placement/Tests.antt =====
-- Runs of the placement, and the theorems at concrete inputs.
use core_service.Prelude.{inl, ℕ, ◌≡◌, ◌≢◌, ◌≤◌, ◌↔◌, refl, Option, none, some, [], ok, err, length}
use core_service.Prelude.Int.{ℤ, pos, negsuc}
use core_service.Text.{codes, one_of, text_eq, normal, to_upper, trim_space, upper_byte, equal_fold}
use core_service.Float.Fixed.{fixed}
use core_service.Lifecycle.Events.{rest_recovery_source}
use core_service.Lifecycle.Identity.{event_identity_key}
use core_service.Lifecycle.Scanner.Orders.{fill_event, timed_fill}
use core_service.Placement.Model.{AttemptStatus, accepted, failed, done, fail, PlaceOrderResponse}
use core_service.Placement.Answer.{Handled}
use core_service.Placement.Contract.{non_empty, normalize_order_contract, normalize_page}
use core_service.Placement.Contract.Page.{IsPage, normalize_page_lem}
use core_service.Placement.Contract.Reviewed.{IsKept, contract-IsKept}
use core_service.Placement.ClientId.{
  id_part, build_client_order_id, length-client_order_id, client_order_id_iff,
}
use core_service.Placement.Execution.{executed_fill, placed_event}
use core_service.Placement.Execution.Identity.{placement_and_recovery_agree}
use core_service.Placement.Execution.Tracking.{
  IsUnfinished, IsTracked, persisted_order, IsTracked-iff,
}
use core_service.Placement.Request.{review_request}
use core_service.Placement.Recheck.{resolve_order_attempt}
use core_service.Placement.Recheck.Final.{
  SendsNone, resolve_order_attempt-SendsNone, IsFinal, resolve_order_attempt-IsFinal,
}
use core_service.Placement.Place.{place_order}
use core_service.Placement.Trace.{sent}
use core_service.Placement.Trace.Unfit.{IsOnePlacement}
use core_service.Placement.Trace.Whole.{place_order-IsOnePlacement}
use core_service.Placement.Trace.Promises.{
  sent_count, place_order-sends_once, place_order-answers_sent,
}
use core_service.Placement.Samples.{
  account, request, execution, world, accepted_contract, checked, attempt, pending_execution, ids,
  settled_attempt, settled_world, recheck, open_order, reported, read_trade, placed_fill, placed,
  clock_text,
}

place_order-IsOnePlacement_example : IsOnePlacement (place_order (world (ok execution)) request)
place_order-IsOnePlacement_example = place_order-IsOnePlacement (world (ok execution)) request

place_order-sends_once_example : sent_count (place_order (world (ok execution)) request).calls ≤ 1
place_order-sends_once_example = place_order-sends_once (world (ok execution)) request

-- What the caller learns of a placement: the status of the attempt, and how many fills it has.
abbrev seen : Handled ℤ → Option (AttemptStatus × ℕ)
seen o = elim o.reply [ fail e ↦ none | done r ↦ some (r.attempt_status, length r.fill_deltas) ]

placed_run : seen (place_order (world (ok execution)) request) ≡ some (accepted, 1)
unfolding place_order one_of text_eq normal to_upper trim_space upper_byte equal_fold non_empty
placed_run = refl

-- An order that the exchange does not answer is queried, and answered as absent.
lost_run :
    (seen (place_order (world (err (codes "timeout"))) request) ≡ some (failed, 0))
    × (sent (place_order (world (err (codes "timeout"))) request).calls
        ≡ some (err (codes "timeout")))
unfolding place_order one_of text_eq normal to_upper trim_space upper_byte equal_fold
lost_run = (refl, refl)

place_order-answers_sent_example :
    (response : PlaceOrderResponse ℤ) × ((place_order (world (err (codes "timeout"))) request).reply
      ≡ done response)
place_order-answers_sent_example =
    place_order-answers_sent (world (err (codes "timeout"))) request (err (codes "timeout"))
      lost_run.1 (λ refused. refused)

contract_run : normalize_order_contract request ≡ done accepted_contract
unfolding normalize_order_contract normal text_eq to_upper trim_space
contract_run = refl

contract-IsKept_example : IsKept checked (review_request account checked)
contract-IsKept_example =
    contract-IsKept account request (codes "BUY") accepted_contract contract_run

normalize_page_lem_example :
    IsPage (normalize_page (pos 5000) (negsuc 2))
    × ((normalize_page (pos 5000) (negsuc 2) ≡ (pos 5000, negsuc 2)) ↔ IsPage (pos 5000, negsuc 2))
normalize_page_lem_example = normalize_page_lem (pos 5000) (negsuc 2)

client_order_id_iff_example :
    (build_client_order_id (codes "i-1") (codes "a-1")
      ≡ build_client_order_id (codes "i1") (codes "a-2"))
    ↔ ((id_part (codes "i-1") ≡ id_part (codes "i1"))
        × (id_part (codes "a-1") ≡ id_part (codes "a-2")))
client_order_id_iff_example =
    client_order_id_iff (codes "i-1") (codes "a-1") (codes "i1") (codes "a-2")

length-client_order_id_example :
    length (build_client_order_id (codes "intent-of-many-bytes") (codes "attempt-of-many-bytes"))
    ≤ 27
length-client_order_id_example =
    length-client_order_id (codes "intent-of-many-bytes") (codes "attempt-of-many-bytes")

IsTracked-iff_example :
    IsTracked (pos 1000) (
      persisted_order account attempt
        (pos 9)
        (codes "s-1")
        (pos 2)
        pending_execution
        ids
        (pos 1)
        (pos 1000))
    ↔ IsUnfinished account attempt (pos 9) (codes "s-1") (pos 2) pending_execution (
        persisted_order account attempt
          (pos 9)
          (codes "s-1")
          (pos 2)
          pending_execution
          ids
          (pos 1)
          (pos 1000))
IsTracked-iff_example =
    IsTracked-iff account attempt (pos 9) (codes "s-1") (pos 2) pending_execution ids (pos 1)
      (pos 1000)

resolve_order_attempt-SendsNone_example :
    SendsNone (resolve_order_attempt settled_world recheck).calls
resolve_order_attempt-SendsNone_example = resolve_order_attempt-SendsNone settled_world recheck

resolve_order_attempt-IsFinal_example :
    IsFinal settled_world recheck settled_attempt (resolve_order_attempt settled_world recheck)
resolve_order_attempt-IsFinal_example =
    resolve_order_attempt-IsFinal settled_world recheck settled_attempt refl (inl refl)

same_order : codes "ex-1" ≡ placed_fill.exchange_order_id
unfolding executed_fill
same_order = refl

same_trade : codes "t-9" ≡ placed_fill.exchange_trade_id
unfolding executed_fill
same_trade = refl

order_named : trim_space placed_fill.exchange_order_id ≢ []
unfolding trim_space executed_fill
order_named e = cc

trade_named : trim_space placed_fill.exchange_trade_id ≢ []
unfolding trim_space executed_fill
trade_named e = cc

placement_and_recovery_agree_example :
    event_identity_key clock_text (placed_event placed placed_fill)
    ≡ event_identity_key clock_text
        (fill_event open_order reported (timed_fill read_trade (pos 5)) rest_recovery_source)
placement_and_recovery_agree_example =
    placement_and_recovery_agree clock_text placed placed_fill open_order reported read_trade
      rest_recovery_source (pos 5) same_order same_trade order_named trade_named
