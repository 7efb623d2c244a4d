-- ===== src/Lifecycle/Scanner/Scan.antt =====
-- internal/order/lifecycle/scanner.go: ScanOnce and the steps that it is made of.
use core_service.Prelude.{
  ℕ, suc, ◌+◌, not, ◌&&◌, Option, none, some, List, [], ◌∷◌, if◌then◌else◌, ok, err,
}
use core_service.Text.{Text, codes}
use core_service.Float.{Float64}
use core_service.Lifecycle.Events.{
  Event, FillDelta, OrderState, Time, is_zero_time, before, rest_recovery_source,
  force_close_source, validate_event_route_facts,
}
use core_service.Lifecycle.Scanner.Model.{
  OpenOrder, CancelResult, list_due_open_orders, query_order, query_trades, cancel_order,
  save_lifecycle_event, mark_recovery_expired, mark_recovery_resolved, Scanner, ScannerState,
  called, Flow, go_on, next_order, return_error, Outcome, backoff_venue, in_backoff,
}
use core_service.Lifecycle.Scanner.Orders.{
  order_recovery_deadline, cancel_error_text, enrich_open_order_from_state,
  enrich_order_state_from_open_order, force_closed_state, is_terminal_order_state,
  terminal_order_status, has_fill_delta, has_complete_fill_details, timed_fill, fill_event,
  terminal_event,
}

abbrev pub canceller_unavailable : Text
canceller_unavailable = codes "order recovery canceller unavailable"

module _ {F : Type 0} ⦃fl : Float64 F⦄ (sc : Scanner F) where
  abbrev pub outcome : ℕ → Flow → ScannerState F → Outcome F
  outcome written flow s = record { written = written; flow = flow; after = s }

  -- The error of a validated write, with the state after it.
  unfoldable pub save_valid : Event F → ScannerState F → Option Text × ScannerState F
  save_valid event s = elim (validate_event_route_facts event) [
    | some e ↦ (some e, s)
    | none ↦
        let answer = sc.store.save_event s.calls event in
        (answer, called (save_lifecycle_event event answer) s)
  ]

  -- `written` counts the fills saved before.
  unfoldable pub write_fill_events :
      OpenOrder → OrderState F → List (FillDelta F) → Text → Time → ℕ → ScannerState F → Outcome F
  write_fill_events order state [] source now written s = outcome written go_on s
  write_fill_events order state (fill ∷ fills) source now written s =
      let (failed, s') = save_valid (fill_event order state (timed_fill fill now) source) s in
      let rest = write_fill_events order state fills source now (suc written) s' in
      elim failed [ some e ↦ outcome written (return_error e) s' | none ↦ rest ]

  -- time.Now(), for a state that has no time, is the parameter `wall`.
  unfoldable pub write_terminal_event :
      OpenOrder → OrderState F → Text → Text → Time → Time → ScannerState F → Outcome F
  write_terminal_event order state source status occurred_at wall s =
      let at = if is_zero_time occurred_at then wall else occurred_at in
      let (failed, s') = save_valid (terminal_event order state source status at) s in
      elim failed [ some e ↦ outcome 0 (return_error e) s' | none ↦ outcome 1 go_on s' ]

  -- forceClose from the point where the trades are known.
  unfoldable pub force_close_write :
      OpenOrder
      → OpenOrder
      → OrderState F
      → List (FillDelta F)
      → Option Text
      → Time
      → ScannerState F
      → Outcome F
  force_close_write order trade_order state trades cancel_err now s =
      let fills = write_fill_events trade_order state trades force_close_source now 0 s in
      elim fills.flow [
        | next_order ↦ fills
        | return_error e ↦ fills
        | go_on ↦
            let event =
              terminal_event order state force_close_source (codes "RECOVERY_EXPIRED") now in
            let (failed, s') = save_valid event fills.after in
            elim failed [
              | some e ↦ outcome fills.written (return_error e) s'
              | none ↦
                  let text = cancel_error_text cancel_err in
                  let answer = sc.store.mark_expired s'.calls order.order_id now text in
                  let s'' = called (mark_recovery_expired order.order_id now text answer) s' in
                  outcome (suc fills.written)
                    (elim answer [ some e ↦ return_error e | none ↦ go_on ]) s''
            ]
      ]

  -- The error of the cancellation comes before that of the query.
  abbrev first_error : Option Text → Text → Text
  first_error (some e) _ = e
  first_error none e = e

  -- forceClose from the point where the state is known.
  unfoldable pub force_close_known :
      OpenOrder → CancelResult → Option Text → OrderState F → Time → ScannerState F → Outcome F
  force_close_known order cancelled cancel_err queried now s =
      let state = force_closed_state order queried cancelled now in
      let trade_order = enrich_open_order_from_state order state in
      let s' = called (query_trades trade_order) s in
      elim (sc.reader.trades s.calls trade_order) [
        | err e ↦ outcome 0 (return_error (first_error cancel_err e)) s'
        | ok trades ↦ force_close_write order trade_order state trades cancel_err now s'
      ]

  -- A cancellation may fail only if the order has ended.
  unfoldable pub force_close_checked :
      OpenOrder → CancelResult → Option Text → OrderState F → Time → ScannerState F → Outcome F
  force_close_checked order cancelled (some e) queried now s =
      if not (is_terminal_order_state queried)
      then outcome 0 (return_error e) s
      else force_close_known order cancelled (some e) queried now s
  force_close_checked order cancelled none queried now s =
      force_close_known order cancelled none queried now s

  unfoldable pub force_close : OpenOrder → Time → ScannerState F → Outcome F
  force_close order now s = elim sc.canceller [
    | none ↦ outcome 0 (return_error canceller_unavailable) s
    | some canceller ↦
        let (cancelled, cancel_err) = canceller.cancel s.calls order in
        let s' = called (cancel_order order) s in
        let s'' = called (query_order order) s' in
        elim (sc.reader.query s'.calls order) [
          | err e ↦ outcome 0 (return_error (first_error cancel_err e)) s''
          | ok queried ↦ force_close_checked order cancelled cancel_err queried now s''
        ]
  ]

  -- The fills of an order whose state reports some.
  unfoldable pub recover_fills :
      OpenOrder → OpenOrder → OrderState F → Time → ScannerState F → Outcome F
  recover_fills order trade_order state now s =
      if has_fill_delta state
      then (let s' = called (query_trades trade_order) s in
          elim (sc.reader.trades s.calls trade_order) [
            | err e ↦ outcome 0 next_order (backoff_venue sc.cfg order.venue_id now s')
            | ok trades ↦
                if has_complete_fill_details state trades
                then write_fill_events trade_order state trades rest_recovery_source now 0 s'
                else outcome 0 next_order s'
          ])
      else outcome 0 go_on s

  -- The terminal event of an order that has ended.
  unfoldable pub recover_terminal :
      OpenOrder → OpenOrder → OrderState F → Time → ℕ → ScannerState F → Outcome F
  recover_terminal order trade_order state wall written s =
      if is_terminal_order_state state
      then (let ended = record state { status = terminal_order_status state } in
          let saved =
            write_terminal_event trade_order ended rest_recovery_source ended.status
              ended.updated_at wall s in
          elim saved.flow [
            | next_order ↦ outcome (written + saved.written) next_order saved.after
            | return_error e ↦ outcome (written + saved.written) (return_error e) saved.after
            | go_on ↦
                let answer =
                  sc.store.mark_resolved saved.after.calls order.order_id ended ended.updated_at in
                let mark = mark_recovery_resolved order.order_id ended ended.updated_at answer in
                outcome (written + saved.written)
                  (elim answer [ some e ↦ return_error e | none ↦ go_on ]) (called mark saved.after)
          ])
      else outcome written go_on s

  -- An order whose state has been read.
  unfoldable pub recover_known : OpenOrder → OrderState F → Time → Time → ScannerState F → Outcome F
  recover_known order queried now wall s =
      let state = enrich_order_state_from_open_order order queried now in
      let trade_order = enrich_open_order_from_state order state in
      let fills = recover_fills order trade_order state now s in
      elim fills.flow [
        | go_on ↦ recover_terminal order trade_order state wall fills.written fills.after
        | next_order ↦ fills
        | return_error e ↦ fills
      ]

  -- The body of the loop of ScanOnce.
  unfoldable pub scan_order : OpenOrder → Time → Time → ScannerState F → Outcome F
  scan_order order now wall s =
      let deadline = order_recovery_deadline sc.cfg order in
      if in_backoff s order.venue_id now
      then outcome 0 next_order s
      else if not (is_zero_time deadline) && not (before now deadline)
      then (let closed = force_close order now s in
          elim closed.flow [
            | return_error e ↦
                outcome closed.written next_order
                  (backoff_venue sc.cfg order.venue_id now closed.after)
            | go_on ↦ outcome closed.written next_order closed.after
            | next_order ↦ outcome closed.written next_order closed.after
          ])
      else (let s' = called (query_order order) s in
          elim (sc.reader.query s.calls order) [
            | err e ↦ outcome 0 next_order (backoff_venue sc.cfg order.venue_id now s')
            | ok queried ↦ recover_known order queried now wall s'
          ])

  unfoldable pub scan_orders : List OpenOrder → Time → Time → ℕ → ScannerState F → Outcome F
  scan_orders [] now wall written s = outcome written go_on s
  scan_orders (order ∷ orders) now wall written s =
      let done = scan_order order now wall s in
      let rest = scan_orders orders now wall (written + done.written) done.after in
      elim done.flow [
        | return_error e ↦ outcome (written + done.written) (return_error e) done.after
        | go_on ↦ rest
        | next_order ↦ rest
      ]

  -- The number of events written, and the error.
  unfoldable pub scan_once : Time → Time → ScannerState F → Outcome F
  scan_once now wall s =
      let s' = called (list_due_open_orders sc.cfg.batch_size) s in
      elim (sc.store.list_due s.calls sc.cfg.batch_size) [
        | err e ↦ outcome 0 (return_error e) s'
        | ok orders ↦ scan_orders orders now wall 0 s'
      ]
