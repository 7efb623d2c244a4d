-- ===== src/Lifecycle/Scanner/Trace/Whole.antt =====
-- A whole scan keeps its calls sound and counted.
use core_service.Prelude.{
  ℕ, ◌+◌, refl, inl, inr, Option, none, some, List, [], ◌∷◌, arith, Option-cases, Result-cases,
}
use core_service.Text.{Text}
use core_service.Float.{Float64}
use core_service.Lifecycle.Events.{OrderState, Time, rest_recovery_source}
use core_service.Lifecycle.Scanner.Model.{
  OpenOrder, CancelResult, cancel_order, query_order, query_trades, list_due_open_orders, Scanner,
  ScannerState, called, backoff_venue,
}
use core_service.Lifecycle.Scanner.Orders.{
  force_closed_state, enrich_open_order_from_state, enrich_order_state_from_open_order,
  terminal_order_status,
}
use core_service.Lifecycle.Scanner.Scan.{
  force_close_known, force_close_checked, force_close, recover_fills, recover_terminal,
  recover_known, scan_order, scan_orders, scan_once,
}
use core_service.Lifecycle.Scanner.Trace.{IsSound, Accounts}
use core_service.Lifecycle.Scanner.Trace.Steps.{
  write_fill_events-Accounts, write_terminal_event-Accounts, force_close_write-Accounts,
}

module _ {F : Type 0} ⦃fl : Float64 F⦄ (sc : Scanner F) where
  force_close_known-Accounts :
      (order : OpenOrder) (cancelled : CancelResult) (cancel_err : Option Text)
      (queried : OrderState F) (now : Time) (s : ScannerState F)
      → IsSound s.calls
      → Accounts 0 s (force_close_known sc order cancelled cancel_err queried now s)
  unfolding force_close_known
  force_close_known-Accounts order cancelled cancel_err queried now s sound =
      let state = force_closed_state order queried cancelled now in
      let trade_order = enrich_open_order_from_state order state in
      elim (Result-cases (sc.reader.trades s.calls trade_order)) [
        | inl (trades, e) ↦ ground (
          arith,
          force_close_write-Accounts sc order trade_order state trades cancel_err now
              (called (query_trades trade_order) s),
        )
        | inr (text, e) ↦ ground arith
      ]

  force_close_checked-Accounts :
      (order : OpenOrder) (cancelled : CancelResult) (cancel_err : Option Text)
      (queried : OrderState F) (now : Time) (s : ScannerState F)
      → IsSound s.calls
      → Accounts 0 s (force_close_checked sc order cancelled cancel_err queried now s)
  unfolding force_close_checked
  force_close_checked-Accounts order cancelled (some e) queried now s sound =
      ground (arith, force_close_known-Accounts order cancelled (some e) queried now s)
  force_close_checked-Accounts order cancelled none queried now s sound =
      force_close_known-Accounts order cancelled none queried now s sound

  force_close-Accounts :
      (order : OpenOrder) (now : Time) (s : ScannerState F)
      → IsSound s.calls
      → Accounts 0 s (force_close sc order now s)
  unfolding force_close
  force_close-Accounts order now s sound = elim (Option-cases sc.canceller) [
    | inl missing ↦ ground arith
    | inr (canceller, e) ↦
        let (cancelled, cancel_err) = canceller.cancel s.calls order in
        let s' = called (cancel_order order) s in
        let s'' = called (query_order order) s' in
        elim (Result-cases (sc.reader.query s'.calls order)) [
          | inl (queried, q) ↦
              ground
                (arith, force_close_checked-Accounts order cancelled cancel_err queried now s'')
          | inr (text, q) ↦ ground arith
        ]
  ]

  recover_fills-Accounts :
      (order trade_order : OpenOrder) (state : OrderState F) (now : Time) (s : ScannerState F)
      → IsSound s.calls
      → Accounts 0 s (recover_fills sc order trade_order state now s)
  unfolding recover_fills backoff_venue
  recover_fills-Accounts order trade_order state now s sound =
      elim (Result-cases (sc.reader.trades s.calls trade_order)) [
        | inl (trades, e) ↦ ground (
          arith,
          write_fill_events-Accounts sc trade_order state trades rest_recovery_source now 0
              (called (query_trades trade_order) s) (inl refl),
        )
        | inr (text, e) ↦ ground arith
      ]

  recover_terminal-Accounts :
      (order : OpenOrder) (state' : OrderState F) (state : OrderState F) (wall : Time) (w : ℕ)
      (s : ScannerState F)
      → IsSound s.calls
      → let trade_order = enrich_open_order_from_state order state' in
        Accounts w s (recover_terminal sc order trade_order state wall w s)
  unfolding recover_terminal enrich_open_order_from_state
  recover_terminal-Accounts order state' state wall w s sound =
      let trade_order = enrich_open_order_from_state order state' in
      let ended : OrderState F = record state { status = terminal_order_status state } in
      ground (
        arith,
        write_terminal_event-Accounts sc trade_order ended rest_recovery_source ended.status
            ended.updated_at wall s (inl refl),
      )

  recover_known-Accounts :
      (order : OpenOrder) (queried : OrderState F) (now wall : Time) (s : ScannerState F)
      → IsSound s.calls
      → Accounts 0 s (recover_known sc order queried now wall s)
  unfolding recover_known
  recover_known-Accounts order queried now wall s sound =
      let state = enrich_order_state_from_open_order order queried now in
      let trade_order = enrich_open_order_from_state order state in
      let fills = recover_fills sc order trade_order state now s in
      ground (
        arith,
        recover_fills-Accounts order trade_order state now s,
        recover_terminal-Accounts order state state wall fills.written fills.after,
      )

  scan_order-Accounts :
      (order : OpenOrder) (now wall : Time) (s : ScannerState F)
      → IsSound s.calls
      → Accounts 0 s (scan_order sc order now wall s)
  unfolding scan_order backoff_venue
  scan_order-Accounts order now wall s sound = elim (Result-cases (sc.reader.query s.calls order)) [
    | inl (queried, e) ↦ ground (
      arith,
      force_close-Accounts order now s,
      recover_known-Accounts order queried now wall (called (query_order order) s),
    )
    | inr (text, e) ↦ ground (arith, force_close-Accounts order now s)
  ]

  scan_orders-Accounts :
      (orders : List OpenOrder) (now wall : Time) (w : ℕ) (s : ScannerState F)
      → IsSound s.calls
      → Accounts w s (scan_orders sc orders now wall w s)
  unfolding scan_orders
  scan_orders-Accounts [] now wall w s sound = ground arith
  scan_orders-Accounts (order ∷ orders) now wall w s sound =
      let done = scan_order sc order now wall s in
      ground (
        arith,
        scan_order-Accounts order now wall s,
        scan_orders-Accounts orders now wall (w + done.written) done.after,
      )

  -- Whatever the collaborators answer, a scan that begins with sound calls ends with sound calls,
  -- and the number that it returns, with an error or without, is the number of events that the
  -- store took.
  pub scan_once-Accounts :
      (now wall : Time) (s : ScannerState F)
      → IsSound s.calls
      → Accounts 0 s (scan_once sc now wall s)
  unfolding scan_once
  scan_once-Accounts now wall s sound =
      elim (Result-cases (sc.store.list_due s.calls sc.cfg.batch_size)) [
        | inl (orders, e) ↦ ground (
          arith,
          scan_orders-Accounts orders now wall 0
              (called (list_due_open_orders sc.cfg.batch_size) s),
        )
        | inr (text, e) ↦ ground arith
      ]
