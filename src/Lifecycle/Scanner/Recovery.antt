-- ===== src/Lifecycle/Scanner/Recovery.antt =====
-- internal/order/lifecycle/scanner.go: what the recovery of an order writes, by the state that the
-- exchange reports.
use core_service.Prelude.{ℕ, ◌≡◌, false, List, [], ◌∷◌, arith, if◌then◌else◌, suc}
use core_service.Text.{codes, text_eq, normal, one_of}
use core_service.Text.Normal.{normal_idem}
use core_service.Float.{Float64}
use core_service.Lifecycle.Events.{OrderState, Time}
use core_service.Lifecycle.Scanner.Model.{
  OpenOrder, Call, query_trades, save_lifecycle_event, Scanner, ScannerState,
}
use core_service.Lifecycle.Scanner.Orders.{
  filled_statuses, enrich_open_order_from_state, enrich_order_state_from_open_order, has_fill_delta,
  terminal_event,
}
use core_service.Lifecycle.Scanner.Scan.{
  save_valid, write_terminal_event, recover_fills, recover_terminal, recover_known,
}

module _ {F : Type 0} where
  -- The fills among the events handed to the store, and the trade queries.
  abbrev pub fill_count : List (Call F) → ℕ
  fill_count [] = 0
  fill_count (save_lifecycle_event e answer ∷ cs) =
      if text_eq e.event_type (codes "fill") then suc (fill_count cs) else fill_count cs
  fill_count (_ ∷ cs) = fill_count cs

  abbrev pub trade_queries : List (Call F) → ℕ
  trade_queries [] = 0
  trade_queries (query_trades o ∷ cs) = suc (trade_queries cs)
  trade_queries (_ ∷ cs) = trade_queries cs

module _ {F : Type 0} ⦃fl : Float64 F⦄ (sc : Scanner F) where
  recover_terminal_fills :
      (order trade_order : OpenOrder) (state : OrderState F) (wall : Time) (w : ℕ)
      (s : ScannerState F)
      → let after = (recover_terminal sc order trade_order state wall w s).after in
        (fill_count after.calls ≡ fill_count s.calls)
        × (trade_queries after.calls ≡ trade_queries s.calls)
  unfolding recover_terminal write_terminal_event save_valid terminal_event text_eq
  recover_terminal_fills order trade_order state wall w s = ground arith

  -- An order that the exchange reports with any other status than FILLED or PARTIALLY_FILLED is
  -- recovered without a look at its trades, and without a fill event, however much of it was
  -- executed.
  pub other_status_no_fills :
      (order : OpenOrder) (queried : OrderState F) (now wall : Time) (s : ScannerState F)
      → one_of (normal queried.status) filled_statuses ≡ false
      → let after = (recover_known sc order queried now wall s).after in
        (fill_count after.calls ≡ fill_count s.calls)
        × (trade_queries after.calls ≡ trade_queries s.calls)
  unfolding recover_known recover_fills has_fill_delta enrich_order_state_from_open_order
  other_status_no_fills order queried now wall s other =
      let state = enrich_order_state_from_open_order order queried now in
      ground (
        arith,
        normal_idem queried.status,
        recover_terminal_fills order (enrich_open_order_from_state order state) state wall 0 s,
      )
