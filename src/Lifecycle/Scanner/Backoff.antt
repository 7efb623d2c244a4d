-- ===== src/Lifecycle/Scanner/Backoff.antt =====
-- internal/order/lifecycle/scanner.go: the backoff of a venue after a failed query.
use core_service.Prelude.{
  ℕ, suc, ◌+◌, Bool-cases, inl, inr, ◌≡◌, refl, true, false, Option, List, [], ◌∷◌, arith, err,
}
use core_service.Prelude.Int.{ℤ, pos, ◌≤ℤ◌, ◌+ℤ◌, ltb_ℤ, eqb_ℤ, eqb_ℤ_iff, +ℤ_parts}
use core_service.Text.{Text}
use core_service.Float.{Float64}
use core_service.Lifecycle.Events.{Time, is_zero_time}
use core_service.Lifecycle.Scanner.Model.{
  OpenOrder, query_order, ScannerConfig, Scanner, ScannerStore, OrderStateReader,
  OrderRecoveryCanceller, new_scanner_with_canceller, ScannerState, called, next_order,
  backoff_delay, backoff_venue, in_backoff,
}
use core_service.Lifecycle.Scanner.Spared.{concern_count, scan_order-Spares}
use core_service.Lifecycle.Scanner.Orders.{order_recovery_deadline}
use core_service.Lifecycle.Scanner.Scan.{outcome, scan_order, scan_orders}

-- The defaults leave no delay that is zero or negative.
abbrev pub HasDelay : ScannerConfig → Type 0
HasDelay cfg = (pos 1 ≤ℤ cfg.initial_backoff) × (pos 1 ≤ℤ cfg.max_backoff)

pub new_scanner_with_canceller-HasDelay :
    {F : Type 0} (store : ScannerStore F) (reader : OrderStateReader F)
    (canceller : Option (OrderRecoveryCanceller F)) (cfg : ScannerConfig)
    → HasDelay (new_scanner_with_canceller store reader canceller cfg).cfg
unfolding new_scanner_with_canceller
new_scanner_with_canceller-HasDelay store reader canceller cfg = ground arith

later :
    (cfg : ScannerConfig) (now : Time) → HasDelay cfg → ltb_ℤ now (now +ℤ backoff_delay cfg) ≡ true
unfolding backoff_delay
later cfg now h = ground (arith, +ℤ_parts now cfg.max_backoff, +ℤ_parts now cfg.initial_backoff)

pub backoff_venue-in_backoff :
    {F : Type 0} (cfg : ScannerConfig) (venue : ℤ) (now : Time) (s : ScannerState F)
    → HasDelay cfg
    → in_backoff (backoff_venue cfg venue now s) venue now ≡ true
unfolding backoff_venue
backoff_venue-in_backoff cfg venue now s h = ground (arith, later cfg now h)

module _ {F : Type 0} ⦃fl : Float64 F⦄ (sc : Scanner F) where
  scan_order-in_backoff :
      (order : OpenOrder) (now wall : Time) (s : ScannerState F)
      → in_backoff s order.venue_id now ≡ true
      → scan_order sc order now wall s ≡ outcome sc 0 next_order s
  unfolding scan_order
  scan_order-in_backoff order now wall s h = rw h

  failed_once :
      (order : OpenOrder) (now wall : Time) (s : ScannerState F) {e : Text}
      → in_backoff s order.venue_id now ≡ false
      → is_zero_time (order_recovery_deadline sc.cfg order) ≡ true
      → sc.reader.query s.calls order ≡ err e
      → scan_order sc order now wall s
        ≡ outcome sc 0 next_order
            (backoff_venue sc.cfg order.venue_id now (called (query_order order) s))
  unfolding scan_order
  failed_once order now wall s free open_ended failed = rw (free, open_ended, failed)

  once :
      (order : OpenOrder) (now : Time) (s : ScannerState F)
      → concern_count order.venue_id
          (backoff_venue sc.cfg order.venue_id now (called (query_order order) s)).calls
        ≡ suc (concern_count order.venue_id s.calls)
  unfolding backoff_venue
  once order now s = ground (arith, (eqb_ℤ_iff order.venue_id order.venue_id).1 refl)

  -- The orders of a venue in its backoff are passed over, wherever they stand in the list.
  scan_orders-in_backoff :
      (orders : List OpenOrder) (venue : ℤ) (now wall : Time) (w : ℕ) (s : ScannerState F)
      → in_backoff s venue now ≡ true
      → concern_count venue (scan_orders sc orders now wall w s).after.calls
        ≡ concern_count venue s.calls
  unfolding scan_orders
  scan_orders-in_backoff [] venue now wall w s h = refl
  scan_orders-in_backoff (order ∷ orders) venue now wall w s h =
      let done = scan_order sc order now wall s in
      let rest = scan_orders-in_backoff orders venue now wall (w + done.written) done.after in
      elim (Bool-cases (eqb_ℤ order.venue_id venue)) [
        | inl own ↦
            let passed =
              scan_order-in_backoff order now wall s
                (rw ((eqb_ℤ_iff order.venue_id venue).0 own) h) in
            ground (arith, passed, h, rest)
        | inr other ↦ ground (arith, h, scan_order-Spares sc venue order now wall s other, rest)
      ]

  -- When both backoff delays are positive, a venue is not in its backoff and the query of one of its
  -- orders without a deadline fails, then that query is the one call of the scan from there on that
  -- concerns the venue, whatever orders follow, of whatever venues: the exchange is not asked about
  -- another of its orders, and no event of the venue is handed to the store.
  pub failed_query_silences_venue :
      (order : OpenOrder) (orders : List OpenOrder) (now wall : Time) (w : ℕ) (s : ScannerState F)
      {e : Text}
      → HasDelay sc.cfg
      → in_backoff s order.venue_id now ≡ false
      → is_zero_time (order_recovery_deadline sc.cfg order) ≡ true
      → sc.reader.query s.calls order ≡ err e
      → concern_count order.venue_id (scan_orders sc (order ∷ orders) now wall w s).after.calls
        ≡ suc (concern_count order.venue_id s.calls)
  unfolding scan_orders
  failed_query_silences_venue order orders now wall w s delay free open_ended failed =
      let venue = order.venue_id in
      let s' = backoff_venue sc.cfg venue now (called (query_order order) s) in
      ground (
        arith,
        failed_once order now wall s free open_ended failed,
        scan_orders-in_backoff orders venue now wall (w + 0) s'
            (backoff_venue-in_backoff sc.cfg venue now (called (query_order order) s) delay),
        once order now s,
      )
