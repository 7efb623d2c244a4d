-- ===== src/Lifecycle/Scanner/Spared.antt =====
-- internal/order/lifecycle/scanner.go: what a step for an order of one venue does to the others.
use core_service.Prelude.{
  ℕ, suc, ◌≡◌, refl, Bool, false, Option, none, some, List, [], ◌∷◌, arith, Option-cases,
  Result-cases, inl, inr, if◌then◌else◌, count_if,
}
use core_service.Prelude.Int.{ℤ, eqb_ℤ, eqb_ℤ_iff}
use core_service.Text.{Text, codes}
use core_service.Float.{Float64}
use core_service.Lifecycle.Events.{
  Event, FillDelta, OrderState, Time, rest_recovery_source, force_close_source, is_zero_time,
  validate_event_route_facts,
}
use core_service.Lifecycle.Scanner.Model.{
  Call, OpenOrder, CancelResult, query_order, query_trades, cancel_order, save_lifecycle_event,
  Scanner, ScannerState, called, backoff_venue,
}
use core_service.Lifecycle.Scanner.Orders.{
  fill_event, terminal_event, timed_fill, force_closed_state, enrich_open_order_from_state,
  enrich_order_state_from_open_order, terminal_order_status,
}
use core_service.Lifecycle.Scanner.Scan.{
  save_valid, write_fill_events, write_terminal_event, force_close_write, force_close_known,
  force_close_checked, force_close, recover_fills, recover_terminal, recover_known, scan_order,
}

module _ {F : Type 0} (venue : ℤ) where
  -- The call asks the exchange about an order of the venue, or hands an event of the venue to the
  -- store.
  abbrev pub concerns : Call F → Bool
  concerns (query_order o) = eqb_ℤ o.venue_id venue
  concerns (query_trades o) = eqb_ℤ o.venue_id venue
  concerns (cancel_order o) = eqb_ℤ o.venue_id venue
  concerns (save_lifecycle_event e answer) = eqb_ℤ e.venue_id venue
  concerns _ = false

  -- The calls that concern the venue.
  abbrev pub concern_count : List (Call F) → ℕ
  concern_count calls = count_if concerns calls

  -- From s to s', no call concerns the venue and its backoff is what it was.
  pub record Spares (s s' : ScannerState F) : Type 0 where
    pub calls : concern_count s'.calls ≡ concern_count s.calls
    pub backoff : s'.venue_backoff venue ≡ s.venue_backoff venue

module _ {F : Type 0} ⦃fl : Float64 F⦄ (sc : Scanner F) (venue : ℤ) where
  save_valid-Spares :
      (e : Event F) (s : ScannerState F)
      → eqb_ℤ e.venue_id venue ≡ false
      → Spares venue s (save_valid sc e s).1
  unfolding save_valid
  save_valid-Spares e s other = elim (Option-cases (validate_event_route_facts e)) [
    | inl valid ↦ ground (arith, valid, other)
    | inr (text, invalid) ↦ ground (arith, invalid)
  ]

  write_fill_events-Spares :
      (order : OpenOrder) (state : OrderState F) (fills : List (FillDelta F)) (source : Text)
      (now : Time) (w : ℕ) (s : ScannerState F)
      → eqb_ℤ order.venue_id venue ≡ false
      → Spares venue s (write_fill_events sc order state fills source now w s).after
  unfolding write_fill_events fill_event
  write_fill_events-Spares order state [] source now w s other = record {
    calls = refl;
    backoff = refl;
  }
  write_fill_events-Spares order state (fill ∷ fills) source now w s other =
      let saved = save_valid sc (fill_event order state (timed_fill fill now) source) s in
      ground (
        arith,
        save_valid-Spares (fill_event order state (timed_fill fill now) source) s other,
        write_fill_events-Spares order state fills source now (suc w) saved.1 other,
      )

  write_terminal_event-Spares :
      (order : OpenOrder) (state : OrderState F) (source status : Text) (at wall : Time)
      (s : ScannerState F)
      → eqb_ℤ order.venue_id venue ≡ false
      → Spares venue s (write_terminal_event sc order state source status at wall s).after
  unfolding write_terminal_event terminal_event
  write_terminal_event-Spares order state source status at wall s other = ground (
    arith,
    save_valid-Spares
        (terminal_event order state source status (if is_zero_time at then wall else at)) s other,
  )

  force_close_write-Spares :
      (order trade_order : OpenOrder) (state : OrderState F) (trades : List (FillDelta F))
      (cancel_err : Option Text) (now : Time) (s : ScannerState F)
      → eqb_ℤ order.venue_id venue ≡ false
      → eqb_ℤ trade_order.venue_id venue ≡ false
      → Spares venue s (force_close_write sc order trade_order state trades cancel_err now s).after
  unfolding force_close_write terminal_event
  force_close_write-Spares order trade_order state trades cancel_err now s other other' =
      let fills = write_fill_events sc trade_order state trades force_close_source now 0 s in
      ground (
        arith,
        write_fill_events-Spares trade_order state trades force_close_source now 0 s other',
        save_valid-Spares
            (terminal_event order state force_close_source (codes "RECOVERY_EXPIRED") now)
            fills.after other,
      )

  enriched-other :
      (order : OpenOrder) (state : OrderState F)
      → eqb_ℤ order.venue_id venue ≡ false
      → eqb_ℤ (enrich_open_order_from_state order state).venue_id venue ≡ false
  unfolding enrich_open_order_from_state
  enriched-other order state other = other

  force_close_known-Spares :
      (order : OpenOrder) (cancelled : CancelResult) (cancel_err : Option Text)
      (queried : OrderState F) (now : Time) (s : ScannerState F)
      → eqb_ℤ order.venue_id venue ≡ false
      → Spares venue s (force_close_known sc order cancelled cancel_err queried now s).after
  unfolding force_close_known
  force_close_known-Spares order cancelled cancel_err queried now s other =
      let state = force_closed_state order queried cancelled now in
      let trade_order = enrich_open_order_from_state order state in
      let other' = enriched-other order state other in
      elim (Result-cases (sc.reader.trades s.calls trade_order)) [
        | inl (trades, e) ↦ ground (
          arith,
          other',
          force_close_write-Spares order trade_order state trades cancel_err now
              (called (query_trades trade_order) s) other other',
        )
        | inr (text, e) ↦ ground (arith, other')
      ]

  force_close_checked-Spares :
      (order : OpenOrder) (cancelled : CancelResult) (cancel_err : Option Text)
      (queried : OrderState F) (now : Time) (s : ScannerState F)
      → eqb_ℤ order.venue_id venue ≡ false
      → Spares venue s (force_close_checked sc order cancelled cancel_err queried now s).after
  unfolding force_close_checked
  force_close_checked-Spares order cancelled (some e) queried now s other =
      ground (arith, force_close_known-Spares order cancelled (some e) queried now s other)
  force_close_checked-Spares order cancelled none queried now s other =
      force_close_known-Spares order cancelled none queried now s other

  force_close-Spares :
      (order : OpenOrder) (now : Time) (s : ScannerState F)
      → eqb_ℤ order.venue_id venue ≡ false
      → Spares venue s (force_close sc order now s).after
  unfolding force_close
  force_close-Spares order now s other = elim (Option-cases sc.canceller) [
    | inl missing ↦ ground arith
    | inr (canceller, e) ↦
        let (cancelled, cancel_err) = canceller.cancel s.calls order in
        let s' = called (cancel_order order) s in
        let s'' = called (query_order order) s' in
        elim (Result-cases (sc.reader.query s'.calls order)) [
          | inl (queried, q) ↦ ground (
            arith,
            other,
            force_close_checked-Spares order cancelled cancel_err queried now s'' other,
          )
          | inr (text, q) ↦ ground (arith, other)
        ]
  ]

  recover_fills-Spares :
      (order trade_order : OpenOrder) (state : OrderState F) (now : Time) (s : ScannerState F)
      → eqb_ℤ order.venue_id venue ≡ false
      → eqb_ℤ trade_order.venue_id venue ≡ false
      → Spares venue s (recover_fills sc order trade_order state now s).after
  unfolding recover_fills backoff_venue
  recover_fills-Spares order trade_order state now s other other' =
      elim (Result-cases (sc.reader.trades s.calls trade_order)) [
        | inl (trades, e) ↦ ground (
          arith,
          other',
          write_fill_events-Spares trade_order state trades rest_recovery_source now 0
              (called (query_trades trade_order) s) other',
        )
        | inr (text, e) ↦
            ground
              (arith, other, other', eqb_ℤ_iff venue order.venue_id, eqb_ℤ_iff order.venue_id venue)
      ]

  recover_terminal-Spares :
      (order trade_order : OpenOrder) (state : OrderState F) (wall : Time) (w : ℕ)
      (s : ScannerState F)
      → eqb_ℤ trade_order.venue_id venue ≡ false
      → Spares venue s (recover_terminal sc order trade_order state wall w s).after
  unfolding recover_terminal
  recover_terminal-Spares order trade_order state wall w s other' =
      let ended : OrderState F = record state { status = terminal_order_status state } in
      ground (
        arith,
        write_terminal_event-Spares trade_order ended rest_recovery_source ended.status
            ended.updated_at wall s other',
      )

  recover_known-Spares :
      (order : OpenOrder) (queried : OrderState F) (now wall : Time) (s : ScannerState F)
      → eqb_ℤ order.venue_id venue ≡ false
      → Spares venue s (recover_known sc order queried now wall s).after
  unfolding recover_known
  recover_known-Spares order queried now wall s other =
      let state = enrich_order_state_from_open_order order queried now in
      let trade_order = enrich_open_order_from_state order state in
      let other' = enriched-other order state other in
      let fills = recover_fills sc order trade_order state now s in
      ground (
        arith,
        recover_fills-Spares order trade_order state now s other other',
        recover_terminal-Spares order trade_order state wall fills.written fills.after other',
      )

  -- A step for an order of another venue.
  pub scan_order-Spares :
      (order : OpenOrder) (now wall : Time) (s : ScannerState F)
      → eqb_ℤ order.venue_id venue ≡ false
      → Spares venue s (scan_order sc order now wall s).after
  unfolding scan_order backoff_venue
  scan_order-Spares order now wall s other =
      let closed = force_close-Spares order now s other in
      let flip = eqb_ℤ_iff venue order.venue_id in
      let flip' = eqb_ℤ_iff order.venue_id venue in
      elim (Result-cases (sc.reader.query s.calls order)) [
        | inl (queried, e) ↦ ground (
          arith,
          other,
          flip,
          flip',
          closed,
          recover_known-Spares order queried now wall (called (query_order order) s) other,
        )
        | inr (text, e) ↦ ground (arith, other, flip, flip', closed)
      ]
