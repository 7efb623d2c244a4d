-- ===== src/Lifecycle/Scanner/Trace/Steps.antt =====
-- Each write of a scan keeps its calls sound and counted.
use core_service.Prelude.{
  ℕ, suc, ◌≡◌, refl, ◌⊎◌, inl, inr, Option, none, some, List, [], ◌∷◌, arith, Option-cases,
  if◌then◌else◌,
}
use core_service.Text.{Text, codes}
use core_service.Float.{Float64}
use core_service.Lifecycle.Events.{
  Event, FillDelta, OrderState, Time, force_close_source, validate_event_route_facts, is_zero_time,
}
use core_service.Lifecycle.Events.Facts.{RouteFacts, accepts→RouteFacts}
use core_service.Lifecycle.Scanner.Model.{
  OpenOrder, save_lifecycle_event, Scanner, ScannerState, called, go_on, return_error,
}
use core_service.Lifecycle.Scanner.Orders.{fill_event, terminal_event, timed_fill}
use core_service.Lifecycle.Scanner.Scan.{
  save_valid, write_fill_events, write_terminal_event, force_close_write,
}
use core_service.Lifecycle.Scanner.Trace.{IsScanSource, JustEnded, IsSound, saved_count, Accounts}

module _ {F : Type 0} ⦃fl : Float64 F⦄ (sc : Scanner F) where
  -- A write is refused and changes no count, or the store takes the event.
  pub save_valid_cases :
      (e : Event F) (s : ScannerState F)
      → IsScanSource e.event_source
      → IsSound s.calls
      → ((text : Text) × ((save_valid sc e s).0 ≡ some text)
          × IsSound (save_valid sc e s).1.calls
          × (saved_count (save_valid sc e s).1.calls ≡ saved_count s.calls))
        ⊎ ((save_valid sc e s ≡ (none, called (save_lifecycle_event e none) s)) × RouteFacts e)
  unfolding save_valid
  save_valid_cases e s source sound = elim (Option-cases (validate_event_route_facts e)) [
    | inl valid ↦ elim (Option-cases (sc.store.save_event s.calls e)) [
      | inl taken ↦ inr (ground arith, accepts→RouteFacts e valid)
      | inr (text, refused) ↦
          inl (text, ground arith, ground (arith, accepts→RouteFacts e valid), ground arith)
    ]
    | inr (text, invalid) ↦ inl (text, ground arith, ground arith, ground arith)
  ]

  pub write_fill_events-Accounts :
      (order : OpenOrder) (state : OrderState F) (fills : List (FillDelta F)) (source : Text)
      (now : Time) (w : ℕ) (s : ScannerState F)
      → IsScanSource source
      → IsSound s.calls
      → Accounts w s (write_fill_events sc order state fills source now w s)
  unfolding write_fill_events fill_event
  write_fill_events-Accounts order state [] source now w s from sound = ground arith
  write_fill_events-Accounts order state (fill ∷ fills) source now w s from sound =
      elim (save_valid_cases (fill_event order state (timed_fill fill now) source) s from sound) [
        | inl (text, failed, kept, same) ↦ ground arith
        | inr (taken, facts) ↦ ground (
          arith,
          write_fill_events-Accounts order state fills source now (suc w)
              (called
                (save_lifecycle_event (fill_event order state (timed_fill fill now) source) none) s)
              from,
        )
      ]

  -- The terminal event is refused, or it is the last call and stands for its order and status.
  pub write_terminal_event-Accounts :
      (order : OpenOrder) (state : OrderState F) (source status : Text) (at wall : Time)
      (s : ScannerState F)
      → IsScanSource source
      → IsSound s.calls
      → let o = write_terminal_event sc order state source status at wall s in
        Accounts 0 s o
        × (((text : Text) × (o.flow ≡ return_error text))
            ⊎ ((o.flow ≡ go_on) × JustEnded order.order_id status o.after.calls))
  unfolding write_terminal_event terminal_event
  write_terminal_event-Accounts order state source status at wall s from sound =
      elim (save_valid_cases
        (terminal_event order state source status (if is_zero_time at then wall else at)) s from
        sound) [
          | inl (text, failed, kept, same) ↦ (ground arith, inl (text, ground arith))
          | inr (taken, facts) ↦ ground arith
        ]

  pub force_close_write-Accounts :
      (order trade_order : OpenOrder) (state : OrderState F) (trades : List (FillDelta F))
      (cancel_err : Option Text) (now : Time) (s : ScannerState F)
      → IsSound s.calls
      → Accounts 0 s (force_close_write sc order trade_order state trades cancel_err now s)
  unfolding force_close_write terminal_event
  force_close_write-Accounts order trade_order state trades cancel_err now s sound =
      let fills = write_fill_events sc trade_order state trades force_close_source now 0 s in
      let kept =
        write_fill_events-Accounts trade_order state trades force_close_source now 0 s (inr refl)
          sound in
      elim (save_valid_cases
        (terminal_event order state force_close_source (codes "RECOVERY_EXPIRED") now) fills.after
        (inr refl) kept.sound) [
          | inl (text, failed, kept', same) ↦ ground arith
          | inr (taken, facts) ↦ ground arith
        ]
