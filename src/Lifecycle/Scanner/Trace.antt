-- ===== src/Lifecycle/Scanner/Trace.antt =====
-- What the calls of a scan have to satisfy, whatever the store, the reader and the canceller
-- answer.
pub mod Steps
pub mod Whole
use core_service.Prelude.{ℕ, suc, ◌+◌, ◌≡◌, ◌⊎◌, Option, none, some, List, [], ◌∷◌}
use core_service.Text.{Text, codes}
use core_service.Lifecycle.Events.{Event, rest_recovery_source, force_close_source}
use core_service.Lifecycle.Events.Facts.{RouteFacts}
use core_service.Lifecycle.Scanner.Model.{
  Call, list_due_open_orders, query_order, query_trades, cancel_order, save_lifecycle_event,
  mark_recovery_expired, mark_recovery_resolved, ScannerState, Outcome,
}

abbrev pub IsScanSource : Text → Type 0
IsScanSource source = (source ≡ rest_recovery_source) ⊎ (source ≡ force_close_source)

module _ {F : Type 0} where
  -- The last call saved a terminal event of the order, with the status, and did not fail.
  abbrev pub JustEnded : Text → Text → List (Call F) → Type 0
  JustEnded order status (save_lifecycle_event e none ∷ cs) =
      (e.event_type ≡ codes "terminal") × (e.order_id ≡ order) × (e.order_status ≡ status)
  JustEnded order status _ = ⊥

  -- Every event handed to the store states its route and comes from the scanner, and an order is
  -- marked as resolved or expired only right after its terminal event was saved.
  abbrev pub IsSound : List (Call F) → Type 0
  IsSound [] = Unit
  IsSound (save_lifecycle_event e answer ∷ cs) =
      RouteFacts e × IsScanSource e.event_source × IsSound cs
  IsSound (mark_recovery_resolved order state at answer ∷ cs) =
      JustEnded order state.status cs × IsSound cs
  IsSound (mark_recovery_expired order at text answer ∷ cs) =
      JustEnded order (codes "RECOVERY_EXPIRED") cs × IsSound cs
  IsSound (list_due_open_orders n ∷ cs) = IsSound cs
  IsSound (query_order o ∷ cs) = IsSound cs
  IsSound (query_trades o ∷ cs) = IsSound cs
  IsSound (cancel_order o ∷ cs) = IsSound cs

  -- The events that the store took.
  abbrev pub saved_count : List (Call F) → ℕ
  saved_count [] = 0
  saved_count (save_lifecycle_event e none ∷ cs) = suc (saved_count cs)
  saved_count (_ ∷ cs) = saved_count cs

  -- From s, with w events counted before, a part of a scan keeps its calls sound and counts the
  -- events that the store took.
  pub record Accounts (w : ℕ) (s : ScannerState F) (o : Outcome F) : Type 0 where
    pub sound : IsSound o.after.calls
    pub counted : saved_count o.after.calls + w ≡ saved_count s.calls + o.written
