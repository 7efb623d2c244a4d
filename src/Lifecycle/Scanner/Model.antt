-- ===== src/Lifecycle/Scanner/Model.antt =====
-- internal/order/lifecycle/scanner.go: the open order, the collaborators, the configuration and
-- the scanner's state.
use core_service.Prelude.{ℕ, ◌*◌, Bool, false, Option, none, some, List, ◌∷◌, if◌then◌else◌, Result}
use core_service.Prelude.Int.{ℤ, pos, leb_ℤ, ltb_ℤ, eqb_ℤ, ◌+ℤ◌}
use core_service.Text.{Text}
use core_service.Lifecycle.Events.{Event, FillDelta, OrderState, Time}

pub record OpenOrder : Type 0 where
  pub session_id : Text
  pub account_id : ℤ
  pub venue_id : ℤ
  pub environment : ℤ
  pub exchange : ℤ
  pub market : ℤ
  pub position_side : ℤ
  pub side : Text
  pub intent_id : Text
  pub attempt_id : Text
  pub order_id : Text
  pub exchange_order_id : Text
  pub client_order_id : Text
  pub symbol : Text
  pub recovery_status : Text
  pub recovery_started_at : Time
  pub next_check_at : Time
  pub recovery_deadline_at : Time
  pub last_recovery_error : Text

-- internal/order/lifecycle/cancel.go
pub record CancelResult : Type 0 where
  pub exchange_order_id : Text
  pub client_order_id : Text
  pub status : Text

-- A call of a collaborator. A write carries its error, or none.
pub data Call (F : Type 0) : Type 0 where
  list_due_open_orders : ℤ → Call F
  query_order query_trades cancel_order : OpenOrder → Call F
  save_lifecycle_event : Event F → Option Text → Call F
  mark_recovery_expired : Text → Time → Text → Option Text → Call F
  mark_recovery_resolved : Text → OrderState F → Time → Option Text → Call F

pub record ScannerStore (F : Type 0) : Type 0 where
  pub list_due : List (Call F) → ℤ → Result (List OpenOrder)
  pub save_event : List (Call F) → Event F → Option Text
  pub mark_expired : List (Call F) → Text → Time → Text → Option Text
  pub mark_resolved : List (Call F) → Text → OrderState F → Time → Option Text

pub record OrderStateReader (F : Type 0) : Type 0 where
  pub query : List (Call F) → OpenOrder → Result (OrderState F)
  pub trades : List (Call F) → OpenOrder → Result (List (FillDelta F))

-- The result is read also where there is an error.
pub record OrderRecoveryCanceller (F : Type 0) : Type 0 where
  pub cancel : List (Call F) → OpenOrder → CancelResult × Option Text

pub record ScannerConfig : Type 0 where
  pub batch_size : ℤ
  pub initial_backoff : ℤ
  pub max_backoff : ℤ
  pub recovery_deadline : ℤ

pub record Scanner (F : Type 0) : Type 0 where
  pub store : ScannerStore F
  pub reader : OrderStateReader F
  pub canceller : Option (OrderRecoveryCanceller F)
  pub cfg : ScannerConfig

abbrev positive_or : ℤ → ℤ → ℤ
positive_or n default = if leb_ℤ n (pos 0) then default else n

-- The defaults: 50 orders, 5 s, 60 s, 14 days.
unfoldable pub new_scanner_with_canceller :
    {F : Type 0}
    → ScannerStore F
    → OrderStateReader F
    → Option (OrderRecoveryCanceller F)
    → ScannerConfig
    → Scanner F
new_scanner_with_canceller store reader canceller cfg = record {
  store = store;
  reader = reader;
  canceller = canceller;
  cfg = record {
    batch_size = positive_or cfg.batch_size (pos 50);
    initial_backoff = positive_or cfg.initial_backoff (pos (5 * 1_000_000_000));
    max_backoff = positive_or cfg.max_backoff (pos (60 * 1_000_000_000));
    recovery_deadline = positive_or cfg.recovery_deadline (pos (14 * 24 * 3600 * 1_000_000_000));
  };
}

-- The calls made so far, latest first, and the map venueBackoff.
pub record ScannerState (F : Type 0) : Type 0 where
  pub calls : List (Call F)
  pub venue_backoff : ℤ → Option Time

abbrev pub called : {F : Type 0} → Call F → ScannerState F → ScannerState F
called c s = record s { calls = c ∷ s.calls }

-- What a part of a scan leaves: go on with the order, take the next order, or return the error.
pub data Flow : Type 0 where
  go_on next_order : Flow
  return_error : Text → Flow

pub record Outcome (F : Type 0) : Type 0 where
  pub written : ℕ
  pub flow : Flow
  pub after : ScannerState F

unfoldable pub backoff_delay : ScannerConfig → ℤ
backoff_delay cfg =
    if ltb_ℤ cfg.max_backoff cfg.initial_backoff then cfg.max_backoff else cfg.initial_backoff

-- s.backoffVenue(venueID, now)
unfoldable pub backoff_venue :
    {F : Type 0} → ScannerConfig → ℤ → Time → ScannerState F → ScannerState F
unfolding ◌+ℤ◌ backoff_delay
backoff_venue cfg venue now s = record s {
  venue_backoff = λ v. if eqb_ℤ v venue then some (now +ℤ backoff_delay cfg) else s.venue_backoff v;
}

-- The venue's backoff has not ended.
abbrev pub in_backoff : {F : Type 0} → ScannerState F → ℤ → Time → Bool
in_backoff s venue now = elim (s.venue_backoff venue) [
  | none ↦ false
  | some until ↦ ltb_ℤ now until
]
