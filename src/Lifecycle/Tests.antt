-- ===== src/Lifecycle/Tests.antt =====
-- Runs of the scanner, the stream, the cancellation and the matcher, and the theorems at concrete
-- inputs.
use core_service.Prelude.{
  suc, ℕ, ◌≡◌, refl, ◌↔◌, ◌⊎◌, true, false, Option, none, some, List, [], ◌∷◌, arith, Result, ok,
  err,
}
use core_service.Prelude.Int.{ℤ, pos, ◌+ℤ◌}
use core_service.Text.{
  Text, codes, normal, one_of, text_eq, to_upper, trim_space, upper_byte, first_non_empty,
}
use core_service.Float.Fixed.{units, fixed}
use core_service.Lifecycle.Events.{
  FillDelta, OrderState, Event, Time, rest_recovery_source, is_allowed_event_source,
  validate_event_route_facts,
}
use core_service.Lifecycle.Events.Facts.{RouteFacts, validate_iff}
use core_service.Lifecycle.Identity.{order_ref, trade_ref, event_identity_key}
use core_service.Lifecycle.Identity.Trade.{IsTrade, trade_identity_iff}
use core_service.Lifecycle.Scanner.Model.{
  OpenOrder, Scanner, ScannerStore, OrderStateReader, ScannerConfig, ScannerState,
  new_scanner_with_canceller,
}
use core_service.Lifecycle.Scanner.Orders.{
  filled_statuses, fill_event, timed_fill, order_recovery_deadline, is_terminal_order_state,
  terminal_order_status, has_fill_delta, has_complete_fill_details, trades_total, terminal_event,
  enrich_open_order_from_state, enrich_order_state_from_open_order,
}
use core_service.Lifecycle.Scanner.Scan.{
  save_valid, write_fill_events, write_terminal_event, recover_fills, recover_terminal,
  recover_known, scan_order, scan_orders, scan_once,
}
use core_service.Lifecycle.Scanner.Trace.{Accounts}
use core_service.Lifecycle.Scanner.Trace.Whole.{scan_once-Accounts}
use core_service.Lifecycle.Scanner.Spared.{concern_count}
use core_service.Lifecycle.Scanner.Backoff.{
  new_scanner_with_canceller-HasDelay, failed_query_silences_venue,
}
use core_service.Lifecycle.Scanner.Recovery.{fill_count, trade_queries, other_status_no_fills}
use core_service.Lifecycle.Backtest.{BacktestBar, BacktestLimitOrder, match_backtest_limit_gtc}
use core_service.Lifecycle.Backtest.Matching.{IsFilled, IsResting, match_all_or_nothing}
use core_service.Lifecycle.Cancel.{CancelTarget, attempt_limit, start, cancel_open_orders}
use core_service.Lifecycle.Cancel.Attempts.{Stopped, cancel_open_orders-Stopped}
use core_service.Lifecycle.UserData.{
  UserDataOrderEvent, UserDataIngestStore, ingested_event, ingest, is_terminal_user_data_status,
}
use core_service.Lifecycle.UserData.Ingested.{IsIngested, ingest_lem, stream_and_recovery_agree}

abbrev open_order : OpenOrder
open_order = record {
  session_id = [];
  account_id = pos 7;
  venue_id = pos 3;
  environment = pos 1;
  exchange = pos 1;
  market = pos 2;
  position_side = pos 0;
  side = codes "BUY";
  intent_id = [];
  attempt_id = [];
  order_id = codes "o-1";
  exchange_order_id = codes "ex-1";
  client_order_id = [];
  symbol = codes "BTCUSDT";
  recovery_status = [];
  recovery_started_at = pos 0;
  next_check_at = pos 0;
  recovery_deadline_at = pos 0;
  last_recovery_error = [];
}

abbrev reported : Text → ℕ → OrderState ℤ
reported status executed = record {
  exchange_order_id = codes "ex-1";
  client_order_id = [];
  symbol = [];
  status = status;
  orig_qty = units 2;
  executed_qty = units executed;
  remaining_qty = units 1;
  avg_price = units 100;
  updated_at = pos 8;
}

abbrev fill : FillDelta ℤ
fill = record {
  exchange_trade_id = codes "t-9";
  exchange_order_id = codes "ex-1";
  symbol = [];
  qty = units 2;
  fill_price = units 100;
  fee = units 0;
  fee_asset = [];
  fee_missing = false;
  trade_time = pos 0;
}

abbrev store : ScannerStore ℤ
store = record {
  list_due = λ calls n. ok (open_order ∷ open_order ∷ []);
  save_event = λ calls e. none;
  mark_expired = λ calls order at text. none;
  mark_resolved = λ calls order state at. none;
}

-- A reader that reports the state, and the one fill.
abbrev reader : Result (OrderState ℤ) → OrderStateReader ℤ
reader state = record { query = λ calls order. state; trades = λ calls order. ok (fill ∷ []) }

abbrev no_config : ScannerConfig
no_config = record {
  batch_size = pos 0;
  initial_backoff = pos 0;
  max_backoff = pos 0;
  recovery_deadline = pos 0;
}

scanner : Result (OrderState ℤ) → Scanner ℤ
scanner state = new_scanner_with_canceller store (reader state) none no_config

abbrev fresh : ScannerState ℤ
fresh = record { calls = []; venue_backoff = λ venue. none }

-- Both orders are filled: a fill and a terminal event for each.
filled_scan_writes_four :
    (scan_once (scanner (ok (reported (codes " filled") 2))) (pos 10) (pos 10) fresh).written ≡ 4
unfolding scanner new_scanner_with_canceller scan_once scan_orders scan_order
    order_recovery_deadline ◌+ℤ◌ recover_known recover_fills recover_terminal save_valid
    write_fill_events write_terminal_event terminal_event fill_event has_fill_delta
    has_complete_fill_details trades_total is_terminal_order_state terminal_order_status
    enrich_open_order_from_state enrich_order_state_from_open_order validate_event_route_facts
    is_allowed_event_source first_non_empty normal to_upper upper_byte trim_space text_eq one_of
filled_scan_writes_four = refl

scan_once-Accounts_example :
    Accounts 0 fresh
      (scan_once (scanner (ok (reported (codes " filled") 2))) (pos 10) (pos 10) fresh)
scan_once-Accounts_example =
    scan_once-Accounts (scanner (ok (reported (codes " filled") 2))) (pos 10) (pos 10) fresh tt

-- An order of another venue, and another of the same, follow.
failed_query_silences_venue_example :
    let sc = scanner (err (codes "timeout")) in
    let others = record open_order { venue_id = pos 4 } ∷ open_order ∷ [] in
    concern_count
      (pos 3)
      (scan_orders sc (open_order ∷ others) (pos 10) (pos 10) 0 fresh).after.calls
    ≡ suc (concern_count (pos 3) fresh.calls)
unfolding scanner new_scanner_with_canceller order_recovery_deadline
failed_query_silences_venue_example =
    failed_query_silences_venue (scanner (err (codes "timeout"))) open_order
      (record open_order { venue_id = pos 4 } ∷ open_order ∷ []) (pos 10) (pos 10) 0 fresh
      (new_scanner_with_canceller-HasDelay store (reader (err (codes "timeout"))) none no_config)
      refl refl refl

canceled_is_other : one_of (normal (codes "canceled")) filled_statuses ≡ false
unfolding normal to_upper upper_byte trim_space text_eq one_of
canceled_is_other = refl

-- A cancelled order of which half was executed.
other_status_no_fills_example :
    let sc = scanner (ok (reported (codes "canceled") 1)) in
    let after =
      (recover_known sc open_order (reported (codes "canceled") 1) (pos 10) (pos 10) fresh).after in
    (fill_count after.calls ≡ 0) × (trade_queries after.calls ≡ 0)
other_status_no_fills_example =
    other_status_no_fills (scanner (ok (reported (codes "canceled") 1))) open_order
      (reported (codes "canceled") 1) (pos 10) (pos 10) fresh canceled_is_other

abbrev update : UserDataOrderEvent ℤ
update = record {
  event_source = [];
  event_time = pos 8;
  symbol = codes "BTCUSDT";
  client_order_id = [];
  exchange_order_id = codes "ex-1";
  exchange_trade_id = codes "t-9";
  side = [];
  position_side = [];
  order_type = [];
  time_in_force = [];
  order_status = codes "PARTIALLY_FILLED";
  execution_type = codes "trade";
  last_filled_qty = units 1;
  last_filled_price = units 100;
  accumulated_filled_qty = units 1;
  fee = units 0;
  fee_asset = [];
  reduce_only = false;
}

abbrev rfc3339 : Time → Text
rfc3339 t = codes "T"

stream_and_recovery_agree_example :
    event_identity_key rfc3339 (ingested_event open_order update (pos 8))
    ≡ event_identity_key rfc3339 (
        fill_event open_order
          (reported (codes "FILLED") 2)
          (timed_fill fill (pos 10))
          rest_recovery_source)
unfolding trim_space
stream_and_recovery_agree_example =
    stream_and_recovery_agree rfc3339 open_order open_order update (reported (codes "FILLED") 2)
      fill rest_recovery_source (pos 8) (pos 10) refl refl (λ e. cc) (λ e. cc)

abbrev streamed : Event ℤ
streamed = ingested_event open_order update (pos 8)

abbrev recovered : Event ℤ
recovered = fill_event open_order (reported (codes "FILLED") 2) fill rest_recovery_source

streamed-IsTrade : IsTrade streamed
unfolding order_ref trade_ref ingested_event first_non_empty trim_space
streamed-IsTrade = record { ordered = λ e. cc; traded = λ e. cc }

recovered-IsTrade : IsTrade recovered
unfolding order_ref trade_ref fill_event first_non_empty trim_space
recovered-IsTrade = record { ordered = λ e. cc; traded = λ e. cc }

trade_identity_iff_example :
    (event_identity_key rfc3339 streamed ≡ event_identity_key rfc3339 recovered) ↔ (
      (to_upper (order_ref streamed) ≡ to_upper (order_ref recovered))
      × (to_upper (trade_ref streamed) ≡ to_upper (trade_ref recovered)))
unfolding order_ref ingested_event fill_event first_non_empty trim_space to_upper upper_byte
trade_identity_iff_example =
    trade_identity_iff rfc3339 streamed recovered streamed-IsTrade recovered-IsTrade (ground arith)
      (ground arith)

validate_iff_example : (validate_event_route_facts recovered ≡ none) ↔ RouteFacts recovered
validate_iff_example = validate_iff recovered

abbrev ingest_store : UserDataIngestStore ℤ
ingest_store = record {
  resolve_open_order = λ venue exchange_order client_order. ok open_order;
  save_event = λ e. none;
}

update_ingested : (ingest ingest_store (pos 3) update (pos 9)).1 ≡ some streamed
unfolding ingest ingested_event is_terminal_user_data_status validate_event_route_facts
    is_allowed_event_source first_non_empty normal to_upper upper_byte trim_space text_eq one_of
update_ingested = refl

ingest_lem_example : IsIngested ingest_store (pos 3) update streamed
ingest_lem_example = ingest_lem ingest_store (pos 3) update (pos 9) streamed update_ingested

abbrev target : Text → CancelTarget
target order = record {
  session_id = [];
  account_id = pos 7;
  venue_id = pos 3;
  order_id = order;
  exchange_order_id = [];
  client_order_id = [];
  symbol = [];
}

-- The exchange takes the first two cancellations, and none behind them.
abbrev two_cancels : List CancelTarget → CancelTarget → Option Text
two_cancels [] t = none
two_cancels (a ∷ []) t = none
two_cancels (a ∷ b ∷ attempts) t = some (codes "down")

cancel_open_orders-Stopped_example :
    Stopped two_cancels 2
      (target (codes "a") ∷ target (codes "b") ∷ target (codes "c") ∷ [])
      start
      (cancel_open_orders two_cancels
        (target (codes "a") ∷ target (codes "b") ∷ target (codes "c") ∷ [])
        (pos 0))
unfolding attempt_limit
cancel_open_orders-Stopped_example =
    cancel_open_orders-Stopped two_cancels
      (target (codes "a") ∷ target (codes "b") ∷ target (codes "c") ∷ []) (pos 0) 2 refl

abbrev bar : BacktestBar ℤ
bar = record {
  symbol = codes "BTCUSDT";
  time = pos 60;
  opening = units 101;
  high = units 103;
  low = units 99;
  close = units 102;
}

abbrev limit_order : BacktestLimitOrder ℤ
limit_order = record {
  session_id = [];
  account_id = pos 7;
  venue_id = pos 3;
  environment = pos 0;
  exchange = pos 1;
  market = pos 2;
  position_side = pos 0;
  intent_id = [];
  attempt_id = [];
  order_id = codes "o-2";
  exchange_order_id = [];
  client_order_id = [];
  symbol = [];
  side = codes "buy";
  qty = units 2;
  limit_price = units 100;
  fee_rate = pos 1000;
}

match_all_or_nothing_example :
    let r = match_backtest_limit_gtc limit_order bar in
    ((r.filled ≡ true) × IsFilled limit_order bar r)
    ⊎ ((r.filled ≡ false) × IsResting limit_order bar r)
match_all_or_nothing_example = match_all_or_nothing limit_order bar
