-- ===== src/Placement/Samples.antt =====
-- Requests, accounts and collaborators for runs.
use core_service.Prelude.{ℕ, true, false, none, [], ◌∷◌, Result, ok}
use core_service.Prelude.Int.{ℤ, pos}
use core_service.Text.{Text, codes}
use core_service.Float.Fixed.{units, fixed}
use core_service.Lifecycle.Events.{FillDelta, OrderState, Time}
use core_service.Lifecycle.Scanner.Model.{OpenOrder}
use core_service.Risk.Gate.{allowed}
use core_service.Placement.Model.{
  accepted, done, PlaceOrderRequest, Meta, OrderAttempt, Order, OrderFill,
  ResolveOrderAttemptRequest,
}
use core_service.Placement.World.{FillResult, OrderResult, absent, found, World}
use core_service.Placement.Contract.{OrderContract}
use core_service.Placement.Execution.{executed_fill, executed_order}
use core_service.Placement.Request.{Checked, pending_attempt}

abbrev pub account : Meta ℤ
account = record {
  account_id = pos 7;
  venue_id = pos 3;
  user_id = pos 5;
  environment = pos 1;
  exchange = pos 1;
  market = pos 2;
  margin_mode = codes "cross";
  position_mode = codes "one_way";
  default_fee_rate = units 0;
  slippage_bps = units 0;
}

abbrev pub request : PlaceOrderRequest ℤ
request = record {
  account_id = pos 7;
  symbol = codes "BTCUSDT";
  side = codes "buy";
  qty = units 2;
  price = none;
  mark_price = units 100;
  strategy_id = pos 9;
  market = pos 2;
  session_id = codes "s-1";
  intent_id = codes "i-1";
  exchange = pos 1;
  position_side = pos 0;
  order_type = [];
  time_in_force = [];
  market_time = none;
  post_only = false;
  good_till_date = none;
  reduce_only = false;
}

abbrev pub trade : FillResult ℤ
trade = record {
  exchange_trade_id = codes "t-9";
  qty = units 2;
  fill_price = units 100;
  fee = units 0;
  fee_missing = false;
}

abbrev pub execution : OrderResult ℤ
execution = record {
  exchange_order_id = codes "ex-1";
  client_order_id = [];
  symbol = codes "BTCUSDT";
  side = codes "BUY";
  order_type = codes "MARKET";
  time_in_force = [];
  status = codes "FILLED";
  orig_qty = units 2;
  executed_qty = units 2;
  remaining_qty = units 0;
  avg_price = units 100;
  price = units 0;
  fills = trade ∷ [];
  error_message = [];
  fill_pending = false;
}

-- Collaborators that take everything, and an exchange that answers as given.
abbrev pub world : Result (OrderResult ℤ) → World ℤ
world answer = record {
  meta = λ calls a e m. done account;
  session = λ calls m strategy session. none;
  upsert_intent = λ calls i. none;
  create_attempt = λ calls a. none;
  finalize = λ calls a o fills. none;
  finalize_rejected = none;
  review = λ calls q. ok (allowed (pos 1));
  executes = λ calls r m. answer;
  resolves = λ calls r m. absent;
  save_event = λ calls e. none;
  find_attempt = λ calls a intent attempt client. absent;
  find_order = λ calls attempt. absent;
  list_fills = λ calls attempt. ok [];
  now = λ calls. pos 1000;
  new_id = λ calls n. codes "id";
  quoted = λ s. s;
  rfc3339 = λ t. codes "now";
}

abbrev pub accepted_contract : OrderContract
accepted_contract = record { type_code = pos 1; order_type = codes "MARKET"; time_in_force = [] }

abbrev pub checked : Checked ℤ
checked = record { req = request; side = codes "BUY"; contract = accepted_contract }

abbrev pub attempt : OrderAttempt ℤ
attempt =
    pending_attempt account request (codes "BUY") (pos 1) (codes "i-1") (codes "a-1") (pos 1000)

abbrev pub pending_execution : OrderResult ℤ
pending_execution = record execution { fill_pending = true }

abbrev pub ids : ℕ → Text
ids n = codes "id"

-- A repository that has the attempt, settled.
abbrev pub settled_attempt : OrderAttempt ℤ
settled_attempt = record attempt { status = accepted }

abbrev pub settled_world : World ℤ
settled_world = record (world (ok execution)) {
  find_attempt = λ calls a intent named client. found settled_attempt;
}

abbrev pub recheck : ResolveOrderAttemptRequest
recheck = record {
  account_id = pos 7;
  intent_id = codes "i-1";
  attempt_id = [];
  client_order_id = [];
}

abbrev pub open_order : OpenOrder
open_order = record {
  session_id = codes "s-1";
  account_id = pos 7;
  venue_id = pos 3;
  environment = pos 1;
  exchange = pos 1;
  market = pos 2;
  position_side = pos 0;
  side = codes "BUY";
  intent_id = codes "i-1";
  attempt_id = codes "a-1";
  order_id = codes "o-1";
  exchange_order_id = codes "ex-1";
  client_order_id = [];
  symbol = codes "BTCUSDT";
  recovery_status = [];
  recovery_started_at = pos 0;
  next_check_at = pos 0;
  recovery_deadline_at = pos 0;
  last_recovery_error = [];
}

abbrev pub reported : OrderState ℤ
reported = record {
  exchange_order_id = codes "ex-1";
  client_order_id = [];
  symbol = [];
  status = codes "FILLED";
  orig_qty = units 2;
  executed_qty = units 2;
  remaining_qty = units 0;
  avg_price = units 100;
  updated_at = pos 8;
}

abbrev pub read_trade : FillDelta ℤ
read_trade = record {
  exchange_trade_id = codes "t-9";
  exchange_order_id = codes "ex-1";
  symbol = [];
  qty = units 2;
  fill_price = units 100;
  fee = units 0;
  fee_asset = [];
  fee_missing = false;
  trade_time = pos 0;
}

abbrev pub placed_fill : OrderFill ℤ
placed_fill =
    executed_fill account attempt (pos 9) (codes "s-1") (pos 2) execution (pos 1000) (codes "o-1")
      (codes "f-1") trade

abbrev pub placed : Order ℤ
placed =
    executed_order account attempt (pos 9) (codes "s-1") (pos 2) execution (pos 1000) (codes "o-1")

abbrev pub clock_text : Time → Text
clock_text t = codes "now"
