-- ===== src/Executor/Tests.antt =====
-- Runs of the adapter router, and its theorems at concrete inputs.
use core_service.Prelude.{◌≡◌, refl, none, [], ◌∷◌, ok, err}
use core_service.Prelude.Int.{ℤ, pos, ◌+ℤ◌, ◌-ℤ◌}
use core_service.Text.{codes, trim_space}
use core_service.Float.Fixed.{fixed}
use core_service.Placement.Model.{recovered, done, fail, PlaceOrderResponse}
use core_service.Placement.World.{RecoveryRequest, OrderResult, found, World}
use core_service.Placement.Answer.{Handled, build_place_order_response}
use core_service.Placement.Resolve.{resolve_attempt}
use core_service.Placement.Samples.{account, attempt, execution, world, reported, read_trade}
use core_service.Executor.Adapter.{AdapterRouter, OrderStateReader, from_adapter_order_state}
use core_service.Executor.Resolve.{adapter_resolve}
use core_service.Executor.Accounted.{IsSafe, adapter_resolve-IsSafe}
use core_service.Executor.Recovered.{HasTrades, resolve_attempt-HasTrades}

-- An exchange that has filled the order in one trade, and takes no other.
abbrev reader : OrderStateReader ℤ
reader = record { query_order = λ q. found reported; query_trades = λ q. ok (read_trade ∷ []) }

abbrev router : AdapterRouter ℤ
router = record {
  order_executor = λ route. err (codes "no executor");
  order_state_reader = λ route. ok reader;
  parse_credential = λ route m. none;
}

abbrev query : RecoveryRequest
query = record {
  account_id = pos 7;
  symbol = codes "BTCUSDT";
  client_order_id = codes "h-i1-a1";
  exchange_order_id = [];
}

abbrev recovered_result : OrderResult ℤ
recovered_result = from_adapter_order_state reported (read_trade ∷ [])

resolve_run : adapter_resolve router query account ≡ found recovered_result
unfolding adapter_resolve ◌-ℤ◌ ◌+ℤ◌
resolve_run = refl

adapter_resolve-IsSafe_example : IsSafe recovered_result
adapter_resolve-IsSafe_example =
    adapter_resolve-IsSafe router query account recovered_result resolve_run

abbrev recovering_world : World ℤ
recovering_world = record (world (ok execution)) {
  resolves = λ calls req m. adapter_resolve router req m;
}

abbrev recovery : Handled ℤ
recovery = resolve_attempt recovering_world account (pos 9) (codes "s-1") (pos 2) attempt []

-- The response of a handler, which an error does not have.
abbrev response_of : Handled ℤ → PlaceOrderResponse ℤ
response_of o = elim o.reply [
  | fail e ↦ build_place_order_response attempt none []
  | done response ↦ response
]

recovery_run : recovery.reply ≡ done (response_of recovery)
unfolding resolve_attempt ◌-ℤ◌ ◌+ℤ◌ trim_space adapter_resolve
recovery_run = refl

recovered_run : (response_of recovery).attempt_status ≡ recovered
unfolding resolve_attempt ◌-ℤ◌ ◌+ℤ◌ trim_space adapter_resolve
recovered_run = refl

resolve_attempt-HasTrades_example : HasTrades router account attempt (response_of recovery)
resolve_attempt-HasTrades_example =
    resolve_attempt-HasTrades recovering_world account (pos 9) (codes "s-1") (pos 2) router
      (λ calls req m. refl) attempt [] (response_of recovery) recovery_run recovered_run
