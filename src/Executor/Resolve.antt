-- ===== src/Executor/Resolve.antt =====
-- internal/order/executor/adapter_router.go: Execute and Resolve.
use core_service.Prelude.{true, none, some, List, [], ◌∷◌, ◌++◌, if◌then◌else◌, Result, ok, err}
use core_service.Text.{Text, codes, is_empty}
use core_service.Float.{Float64, add, sub, abs, lt, le, zero, tiny, print_g}
use core_service.Lifecycle.Events.{FillDelta, OrderState}
use core_service.Placement.Model.{Meta}
use core_service.Placement.World.{
  OrderRequest, RecoveryRequest, OrderResult, Lookup, found, absent, unanswered,
}
use core_service.Executor.Adapter.{
  QueryOrderRequest, AdapterOrderRequest, AdapterOrderResult, OrderStateReader, AdapterRouter,
  first_trimmed, route_from_meta, to_adapter_order_request, from_adapter_order_result,
  failed_order_result, from_adapter_order_state,
}

module _ {F : Type 0} ⦃fl : Float64 F⦄ where
  -- The sum of the trades' quantities, from a sum so far.
  unfoldable pub trade_qty : F → List (FillDelta F) → F
  trade_qty sum [] = sum
  trade_qty sum (fill ∷ fills) = trade_qty (add sum (abs fill.qty)) fills

  -- The message of trades that do not account for what was executed, or none.
  unfoldable pub recovered_fill_pending_message : OrderState F → List (FillDelta F) → Text
  unfolding trade_qty
  recovered_fill_pending_message state [] =
      if le state.executed_qty zero
      then []
      else codes "order trades pending: executed_qty="
        ++ (print_g state.executed_qty ++ codes " trade_qty=0")
  recovered_fill_pending_message state (fill ∷ fills) =
      let total = trade_qty zero (fill ∷ fills) in
      if le state.executed_qty zero
      then []
      else if lt tiny (abs (sub total state.executed_qty))
      then codes "order trades inconsistent: executed_qty="
        ++ (print_g state.executed_qty ++ (codes " trade_qty=" ++ print_g total))
      else []

  abbrev pub pending_result : OrderState F → Text → OrderResult F
  pending_result state message = record (from_adapter_order_state state []) {
    fill_pending = true;
    error_message = message;
  }

  -- The state is known, and the trades, or the error of their query.
  unfoldable pub resolve_traded :
      OrderState F → Result (List (FillDelta F)) → Lookup (OrderResult F)
  unfolding recovered_fill_pending_message from_adapter_order_state
  resolve_traded state (err text) = found (pending_result state text)
  resolve_traded state (ok trades) =
      let message = recovered_fill_pending_message state trades in
      if is_empty message
      then found (from_adapter_order_state state trades)
      else found (pending_result state message)

  unfoldable pub resolve_state :
      OrderStateReader F → RecoveryRequest → Meta F → Lookup (OrderState F) → Lookup (OrderResult F)
  unfolding resolve_traded first_trimmed
  resolve_state reader req meta absent = absent
  resolve_state reader req meta (unanswered text) = unanswered text
  resolve_state reader req meta (found state) = resolve_traded state (
      reader.query_trades (record {
        account_id = req.account_id;
        venue_id = meta.venue_id;
        symbol = first_trimmed (req.symbol ∷ state.symbol ∷ []);
        exchange_order_id = first_trimmed (req.exchange_order_id ∷ state.exchange_order_id ∷ []);
      }))

  abbrev pub order_query : RecoveryRequest → Meta F → QueryOrderRequest
  order_query req meta = record {
    account_id = req.account_id;
    venue_id = meta.venue_id;
    symbol = req.symbol;
    client_order_id = req.client_order_id;
    exchange_order_id = req.exchange_order_id;
  }

  unfoldable pub resolve_reading :
      AdapterRouter F
      → RecoveryRequest
      → Meta F
      → Result (OrderStateReader F)
      → Lookup (OrderResult F)
  unfolding resolve_state route_from_meta
  resolve_reading r req meta (err text) = unanswered text
  resolve_reading r req meta (ok reader) = elim (r.parse_credential (route_from_meta meta) meta) [
    | some text ↦ unanswered text
    | none ↦ resolve_state reader req meta (reader.query_order (order_query req meta))
  ]

  -- Resolve
  unfoldable pub adapter_resolve :
      AdapterRouter F → RecoveryRequest → Meta F → Lookup (OrderResult F)
  unfolding resolve_reading
  adapter_resolve r req meta =
      resolve_reading r req meta (r.order_state_reader (route_from_meta meta))

  unfoldable pub execute_answered : Result (AdapterOrderResult F) → Result (OrderResult F)
  unfolding from_adapter_order_result
  execute_answered (err text) = err text
  execute_answered (ok result) = ok (from_adapter_order_result result)

  unfoldable pub execute_with :
      AdapterRouter F
      → OrderRequest F
      → Meta F
      → Result (AdapterOrderRequest F → Result (AdapterOrderResult F))
      → Result (OrderResult F)
  unfolding execute_answered to_adapter_order_request failed_order_result route_from_meta
  execute_with r req meta (err text) = ok (failed_order_result text)
  execute_with r req meta (ok place) = elim (r.parse_credential (route_from_meta meta) meta) [
    | some text ↦ ok (failed_order_result text)
    | none ↦ execute_answered (place (to_adapter_order_request req meta))
  ]

  -- Execute
  unfoldable pub adapter_execute :
      AdapterRouter F → OrderRequest F → Meta F → Result (OrderResult F)
  unfolding execute_with
  adapter_execute r req meta = execute_with r req meta (r.order_executor (route_from_meta meta))
