-- ===== src/Executor/Handed.antt =====
-- What an order request comes to at the adapter router: the exchange is asked, or the order is kept
-- back.
use core_service.Prelude.{
  ◌≡◌, ◌⊎◌, refl, ap, map, inl, inr, none, some, List, [], ◌∷◌, Result, ok, err,
}
use core_service.Text.{Text, codes}
use core_service.Float.{Float64}
use core_service.Lifecycle.Events.{FillDelta}
use core_service.Placement.Model.{Meta}
use core_service.Placement.World.{OrderRequest, OrderResult}
use core_service.Executor.Adapter.{
  AdapterOrderRequest, AdapterOrderResult, AdapterRouter, route_from_meta, to_adapter_order_request,
  from_adapter_order_result, fills_of, failed_order_result,
}
use core_service.Executor.Resolve.{execute_answered}

module _ {F : Type 0} ⦃fl : Float64 F⦄ where
  -- What the exchange is asked: the order as it was requested, on the account's venue.
  pub record IsAsked (req : OrderRequest F) (meta : Meta F) (asked : AdapterOrderRequest F)
      : Type 0 where
    pub route :
        (asked.account_id ≡ req.account_id)
        × (asked.venue_id ≡ meta.venue_id)
        × (asked.user_id ≡ meta.user_id)
    pub named : (asked.symbol ≡ req.symbol) × (asked.client_order_id ≡ req.client_order_id)
    pub ordered :
        (asked.side ≡ req.side)
        × (asked.order_type ≡ req.order_type)
        × (asked.time_in_force ≡ req.time_in_force)
        × (asked.reduce_only ≡ req.reduce_only)
        × (asked.qty ≡ req.qty)
        × (asked.price ≡ req.price)

  -- What the exchange answered reaches the service.
  pub record IsReported (result : AdapterOrderResult F) (reported : OrderResult F) : Type 0 where
    pub named :
        (reported.exchange_order_id ≡ result.exchange_order_id)
        × (reported.client_order_id ≡ result.client_order_id)
    pub status :
        (reported.status ≡ result.status)
        × (reported.executed_qty ≡ result.executed_qty)
        × (reported.error_message ≡ result.error_message)
        × (reported.fill_pending ≡ result.fill_pending)
    pub filled : map (λ f. f.qty) reported.fills ≡ map (λ f. f.qty) result.fills

  -- An answer with the exchange's error, or with what the exchange answered.
  abbrev pub Relays : Result (AdapterOrderResult F) → Result (OrderResult F) → Type 0
  Relays exchanged answer =
      ((text : Text) × (exchanged ≡ err text) × (answer ≡ err text))
      ⊎ ((result : AdapterOrderResult F) × (reported : OrderResult F) × (exchanged ≡ ok result)
          × (answer ≡ ok reported)
          × IsReported result reported)

  -- There is no exchange for the route, or its credential does not parse, with the error.
  abbrev pub HasNoExchange : AdapterRouter F → Meta F → Text → Type 0
  HasNoExchange r meta text =
      (r.order_executor (route_from_meta meta) ≡ err text)
      ⊎ ((place : AdapterOrderRequest F → Result (AdapterOrderResult F)) × (r.order_executor
              (route_from_meta meta)
            ≡ ok place)
          × (r.parse_credential (route_from_meta meta) meta ≡ some text))

  -- What an order request comes to: the exchange answers it, or it is a failure before the exchange.
  pub data IsExecuted (r : AdapterRouter F) (req : OrderRequest F) (meta : Meta F)
      (answer : Result (OrderResult F)) : Type 0 where
    handed :
        (place : AdapterOrderRequest F → Result (AdapterOrderResult F))
        → (asked : AdapterOrderRequest F) → r.order_executor (route_from_meta meta) ≡ ok place
        → r.parse_credential (route_from_meta meta) meta ≡ none
        → IsAsked req meta asked
        → Relays (place asked) answer
        → IsExecuted r req meta answer
    kept_back :
        (text : Text)
        → (reported : OrderResult F) → HasNoExchange r meta text
        → answer ≡ ok reported
        → (reported.exchange_order_id ≡ [])
          × (reported.fills ≡ [])
          × (reported.status ≡ codes "FAILED")
          × (reported.error_message ≡ text)
        → IsExecuted r req meta answer

  pub fills_of-qty :
      (trades : List (FillDelta F)) → map (λ f. f.qty) (fills_of trades) ≡ map (λ t. t.qty) trades
  unfolding fills_of
  fills_of-qty [] = refl
  fills_of-qty (trade ∷ trades) = ap (λ qs. trade.qty ∷ qs) (fills_of-qty trades)

  pub execute_answered-Relays :
      (exchanged : Result (AdapterOrderResult F)) → Relays exchanged (execute_answered exchanged)
  unfolding execute_answered from_adapter_order_result
  execute_answered-Relays (err text) = inl (text, refl, refl)
  execute_answered-Relays (ok result) = inr (
    result,
    from_adapter_order_result result,
    refl,
    refl,
    record {
      named = (refl, refl);
      status = (refl, refl, refl, refl);
      filled = fills_of-qty result.fills;
    },
  )

  pub to_adapter_order_request-IsAsked :
      (req : OrderRequest F) (meta : Meta F) → IsAsked req meta (to_adapter_order_request req meta)
  unfolding to_adapter_order_request
  to_adapter_order_request-IsAsked req meta = record {
    route = (refl, refl, refl);
    named = (refl, refl);
    ordered = (refl, refl, refl, refl, refl, refl);
  }

  pub kept_back-IsExecuted :
      (r : AdapterRouter F) (req : OrderRequest F) (meta : Meta F) (text : Text)
      → HasNoExchange r meta text
      → IsExecuted r req meta (ok (failed_order_result text))
  unfolding failed_order_result
  kept_back-IsExecuted r req meta text missing =
      kept_back text (failed_order_result text) missing refl (refl, refl, refl, refl)
