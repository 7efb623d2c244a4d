-- ===== src/Executor/Accounted.antt =====
-- What the adapter router's answers are worth to PlaceOrder and to recovery.
use core_service.Prelude.{
  ◌≡◌, ◌≢◌, ◌⊎◌, refl, inl, inr, true, false, List, [], ◌∷◌, arith, Bool-cases, Option-cases,
  Result, ok, err,
}
use mathlib.Core.Path.{subst}
use core_service.Text.{is_empty}
use core_service.Float.{Float64, sub, abs, lt, le, zero, tiny}
use core_service.Lifecycle.Events.{FillDelta, OrderState}
use core_service.Placement.Model.{Meta}
use core_service.Placement.World.{RecoveryRequest, OrderResult, Lookup, found, absent, unanswered}
use core_service.Executor.Adapter.{
  OrderStateReader, AdapterRouter, QueryOrderRequest, QueryTradesRequest, first_trimmed,
  route_from_meta, fills_of, from_adapter_order_state,
}
use core_service.Executor.Resolve.{
  trade_qty, recovered_fill_pending_message, resolve_traded, resolve_state, resolve_reading,
  order_query, adapter_resolve,
}

module _ {F : Type 0} ⦃fl : Float64 F⦄ where
  -- The trades make up the executed quantity, up to 1e-12; nothing executed needs none.
  abbrev pub AddUp : F → List (FillDelta F) → Type 0
  AddUp executed trades =
      (le executed zero ≡ true)
      ⊎ ((trades ≢ []) × (lt tiny (abs (sub (trade_qty zero trades) executed)) ≡ false))

  -- The result is that of trades that add up.
  abbrev pub IsAccounted : OrderResult F → Type 0
  IsAccounted result =
      (trades : List (FillDelta F)) × (result.fills ≡ fills_of trades)
      × AddUp result.executed_qty trades

  silent-AddUp :
      (state : OrderState F) (trades : List (FillDelta F))
      → is_empty (recovered_fill_pending_message state trades) ≡ true
      → AddUp state.executed_qty trades
  unfolding recovered_fill_pending_message
  silent-AddUp state [] h = ground arith
  silent-AddUp state (fill ∷ fills) h = ground arith

  -- A result is pending and states no fill, or states fills that add up.
  abbrev pub IsSafe : OrderResult F → Type 0
  IsSafe result =
      ((result.fill_pending ≡ true) × (result.fills ≡ []))
      ⊎ ((result.fill_pending ≡ false) × IsAccounted result)

  -- The trades are those that the route's exchange answered, of the order that it reported with the
  -- executed quantity when it was asked for the request's order.
  pub record IsRead (r : AdapterRouter F) (req : RecoveryRequest) (meta : Meta F) (executed : F)
      (trades : List (FillDelta F)) : Type 0 where
    pub reader : OrderStateReader F
    pub routed : r.order_state_reader (route_from_meta meta) ≡ ok reader
    pub order : QueryOrderRequest
    pub order_asked :
        (order.account_id ≡ req.account_id)
        × (order.venue_id ≡ meta.venue_id)
        × (order.client_order_id ≡ req.client_order_id)
        × (order.exchange_order_id ≡ req.exchange_order_id)
    pub state : OrderState F
    pub order_read : reader.query_order order ≡ found state
    pub executed_read : executed ≡ state.executed_qty
    pub query : QueryTradesRequest
    pub trades_asked :
        (query.account_id ≡ req.account_id)
        × (query.venue_id ≡ meta.venue_id)
        × (query.exchange_order_id
            ≡ first_trimmed (req.exchange_order_id ∷ state.exchange_order_id ∷ []))
    pub trades_read : reader.query_trades query ≡ ok trades

  -- A result is pending and states no fill, or states the trades that were read, which add up.
  abbrev pub IsSafeRead : AdapterRouter F → RecoveryRequest → Meta F → OrderResult F → Type 0
  IsSafeRead r req meta result =
      ((result.fill_pending ≡ true) × (result.fills ≡ []))
      ⊎ ((result.fill_pending ≡ false)
          × (trades : List (FillDelta F)) × (result.fills ≡ fills_of trades)
          × AddUp result.executed_qty trades
          × IsRead r req meta result.executed_qty trades)

  module _ (r : AdapterRouter F) (req : RecoveryRequest) (meta : Meta F) where
    abbrev SafeIfFound : Lookup (OrderResult F) → Type 0
    SafeIfFound (found result) = IsSafeRead r req meta result
    SafeIfFound absent = Unit
    SafeIfFound (unanswered text) = Unit

    resolve_traded-SafeIfFound :
        (state : OrderState F) (trades : Result (List (FillDelta F)))
        → ((ts : List (FillDelta F)) → trades ≡ ok ts → IsRead r req meta state.executed_qty ts)
        → SafeIfFound (resolve_traded state trades)
    unfolding resolve_traded from_adapter_order_state fills_of
    resolve_traded-SafeIfFound state (err text) known = inl (refl, refl)
    resolve_traded-SafeIfFound state (ok trades) known =
        elim (Bool-cases (is_empty (recovered_fill_pending_message state trades))) [
          | inl silent ↦
              rw (resolve_traded, silent)
                (inr (refl, trades, refl, silent-AddUp state trades silent, known trades refl))
          | inr told ↦ rw (resolve_traded, told) (inl (refl, refl))
        ]

    resolve_state-SafeIfFound :
        (reader : OrderStateReader F) (state : Lookup (OrderState F))
        → r.order_state_reader (route_from_meta meta) ≡ ok reader
        → reader.query_order (order_query req meta) ≡ state
        → SafeIfFound (resolve_state reader req meta state)
    unfolding resolve_state
    resolve_state-SafeIfFound reader absent routed asked = tt
    resolve_state-SafeIfFound reader (unanswered text) routed asked = tt
    resolve_state-SafeIfFound reader (found state) routed asked =
        resolve_traded-SafeIfFound state _ λ ts traded. record {
          reader = reader;
          routed = routed;
          order = order_query req meta;
          order_asked = (refl, refl, refl, refl);
          state = state;
          order_read = asked;
          executed_read = refl;
          query = _;
          trades_asked = (refl, refl, refl);
          trades_read = traded;
        }

    resolve_reading-SafeIfFound :
        (reading : Result (OrderStateReader F))
        → r.order_state_reader (route_from_meta meta) ≡ reading
        → SafeIfFound (resolve_reading r req meta reading)
    unfolding resolve_reading
    resolve_reading-SafeIfFound (err text) routed = tt
    resolve_reading-SafeIfFound (ok reader) routed =
        elim (Option-cases (r.parse_credential (route_from_meta meta) meta)) [
          | inl valid ↦ rw (resolve_reading, valid) (resolve_state-SafeIfFound reader _ routed refl)
          | inr (text, invalid) ↦ rw (resolve_reading, invalid) tt
        ]

    pub adapter_resolve-IsSafeRead :
        (result : OrderResult F)
        → adapter_resolve r req meta ≡ found result
        → IsSafeRead r req meta result
    unfolding adapter_resolve
    adapter_resolve-IsSafeRead result h = subst SafeIfFound h (resolve_reading-SafeIfFound _ refl)

  -- Whatever the exchange reports of an order, recovery gets a result that is pending and states no
  -- fill, or one whose fills are those of trades that add up to the executed quantity, up to 1e-12,
  -- unless nothing was executed.
  pub adapter_resolve-IsSafe :
      (r : AdapterRouter F) (req : RecoveryRequest) (meta : Meta F) (result : OrderResult F)
      → adapter_resolve r req meta ≡ found result
      → IsSafe result
  adapter_resolve-IsSafe r req meta result h =
      elim (adapter_resolve-IsSafeRead r req meta result h) [
        | inl pending ↦ inl pending
        | inr (complete, trades, same, add_up, read) ↦ inr (complete, (trades, same, add_up))
      ]
