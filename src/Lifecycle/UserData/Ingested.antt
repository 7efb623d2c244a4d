-- ===== src/Lifecycle/UserData/Ingested.antt =====
-- What the user data stream writes, and that it agrees with REST recovery on what a trade is.
use core_service.Prelude.{
  ◌≡◌, ◌≢◌, inl, inr, ◌&&◌, some, [], arith, ok, Result-cases, if◌then◌else◌,
}
use core_service.Prelude.Int.{ℤ}
use core_service.Text.{Text, codes, trim_space, first_non_empty}
use core_service.Float.{Float64, lt, zero}
use core_service.Lifecycle.Events.{
  Event, FillDelta, OrderState, Time, is_zero_time, websocket_source,
}
use core_service.Lifecycle.Events.Facts.{RouteFacts, accepts→RouteFacts}
use core_service.Lifecycle.Identity.{order_ref, trade_ref, event_identity_key}
use core_service.Lifecycle.Identity.Trade.{agree_on_refs}
use core_service.Lifecycle.Scanner.Model.{OpenOrder}
use core_service.Lifecycle.Scanner.Orders.{fill_event, timed_fill}
use core_service.Lifecycle.Scanner.Orders.Refs.{
  not_blank, fill_event-order_ref, fill_event-trade_ref,
}
use core_service.Lifecycle.UserData.{
  UserDataOrderEvent, UserDataIngestStore, is_execution, ingested_event, ingest,
}

module _ {F : Type 0} ⦃fl : Float64 F⦄ where
  -- The event is an order's that the store knows, and states its route; it is a fill exactly for a
  -- trade with a quantity.
  pub record IsIngested (store : UserDataIngestStore F) (venue : ℤ) (event : UserDataOrderEvent F)
      (e : Event F) : Type 0 where
    pub known :
        (order : OpenOrder) × (store.resolve_open_order venue event.exchange_order_id
            event.client_order_id
          ≡ ok order)
        × (e.order_id ≡ order.order_id)
        × (e.account_id ≡ order.account_id)
    pub facts : RouteFacts e
    pub source : e.event_source ≡ websocket_source
    pub kind : e.event_type ≡ (
        if is_execution event && lt zero event.last_filled_qty
        then codes "fill"
        else codes "terminal")

  -- An event that reaches the store is one of an order that the store resolved from the update's
  -- references, states its route, names the stream as its source, and is a fill exactly for a trade
  -- with a quantity above zero.
  pub ingest_lem :
      (store : UserDataIngestStore F) (venue : ℤ) (event : UserDataOrderEvent F) (wall : Time)
      → (e : Event F) → (ingest store venue event wall).1 ≡ some e
      → IsIngested store venue event e
  unfolding ingest ingested_event
  ingest_lem store venue event wall e h =
      elim (Result-cases
        (store.resolve_open_order venue event.exchange_order_id event.client_order_id)) [
          | inl (order, known) ↦
              let at = if is_zero_time event.event_time then wall else event.event_time in
              record {
                known = (order, known, ground arith, ground arith);
                facts = ground (arith, accepts→RouteFacts (ingested_event order event at));
                source = ground arith;
                kind = ground arith;
              }
          | inr (text, unknown) ↦ ground arith
        ]

  stream_order :
      (order : OpenOrder) (event : UserDataOrderEvent F) (at : Time)
      → trim_space event.exchange_order_id ≢ []
      → order_ref (ingested_event order event at) ≡ trim_space event.exchange_order_id
  unfolding order_ref ingested_event first_non_empty
  stream_order order event at h = ground (arith, not_blank event.exchange_order_id h)

  stream_trade :
      (order : OpenOrder) (event : UserDataOrderEvent F) (at : Time)
      → trim_space event.exchange_trade_id ≢ []
      → trade_ref (ingested_event order event at) ≡ trim_space event.exchange_trade_id
  unfolding trade_ref ingested_event first_non_empty
  stream_trade order event at h = ground (arith, not_blank event.exchange_trade_id h)

  -- A trade that the stream reports and the same trade as REST recovery reads it (the same order and
  -- trade identifiers of the exchange, neither blank) have one identity key, so that the store can
  -- keep one of them, whatever else the two reports say.
  pub stream_and_recovery_agree :
      (rfc3339 : Time → Text) (order recovered : OpenOrder) (event : UserDataOrderEvent F)
      (state : OrderState F) (fill : FillDelta F) (source : Text) (at now : Time)
      → fill.exchange_order_id ≡ event.exchange_order_id
      → fill.exchange_trade_id ≡ event.exchange_trade_id
      → trim_space event.exchange_order_id ≢ []
      → trim_space event.exchange_trade_id ≢ []
      → event_identity_key rfc3339 (ingested_event order event at)
        ≡ event_identity_key rfc3339 (fill_event recovered state (timed_fill fill now) source)
  stream_and_recovery_agree rfc3339 order recovered event state fill source at now o t ho ht =
      let kept = timed_fill fill now in
      agree_on_refs rfc3339 (ingested_event order event at) (fill_event recovered state kept source)
        event.exchange_order_id event.exchange_trade_id ho ht (stream_order order event at ho)
        (rw⁻¹ o (fill_event-order_ref recovered state kept source (rw o ho)))
        (stream_trade order event at ht)
        (rw⁻¹ t (fill_event-trade_ref recovered state kept source (rw t ht)))
