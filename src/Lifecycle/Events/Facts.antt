-- ===== src/Lifecycle/Events/Facts.antt =====
-- What an event that passes ValidateEventRouteFacts states of itself.
use core_service.Prelude.{◌≡◌, refl, ◌↔◌, ◌⊎◌, ◌≢◌, true, none, [], arith}
use core_service.Prelude.Int.{pos, ◌≤ℤ◌}
use core_service.Text.{trim_space, codes, one_of, text_eq_iff, first_non_empty}
use core_service.Lifecycle.Events.{Event, is_allowed_event_source, validate_event_route_facts}

pub record RouteFacts {F : Type 0} (e : Event F) : Type 0 where
  pub typed : trim_space e.event_type ≢ []
  pub sourced :
      (trim_space e.event_source ≡ codes "place_order")
      ⊎ (trim_space e.event_source ≡ codes "websocket")
      ⊎ (trim_space e.event_source ≡ codes "rest_recovery")
      ⊎ (trim_space e.event_source ≡ codes "force_close")
  pub account : pos 1 ≤ℤ e.account_id
  pub venue : pos 1 ≤ℤ e.venue_id
  pub exchange : pos 1 ≤ℤ e.exchange
  pub market : pos 1 ≤ℤ e.market
  pub position_side :
      (e.position_side ≡ pos 0) ⊎ (e.position_side ≡ pos 1) ⊎ (e.position_side ≡ pos 2)
  pub sided : trim_space e.side ≢ []
  -- The fill's symbol counts, or that of the order's state if the fill's is empty.
  pub symbol :
      (trim_space e.fill_delta.symbol ≢ [])
      ⊎ ((e.fill_delta.symbol ≡ []) × (trim_space e.order_state.symbol ≢ []))

trim_space-nil : trim_space [] ≡ []
unfolding trim_space
trim_space-nil = refl

module _ {F : Type 0} (e : Event F) where
  is_allowed_event_source_iff : (is_allowed_event_source e.event_source ≡ true) ↔ (
      (trim_space e.event_source ≡ codes "place_order")
      ⊎ (trim_space e.event_source ≡ codes "websocket")
      ⊎ (trim_space e.event_source ≡ codes "rest_recovery")
      ⊎ (trim_space e.event_source ≡ codes "force_close"))
  unfolding is_allowed_event_source one_of
  is_allowed_event_source_iff =
      let source = trim_space e.event_source in
      ground (
        arith,
        text_eq_iff source (codes "place_order"),
        text_eq_iff source (codes "websocket"),
        text_eq_iff source (codes "rest_recovery"),
        text_eq_iff source (codes "force_close"),
      )

  pub accepts→RouteFacts : validate_event_route_facts e ≡ none → RouteFacts e
  unfolding validate_event_route_facts first_non_empty
  accepts→RouteFacts h = ground (arith, is_allowed_event_source_iff, trim_space-nil)

  pub RouteFacts→accepts : RouteFacts e → validate_event_route_facts e ≡ none
  unfolding validate_event_route_facts first_non_empty
  RouteFacts→accepts h = ground (arith, is_allowed_event_source_iff, trim_space-nil)

  -- An event passes the check exactly if it states its type, one of the sources place_order,
  -- websocket, rest_recovery and force_close, an account, a venue, an exchange and a market above
  -- zero, a position side from 0 to 2, a side, and a symbol: that of its fill, or of its order's
  -- state if the fill's is empty. A text of white space states nothing.
  pub validate_iff : (validate_event_route_facts e ≡ none) ↔ RouteFacts e
  validate_iff = (accepts→RouteFacts, RouteFacts→accepts)
