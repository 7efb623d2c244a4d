-- ===== src/Risk/Pending/Matches.antt =====
-- A route is pending exactly if one of the open orders that were read is on it.
use core_service.Prelude.{
  ◌≡◌, ◌↔◌, ◌⊎◌, inl, inr, Bool, true, ◌&&◌, Bool-cases, List, [], ◌∷◌, arith, Result, ok,
  if◌then◌else◌,
}
use core_service.Prelude.Int.{ℤ, pos, leb_ℤ, eqb_ℤ_iff}
use core_service.Text.{normal, text_eq→eq, equal_fold, text_eq_iff}
use core_service.Lifecycle.Scanner.Model.{OpenOrder}
use core_service.Risk.Types.{PendingRouteKey}
use core_service.Risk.Pending.{pending_order_matches, any_pending, has_pending_route}

-- The order stands on the route: the same account, venue, environment, exchange, market, position
-- side and, letter case and outer blanks aside, symbol.
pub record OnRoute (key : PendingRouteKey) (order : OpenOrder) : Type 0 where
  pub account : order.account_id ≡ key.account_id
  pub venue : order.venue_id ≡ key.venue_id
  pub environment : order.environment ≡ key.environment
  pub exchange : order.exchange ≡ key.exchange
  pub market : order.market ≡ key.market
  pub position_side : order.position_side ≡ key.position_side
  pub symbol : normal order.symbol ≡ normal key.symbol

conjuncts :
    (a b c d e f g : Bool)
    → (a && b && c && d && e && f && g) ≡ true
    → (a ≡ true) × (b ≡ true) × (c ≡ true) × (d ≡ true) × (e ≡ true) × (f ≡ true) × (g ≡ true)
conjuncts a b c d e f g h = ground arith

matches→OnRoute :
    (order : OpenOrder) (key : PendingRouteKey)
    → pending_order_matches order key ≡ true
    → OnRoute key order
unfolding pending_order_matches normal equal_fold
matches→OnRoute order key h =
    let (a, b, c, d, e, f, g) = conjuncts _ _ _ _ _ _ _ h in
    record {
      account = (eqb_ℤ_iff order.account_id key.account_id).0 a;
      venue = (eqb_ℤ_iff order.venue_id key.venue_id).0 b;
      environment = (eqb_ℤ_iff order.environment key.environment).0 c;
      exchange = (eqb_ℤ_iff order.exchange key.exchange).0 d;
      market = (eqb_ℤ_iff order.market key.market).0 e;
      position_side = (eqb_ℤ_iff order.position_side key.position_side).0 f;
      symbol = text_eq→eq _ _ g;
    }

OnRoute→matches :
    (order : OpenOrder) (key : PendingRouteKey)
    → OnRoute key order
    → pending_order_matches order key ≡ true
unfolding pending_order_matches normal equal_fold
OnRoute→matches order key h =
    rw ((eqb_ℤ_iff _ _).1 h.account, (eqb_ℤ_iff _ _).1 h.venue, (eqb_ℤ_iff _ _).1 h.environment)
      (rw ((eqb_ℤ_iff _ _).1 h.exchange, (eqb_ℤ_iff _ _).1 h.market)
        (rw ((eqb_ℤ_iff _ _).1 h.position_side) ((text_eq_iff _ _).1 h.symbol)))

-- One of the orders has the property.
abbrev pub AnyOf : (OpenOrder → Type 0) → List OpenOrder → Type 0
AnyOf P [] = ⊥
AnyOf P (order ∷ orders) = P order ⊎ AnyOf P orders

any_pending→AnyOf :
    (orders : List OpenOrder) (key : PendingRouteKey)
    → any_pending orders key ≡ true
    → AnyOf (OnRoute key) orders
unfolding any_pending
any_pending→AnyOf [] key h = cc
any_pending→AnyOf (order ∷ orders) key h = elim (Bool-cases (pending_order_matches order key)) [
  | inl here ↦ inl (matches→OnRoute order key here)
  | inr not_here ↦ inr (any_pending→AnyOf orders key (ground arith))
]

AnyOf→any_pending :
    (orders : List OpenOrder) (key : PendingRouteKey)
    → AnyOf (OnRoute key) orders
    → any_pending orders key ≡ true
unfolding any_pending
AnyOf→any_pending [] key h = absurd h
AnyOf→any_pending (order ∷ orders) key (inl here) = ground (arith, OnRoute→matches order key here)
AnyOf→any_pending (order ∷ orders) key (inr later) =
    ground (arith, AnyOf→any_pending orders key later)

-- When the store lists open orders, the reader answers that the route is pending
-- exactly if one of the listed orders stands on the route.
pub has_pending_route_iff :
    (list_open_orders : ℤ → Result (List OpenOrder)) (limit : ℤ) (key : PendingRouteKey)
    (orders : List OpenOrder)
    → list_open_orders (if leb_ℤ limit (pos 0) then pos 500 else limit) ≡ ok orders
    → (has_pending_route list_open_orders limit key ≡ ok true) ↔ AnyOf (OnRoute key) orders
unfolding has_pending_route
has_pending_route_iff list_open_orders limit key orders e = (
  λ h. any_pending→AnyOf orders key (ground arith),
  λ h. ground (arith, AnyOf→any_pending orders key h),
)
