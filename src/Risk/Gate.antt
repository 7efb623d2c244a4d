-- ===== src/Risk/Gate.antt =====
-- internal/order/risk/gate.go: the review of an order.
pub mod Decided
pub mod Reads
pub mod Cleared
pub mod Covers
use core_service.Prelude.{
  Bool, true, false, not, ◌&&◌, ◌||◌, Option, none, some, List, [], ◌∷◌, if◌then◌else◌, Result, ok,
  err, ◌>>=◌,
}
use core_service.Prelude.Int.{ℤ, pos, leb_ℤ, eqb_ℤ, to_int16}
use core_service.Text.{Text, codes, is_empty, text_eq, normal}
use core_service.Float.{Float64, zero}
use core_service.Domain.{market_spot, market_perpetual_futures}
use core_service.Lifecycle.Events.{Time}
use core_service.Risk.Types.{
  DecisionStatus, Violation, no_violation, is_violation, Decision, RouteKey, PendingRouteKey,
  SnapshotRequest, ReviewRequest, FuturesRiskMetadata, Snapshot, OrderCapability,
}
use core_service.Risk.Rules.{is_some, violation, validate_capability}
use core_service.Risk.Balance.{validate_spot_balance, validate_futures_balance}
use core_service.Risk.Metadata.{BySymbol, merge_risk_metadata}

-- The gate's readers, each of which may be missing, and the order of map iteration.
pub record DefaultGate (F : Type 0) : Type 0 where
  pub capability_reader : Option (RouteKey → Result OrderCapability)
  pub snapshot_reader : Option (SnapshotRequest → Result (Snapshot F))
  pub pending_reader : Option (PendingRouteKey → Result Bool)
  pub symbol_rules_reader : Option (SnapshotRequest → Result (List (FuturesRiskMetadata F)))
  pub range : BySymbol F → BySymbol F

unfoldable pub reject_violation : Time → Violation → Decision
reject_violation reviewed_at v = record {
  status = DecisionStatus.reject;
  reason_code = v.code;
  violations = v ∷ [];
  warnings = [];
  reviewed_at = reviewed_at;
}

unfoldable pub reject : Time → Text → Text → Decision
unfolding reject_violation
reject reviewed_at code message = reject_violation reviewed_at (violation code message)

abbrev pub allowed : Time → Decision
allowed reviewed_at = record {
  status = DecisionStatus.allow;
  reason_code = [];
  violations = [];
  warnings = [];
  reviewed_at = reviewed_at;
}

abbrev pub decide : Time → Violation → Decision
decide reviewed_at v =
    if is_violation v then reject_violation reviewed_at v else allowed reviewed_at

module _ {F : Type 0} where
  unfoldable pub route_key : ReviewRequest F → RouteKey
  route_key req = record {
    account_id = req.account_id;
    venue_id = req.venue_id;
    user_id = req.user_id;
    environment = req.environment;
    exchange = req.exchange;
    market = req.market;
  }

  unfoldable pub pending_key : ReviewRequest F → PendingRouteKey
  pending_key req = record {
    account_id = req.account_id;
    venue_id = req.venue_id;
    environment = req.environment;
    exchange = req.exchange;
    market = req.market;
    position_side = req.position_side;
    symbol = normal req.symbol;
  }

  abbrev pub snapshot_request : ReviewRequest F → SnapshotRequest
  snapshot_request req = record { route_key = route_key req; symbol = req.symbol }

  -- The order type that a request stands for, a limit order if it names a price.
  unfoldable pub default_order_type : ReviewRequest F → Text
  default_order_type req =
      let order_type = normal req.order_type in
      if is_empty order_type
      then (if is_some req.price then codes "LIMIT" else codes "MARKET")
      else order_type

  unfoldable pub default_time_in_force : ReviewRequest F → Text
  unfolding default_order_type
  default_time_in_force req =
      let tif = normal req.time_in_force in
      if text_eq (default_order_type req) (codes "LIMIT") && is_empty tif then codes "GTC" else tif

  unfoldable pub normal_request : ReviewRequest F → ReviewRequest F
  unfolding default_time_in_force
  normal_request req = record req {
    symbol = normal req.symbol;
    side = normal req.side;
    order_type = default_order_type req;
    time_in_force = default_time_in_force req;
  }

  unfoldable pub read_pending : DefaultGate F → ReviewRequest F → Result Bool
  unfolding pending_key
  read_pending g req = elim g.pending_reader [
    | none ↦ ok false
    | some read ↦ read (pending_key req)
  ]

  -- The violation of the route's capability.
  unfoldable pub read_capability : DefaultGate F → ReviewRequest F → Result Violation
  unfolding route_key
  read_capability g req = elim g.capability_reader [
    | none ↦ ok no_violation
    | some read ↦ read (route_key req) >>= λ capability. ok (validate_capability req capability)
  ]

module _ {F : Type 0} ⦃fl : Float64 F⦄ where
  abbrev pub empty_snapshot : Snapshot F
  empty_snapshot = record {
    available_balance = zero;
    balances = [];
    positions = [];
    futures_risk_metadata = [];
  }

  unfoldable pub read_snapshot : DefaultGate F → ReviewRequest F → Result (Snapshot F)
  read_snapshot g req = elim g.snapshot_reader [
    | none ↦ ok empty_snapshot
    | some read ↦ read (snapshot_request req)
  ]

  -- domain.Market(req.Market) is an int16.
  abbrev pub is_market : ℤ → ReviewRequest F → Bool
  is_market market req = eqb_ℤ (to_int16 req.market) market

  unfoldable pub read_rules : DefaultGate F → ReviewRequest F → Snapshot F → Result (Snapshot F)
  read_rules g req snapshot = elim g.symbol_rules_reader [
    | none ↦ ok snapshot
    | some read ↦
        if is_market market_perpetual_futures req
        then (read (snapshot_request req) >>= λ rules. ok (record snapshot {
          futures_risk_metadata = merge_risk_metadata g.range snapshot.futures_risk_metadata rules;
        }))
        else ok snapshot
  ]

  unfoldable pub validate_balance : ReviewRequest F → Snapshot F → Violation
  validate_balance req snapshot =
      if is_market market_spot req
      then validate_spot_balance req snapshot
      else if is_market market_perpetual_futures req
      then validate_futures_balance req snapshot
      else no_violation

  -- The review behind the check of the route, of a normal request.
  unfoldable pub review_route : DefaultGate F → ReviewRequest F → Time → Result Decision
  unfolding reject
  review_route g req reviewed_at = read_pending g req >>= λ pending.
      if pending
      then ok (
          reject reviewed_at (codes "ROUTE_PENDING_EXECUTION")
            (codes "route has pending execution"))
      else (read_capability g req >>= λ unable.
          if is_violation unable
          then ok (reject_violation reviewed_at unable)
          else (read_snapshot g req >>= λ snapshot. read_rules g req snapshot >>= λ complete.
              ok (decide reviewed_at (validate_balance req complete))))

  unfoldable pub review : DefaultGate F → ReviewRequest F → Time → Result Decision
  unfolding reject
  review g req reviewed_at =
      if leb_ℤ req.account_id (pos 0) || leb_ℤ req.venue_id (pos 0)
      then ok (
          reject reviewed_at (codes "INVALID_ROUTE") (codes "account_id and venue_id are required"))
      else review_route g (normal_request req) reviewed_at
