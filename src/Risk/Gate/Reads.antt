-- ===== src/Risk/Gate/Reads.antt =====
-- What the gate's readers answer for a request, each in terms of the reader itself.
use core_service.Prelude.{
  refl, ◌≡◌, Bool, true, false, List, none, some, arith, ok, Result, ◌↔◌, ◌⊎◌, inl, inr,
  Option-cases, Result-cases, Bool-cases,
}
use core_service.Float.{Float64}
use core_service.Risk.Types.{
  Violation, no_violation, is_violation, ReviewRequest, Snapshot, RouteKey, PendingRouteKey,
  SnapshotRequest, OrderCapability, FuturesRiskMetadata,
}
use core_service.Text.{normal}
use core_service.Domain.{market_spot, market_perpetual_futures}
use core_service.Risk.Rules.{validate_capability}
use core_service.Risk.Balance.{validate_spot_balance, validate_futures_balance}
use core_service.Risk.Metadata.{merge_risk_metadata}
use core_service.Risk.Gate.{
  DefaultGate, read_pending, read_capability, read_snapshot, read_rules, validate_balance,
  pending_key, route_key, empty_snapshot, is_market,
}

module _ {F : Type 0} ⦃fl : Float64 F⦄ (g : DefaultGate F) where
  -- The route that a request names, and the question for its wallet.
  abbrev pub named_route : ReviewRequest F → RouteKey
  named_route req = record {
    account_id = req.account_id;
    venue_id = req.venue_id;
    user_id = req.user_id;
    environment = req.environment;
    exchange = req.exchange;
    market = req.market;
  }

  abbrev pub named_wallet : ReviewRequest F → SnapshotRequest
  named_wallet req = record { route_key = named_route req; symbol = req.symbol }

  -- A reader of pending orders answers that none is pending under the request's route and symbol.
  abbrev pub IsIdle : ReviewRequest F → Type 0
  IsIdle req =
      (read : PendingRouteKey → Result Bool)
      → g.pending_reader ≡ some read
      → read (record {
        account_id = req.account_id;
        venue_id = req.venue_id;
        environment = req.environment;
        exchange = req.exchange;
        market = req.market;
        position_side = req.position_side;
        symbol = normal req.symbol;
      })
        ≡ ok false

  -- A reader of capabilities answers for the request's route, and the request is within the answer.
  abbrev pub IsCapable : ReviewRequest F → Type 0
  IsCapable req =
      (read : RouteKey → Result OrderCapability)
      → g.capability_reader ≡ some read
      → (capability : OrderCapability) × (read (named_route req) ≡ ok capability)
        × (is_violation (validate_capability req capability) ≡ false)

  -- The snapshot is what its reader answers for the request's route, or empty without a reader.
  abbrev pub IsHeld : ReviewRequest F → Snapshot F → Type 0
  IsHeld req held =
      ((g.snapshot_reader ≡ none) × (held ≡ empty_snapshot))
      ⊎ ((read : SnapshotRequest → Result (Snapshot F)) × (g.snapshot_reader ≡ some read)
          × (read (named_wallet req) ≡ ok held))

  -- The snapshot of a futures order gets the rules that their reader, if there is one, answers for
  -- the route; any other is left as it is.
  abbrev pub IsCompleted : ReviewRequest F → (held complete : Snapshot F) → Type 0
  IsCompleted req held complete =
      (((g.symbol_rules_reader ≡ none) ⊎ (is_market market_perpetual_futures req ≡ false))
        × (complete ≡ held))
      ⊎ ((read : SnapshotRequest → Result (List (FuturesRiskMetadata F))) × (rules : List
            (FuturesRiskMetadata F))
          × (g.symbol_rules_reader ≡ some read)
          × (is_market market_perpetual_futures req ≡ true)
          × (read (named_wallet req) ≡ ok rules)
          × (complete ≡ record held {
            futures_risk_metadata = merge_risk_metadata g.range held.futures_risk_metadata rules;
          }))

  -- The check of the request's market raises no violation.
  abbrev pub IsFunded : ReviewRequest F → Snapshot F → Type 0
  IsFunded req complete =
      (is_market market_spot req ≡ true → is_violation (validate_spot_balance req complete) ≡ false)
      × (is_market market_perpetual_futures req ≡ true
          → is_violation (validate_futures_balance req complete) ≡ false)

  pub record IsRouteCleared (req : ReviewRequest F) : Type 0 where
    pub idle : IsIdle req
    pub capable : IsCapable req
    pub held : Snapshot F
    pub complete : Snapshot F
    pub read : IsHeld req held
    pub completed : IsCompleted req held complete
    pub funded : IsFunded req complete

  pub read_pending-IsIdle : (req : ReviewRequest F) → (read_pending g req ≡ ok false) ↔ IsIdle req
  unfolding read_pending pending_key
  read_pending-IsIdle req = elim (Option-cases g.pending_reader) [
    | inl missing ↦ (λ h read e. ground (arith, missing, e), λ h. ground (arith, missing))
    | inr (r, given) ↦
        (λ h read e. ground (arith, given, e, h), λ h. ground (arith, given, h r given))
  ]

  pub read_capability-IsCapable :
      (req : ReviewRequest F)
      → ((v : Violation) × (read_capability g req ≡ ok v) × (is_violation v ≡ false))
        ↔ IsCapable req
  unfolding read_capability route_key
  read_capability-IsCapable req = elim (Option-cases g.capability_reader) [
    | inl missing ↦
        (λ h read e. ground (arith, missing, e), λ h. (no_violation, ground (arith, missing), refl))
    | inr (r, given) ↦ elim (Result-cases (r (named_route req))) [
      | inr (text, failed) ↦ (
        λ h read e. ground (arith, given, e, failed, h.1),
        λ h. ground (arith, failed, (h r given).1),
      )
      | inl (c, answered) ↦ (
        λ h read e. (c, ground (arith, given, e, answered), ground (arith, given, answered, h.1)),
        λ h. (
          validate_capability req c,
          ground (arith, given, answered),
          ground (arith, answered, (h r given).1),
        ),
      )
    ]
  ]

  pub read_snapshot-IsHeld :
      (req : ReviewRequest F) (held : Snapshot F)
      → (read_snapshot g req ≡ ok held) ↔ IsHeld req held
  unfolding read_snapshot route_key
  read_snapshot-IsHeld req held = elim (Option-cases g.snapshot_reader) [
    | inl missing ↦
        (λ h. inl (missing, ground (arith, missing, h)), λ h. ground (arith, missing, h))
    | inr (r, given) ↦
        (λ h. inr (r, given, ground (arith, given, h)), λ h. ground (arith, given, h))
  ]

  pub read_rules-IsCompleted :
      (req : ReviewRequest F) (held complete : Snapshot F)
      → (read_rules g req held ≡ ok complete) ↔ IsCompleted req held complete
  unfolding read_rules route_key
  read_rules-IsCompleted req held complete = elim (Option-cases g.symbol_rules_reader) [
    | inl missing ↦
        (λ h. inl (inl missing, ground (arith, missing, h)), λ h. ground (arith, missing, h))
    | inr (r, given) ↦ elim (Bool-cases (is_market market_perpetual_futures req)) [
      | inr other ↦ (
        λ h. inl (inr other, ground (arith, given, other, h)),
        λ h. ground (arith, given, other, h),
      )
      | inl futures ↦ elim (Result-cases (r (named_wallet req))) [
        | inr (text, failed) ↦ (
          λ h. ground (arith, given, futures, failed, h),
          λ h. ground (arith, given, futures, failed, h),
        )
        | inl (rules, answered) ↦ (
          λ h.
              inr (r, rules, given, futures, answered, ground (arith, given, futures, answered, h)),
          λ h. ground (arith, given, futures, answered, h),
        )
      ]
    ]
  ]

  spot-not_futures :
      (req : ReviewRequest F)
      → is_market market_spot req ≡ true
      → is_market market_perpetual_futures req ≡ false
  spot-not_futures req h = ground (arith, h)

  pub validate_balance-IsFunded :
      (req : ReviewRequest F) (complete : Snapshot F)
      → (is_violation (validate_balance req complete) ≡ false) ↔ IsFunded req complete
  unfolding validate_balance
  validate_balance-IsFunded req complete = elim (Bool-cases (is_market market_spot req)) [
    | inl spot ↦
        let other = spot-not_futures req spot in
        (
          λ h. (λ e. ground (arith, spot, h), λ e. ground (arith, other, e)),
          λ h. ground (arith, spot, h.0 spot),
        )
    | inr other ↦ elim (Bool-cases (is_market market_perpetual_futures req)) [
      | inl futures ↦ (
        λ h. (λ e. ground (arith, other, e), λ e. ground (arith, other, futures, h)),
        λ h. ground (arith, other, futures, h.1 futures),
      )
      | inr none_of ↦ (
        λ h. (λ e. ground (arith, other, e), λ e. ground (arith, none_of, e)),
        λ h. ground (arith, other, none_of),
      )
    ]
  ]
