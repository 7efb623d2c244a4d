-- ===== src/Risk/Balance/Funded.antt =====
-- What the balance checks of the gate guarantee of an order that raises no violation.
use core_service.Prelude.{◌≡◌, ◌⊎◌, inl, inr, true, false, some, arith, Option-cases, Bool-cases}
use core_service.Text.{Text, codes, equal_fold}
use core_service.Float.{Float64, add, div, abs, lt, le, zero, tiny}
use core_service.Risk.Types.{is_violation, ReviewRequest, FuturesRiskMetadata, Position, Snapshot}
use core_service.Risk.Rules.{order_notional, validate_symbol_rules}
use core_service.Risk.Balance.{
  base_asset, quote_asset, available_balance, futures_metadata, futures_position,
  validate_spot_balance, validate_futures_reduce_only, validate_futures_balance,
}

module _ {F : Type 0} ⦃fl : Float64 F⦄ where
  -- The amount is at most the balance of the asset, up to the tolerance.
  abbrev pub IsCovered : Snapshot F → Text → F → Type 0
  IsCovered snapshot asset amount =
      (available : F) × (available_balance snapshot asset ≡ some available)
      × (lt (add available tiny) amount ≡ false)

  pub spot_buy-IsCovered :
      (req : ReviewRequest F) (snapshot : Snapshot F)
      → is_violation (validate_spot_balance req snapshot) ≡ false
      → equal_fold req.side (codes "BUY") ≡ true
      → (req.reduce_only ≡ false)
        × (le (order_notional req) zero ≡ false)
        × IsCovered snapshot (quote_asset req.symbol) (order_notional req)
  unfolding validate_spot_balance
  spot_buy-IsCovered req snapshot fine buy =
      elim (Option-cases (available_balance snapshot (quote_asset req.symbol))) [
        | inl missing ↦ ground arith
        | inr (available, e) ↦ (ground arith, ground arith, (available, e, ground arith))
      ]

  pub spot_sell-IsCovered :
      (req : ReviewRequest F) (snapshot : Snapshot F)
      → is_violation (validate_spot_balance req snapshot) ≡ false
      → equal_fold req.side (codes "SELL") ≡ true
      → IsCovered snapshot (base_asset req.symbol) (abs req.qty)
  unfolding validate_spot_balance
  spot_sell-IsCovered req snapshot fine sell =
      elim (Option-cases (available_balance snapshot (base_asset req.symbol))) [
        | inl missing ↦ ground arith
        | inr (available, e) ↦ (available, e, ground arith)
      ]

  -- The order closes no more than a position that lies on the other side.
  pub record IsReducing (req : ReviewRequest F) (p : Position F) : Type 0 where
    pub open_position : le (abs p.qty) tiny ≡ false
    pub sell_long : equal_fold req.side (codes "SELL") ≡ true → le p.qty zero ≡ false
    pub buy_short :
        equal_fold req.side (codes "SELL") ≡ false
        → equal_fold req.side (codes "BUY") ≡ true
        → le zero p.qty ≡ false
    pub within : lt (add (abs p.qty) tiny) (abs req.qty) ≡ false

  -- The margin of the order at the configured leverage is available.
  pub record IsMargined (req : ReviewRequest F) (s : Snapshot F) (m : FuturesRiskMetadata F)
      : Type 0 where
    pub priced : le (order_notional req) zero ≡ false
    pub margin :
        lt (add s.available_balance tiny) (div (order_notional req) m.configured_leverage) ≡ false

  abbrev pub IsFuturesFunded : ReviewRequest F → Snapshot F → Type 0
  IsFuturesFunded req snapshot =
      (m : FuturesRiskMetadata F) × (futures_metadata snapshot req.symbol ≡ some m)
      × (le m.configured_leverage zero ≡ false)
      × (is_violation (validate_symbol_rules req m) ≡ false)
      × (((req.reduce_only ≡ true)
            × (p : Position F) × (futures_position snapshot req.symbol req.position_side ≡ some p)
            × IsReducing req p)
          ⊎ ((req.reduce_only ≡ false) × IsMargined req snapshot m))

  reduce_only-IsReducing :
      (req : ReviewRequest F) (snapshot : Snapshot F)
      → is_violation (validate_futures_reduce_only req snapshot) ≡ false
      → (p : Position F) × (futures_position snapshot req.symbol req.position_side ≡ some p)
        × IsReducing req p
  unfolding validate_futures_reduce_only
  reduce_only-IsReducing req snapshot fine =
      elim (Option-cases (futures_position snapshot req.symbol req.position_side)) [
        | inl missing ↦ ground arith
        | inr (p, e) ↦ (p, e, ground arith)
      ]

  pub futures-IsFuturesFunded :
      (req : ReviewRequest F) (snapshot : Snapshot F)
      → is_violation (validate_futures_balance req snapshot) ≡ false
      → IsFuturesFunded req snapshot
  unfolding validate_futures_balance
  futures-IsFuturesFunded req snapshot fine =
      elim (Option-cases (futures_metadata snapshot req.symbol)) [
        | inl missing ↦ ground arith
        | inr (m, e) ↦ (
          m,
          e,
          ground arith,
          ground arith,
          elim (Bool-cases req.reduce_only) [
            | inl reducing ↦
                let (p, found, closes) = reduce_only-IsReducing req snapshot (ground arith) in
                inl (reducing, p, found, closes)
            | inr opening ↦ inr (opening, ground arith)
          ],
        )
      ]
