-- ===== src/Reconciliation/Compare.antt =====
-- internal/reconciliation/diff.go: Compare, over the wallet and over the positions of both sides.
pub mod Verdict
pub mod Agreement
use core_service.Prelude.{
  ℕ, Bool, true, false, ◌&&◌, Option, none, some, List, [], ◌∷◌, ◌++◌, if◌then◌else◌,
}
use core_service.Prelude.Maps.{Assoc, find, keys}
use core_service.Text.{Text, codes, text_eq, to_upper}
use core_service.Float.{Float64, sub, abs, eq, zero, one}
use core_service.Domain.Wallet.{
  FuturesPosition, FuturesRiskMetadata, FuturesWallet, OnlineAccountInfo,
}
use core_service.Reconciliation.Tiers.{
  hard, drift, rule, CompareResult, ReconciliationThresholds, no_diffs, with_hard, add_soft,
  add_hard_step_tolerance, add_hard_price_tolerance, add_advisory,
}
use core_service.Reconciliation.Keys.{
  PositionKey, key_eq, label, index_positions, index_risk_metadata, union_keys,
}

abbrev pub field_of : PositionKey → List ℕ → Text
field_of k name = codes "futures.positions[" ++ label k ++ codes "]" ++ name

module _ {F : Type 0} ⦃fl : Float64 F⦄ where
  unfoldable pub bool_to_float : Bool → F
  bool_to_float b = if b then one else zero

  unfoldable pub position_qty : Option (FuturesPosition F) → F
  position_qty none = zero
  position_qty (some p) = if eq p.position_qty zero then p.qty else p.position_qty

  -- An absent position and one whose quantity is zero are the same state.
  unfoldable pub is_flat : Option (FuturesPosition F) → Bool
  unfolding position_qty
  is_flat none = true
  is_flat (some p) = eq (position_qty (some p)) zero

  -- The balances of the two futures wallets.
  unfoldable pub compare_wallet :
      FuturesWallet F
      → FuturesWallet F
      → ReconciliationThresholds F
      → CompareResult F
      → CompareResult F
  compare_wallet ex lo t r =
      let abs_tol = t.derived_risk_abs_tolerance_usdt in
      let ratio_tol = t.derived_risk_ratio_tolerance in
      add_soft (codes "futures.total_maint_margin") ex.total_maint_margin lo.total_maint_margin
        abs_tol ratio_tol
        (add_soft (codes "futures.total_open_order_initial_margin")
          ex.total_open_order_initial_margin lo.total_open_order_initial_margin abs_tol ratio_tol
          (add_soft (codes "futures.total_position_initial_margin") ex.total_position_initial_margin
            lo.total_position_initial_margin abs_tol ratio_tol
            (add_soft (codes "futures.total_unrealized_pnl") ex.total_unrealized_pnl
              lo.total_unrealized_pnl abs_tol ratio_tol
              (add_soft (codes "futures.unrealized_pnl") ex.unrealized_pnl lo.unrealized_pnl abs_tol
                ratio_tol
                (add_soft (codes "futures.total_margin_balance") ex.total_margin_balance
                  lo.total_margin_balance abs_tol ratio_tol
                  (add_soft (codes "futures.margin_balance") ex.margin_balance lo.margin_balance
                    abs_tol ratio_tol
                    (add_soft (codes "futures.available_balance") ex.available_balance
                      lo.available_balance abs_tol ratio_tol
                      (add_soft (codes "futures.wallet_balance") ex.wallet_balance lo.wallet_balance
                        t.wallet_balance_abs_tolerance_usdt t.wallet_balance_ratio_tolerance
                        r))))))))

  is_present : Option (FuturesPosition F) → Bool
  is_present none = false
  is_present (some p) = true

  -- A position that one side does not have at all.
  unfoldable pub add_missing :
      PositionKey
      → Option (FuturesPosition F)
      → Option (FuturesPosition F)
      → CompareResult F
      → CompareResult F
  unfolding bool_to_float position_qty is_present
  add_missing k ex lo r =
      with_hard
        (record {
          field = field_of k (codes ".exists");
          severity = hard;
          exchange = bool_to_float (is_present ex);
          local = bool_to_float (is_present lo);
          diff_abs = abs (sub (position_qty ex) (position_qty lo));
          diff_ratio = zero;
          threshold = rule (codes "exact_match_required");
          passed = false;
        })
        r

  -- The step and tick size of a symbol; zero, where they are not known.
  unfoldable pub step_size_of : Option (FuturesRiskMetadata F) → F
  step_size_of none = zero
  step_size_of (some m) = m.step_size

  unfoldable pub tick_size_of : Option (FuturesRiskMetadata F) → F
  tick_size_of none = zero
  tick_size_of (some m) = m.tick_size

  unfoldable pub compare_hard :
      PositionKey
      → FuturesPosition F
      → FuturesPosition F
      → Option (FuturesRiskMetadata F)
      → ReconciliationThresholds F
      → CompareResult F
      → CompareResult F
  unfolding position_qty step_size_of tick_size_of
  compare_hard k ex lo md t r =
      add_hard_price_tolerance (field_of k (codes ".entry_price")) ex.entry_price lo.entry_price
        (tick_size_of md) t.entry_price_tick_tolerance t.entry_price_ratio_tolerance
        (add_hard_step_tolerance (field_of k (codes ".position_qty")) (position_qty (some ex))
          (position_qty (some lo)) (step_size_of md) t.position_qty_step_tolerance r)

  unfoldable pub compare_soft :
      PositionKey
      → FuturesPosition F
      → FuturesPosition F
      → ReconciliationThresholds F
      → CompareResult F
      → CompareResult F
  compare_soft k ex lo t r =
      let abs_tol = t.derived_risk_abs_tolerance_usdt in
      let ratio_tol = t.derived_risk_ratio_tolerance in
      add_soft (field_of k (codes ".liquidation_price")) ex.liquidation_price lo.liquidation_price
        t.liquidation_price_abs_tolerance_usdt t.liquidation_price_ratio_tolerance
        (add_soft (field_of k (codes ".maint_margin")) ex.maint_margin lo.maint_margin abs_tol
          ratio_tol
          (add_soft (field_of k (codes ".open_order_initial_margin")) ex.open_order_initial_margin
            lo.open_order_initial_margin abs_tol ratio_tol
            (add_soft (field_of k (codes ".position_initial_margin")) ex.position_initial_margin
              lo.position_initial_margin abs_tol ratio_tol
              (add_soft (field_of k (codes ".initial_margin")) ex.initial_margin lo.initial_margin
                abs_tol ratio_tol
                (add_soft (field_of k (codes ".unrealized_pnl")) ex.unrealized_pnl lo.unrealized_pnl
                  abs_tol ratio_tol r)))))

  unfoldable pub compare_advisory :
      PositionKey
      → FuturesPosition F
      → FuturesPosition F
      → Option (FuturesRiskMetadata F)
      → ReconciliationThresholds F
      → CompareResult F
      → CompareResult F
  unfolding tick_size_of
  compare_advisory k ex lo md t r =
      let observation_only = rule (codes "observation_only") in
      add_advisory (field_of k (codes ".notional")) ex.notional lo.notional observation_only (
        add_advisory (field_of k (codes ".isolated_wallet")) ex.isolated_wallet lo.isolated_wallet
          observation_only
          (add_advisory (field_of k (codes ".break_even_price")) ex.break_even_price
            lo.break_even_price observation_only
            (add_advisory (field_of k (codes ".mark_price")) ex.mark_price lo.mark_price
              (drift t.mark_price_drift_tick_warn (tick_size_of md)) r)))

  abbrev compare_present :
      PositionKey
      → FuturesPosition F
      → FuturesPosition F
      → Option (FuturesRiskMetadata F)
      → ReconciliationThresholds F
      → CompareResult F
      → CompareResult F
  compare_present k ex lo md t r =
      compare_advisory k ex lo md t (compare_soft k ex lo t (compare_hard k ex lo md t r))

  -- One key; the metadata is found by the symbol of the exchange's position.
  unfoldable pub compare_position :
      PositionKey
      → Option (FuturesPosition F)
      → Option (FuturesPosition F)
      → Assoc Text (FuturesRiskMetadata F)
      → ReconciliationThresholds F
      → CompareResult F
      → CompareResult F
  unfolding is_flat
  compare_position k none none metadata t r = r
  compare_position k (some p) none metadata t r =
      if is_flat (some p) then r else add_missing k (some p) none r
  compare_position k none (some p) metadata t r =
      if is_flat (some p) then r else add_missing k none (some p) r
  compare_position k (some p) (some q) metadata t r =
      if is_flat (some p) && is_flat (some q)
      then r
      else compare_present k p q (find text_eq (to_upper p.symbol) metadata) t r

  unfoldable pub compare_positions :
      List PositionKey
      → Assoc PositionKey (FuturesPosition F)
      → Assoc PositionKey (FuturesPosition F)
      → Assoc Text (FuturesRiskMetadata F)
      → ReconciliationThresholds F
      → CompareResult F
      → CompareResult F
  compare_positions [] ex lo metadata t r = r
  compare_positions (k ∷ ks) ex lo metadata t r =
      compare_positions ks ex lo metadata t
        (compare_position k (find key_eq k ex) (find key_eq k lo) metadata t r)

  -- `range` gives the order in which Go ranges over the map of the keys.
  unfoldable pub compare :
      (range : List PositionKey → List PositionKey)
      → (local exchange : OnlineAccountInfo F) → ReconciliationThresholds F
      → CompareResult F
  compare range local exchange t =
      let ex = index_positions exchange.futures.positions in
      let lo = index_positions local.futures.positions in
      compare_positions (range (union_keys (keys ex) (keys lo))) ex lo
        (index_risk_metadata exchange.futures.risk_metadata local.futures.risk_metadata) t
        (compare_wallet exchange.futures local.futures t no_diffs)
