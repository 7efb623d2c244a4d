-- ===== src/Reconciliation/Compare/Agreement.antt =====
-- internal/reconciliation/diff.go: which positions clear the hard flag.
use core_service.Prelude.{
  Bool, ◌&&◌, ◌||◌, List, all, ◌≡◌, ◌↔◌, refl, sym, ◌∙◌, true, false, inl, inr, Bool-cases, arith,
  [], ◌∷◌, Option, some, none,
}
use core_service.Prelude.Maps.{Assoc, find, keys, find-absent, all-present, all-of-present}
use core_service.Text.{Text, text_eq, to_upper}
use core_service.Float.{Float64, le}
use core_service.Domain.Wallet.{FuturesPosition, FuturesRiskMetadata, OnlineAccountInfo}
use core_service.Reconciliation.Tiers.{
  CompareResult, ReconciliationThresholds, add_soft, add_hard_step_tolerance,
  add_hard_price_tolerance, add_advisory, difference, step_threshold, price_threshold,
}
use core_service.Reconciliation.Keys.{
  PositionKey, key_eq, index_positions, index_risk_metadata, union_keys,
}
use core_service.Reconciliation.Keys.Found.{
  key_eq_iff, has, last_position, find-index_positions, has-union_keys,
}
use core_service.Reconciliation.Compare.{
  compare, compare_wallet, compare_positions, compare_position, compare_hard, compare_soft,
  compare_advisory, add_missing, is_flat, position_qty, step_size_of, tick_size_of,
}

one_more_key :
    (after first_done before first others : Bool)
    → after ≡ (first_done && others)
    → first_done ≡ (before && first)
    → after ≡ (before && (first && others))
one_more_key after first_done before first others e e' = ground arith

module _ {F : Type 0} ⦃fl : Float64 F⦄ where
  -- Two positions that are there: within the step of the quantity and the tick of the price.
  unfoldable pub is_close :
      FuturesPosition F
      → FuturesPosition F
      → Option (FuturesRiskMetadata F)
      → ReconciliationThresholds F
      → Bool
  is_close ex lo md t =
      le (difference (position_qty (some ex)) (position_qty (some lo)))
        (step_threshold (step_size_of md) t.position_qty_step_tolerance)
      && le (difference ex.entry_price lo.entry_price) (
          price_threshold ex.entry_price lo.entry_price (tick_size_of md)
            t.entry_price_tick_tolerance t.entry_price_ratio_tolerance)

  -- What the two sides hold under one key: nothing, or nearly the same position.
  unfoldable pub agrees :
      Option (FuturesPosition F)
      → Option (FuturesPosition F)
      → Assoc Text (FuturesRiskMetadata F)
      → ReconciliationThresholds F
      → Bool
  agrees none lo metadata t = is_flat lo
  agrees (some p) none metadata t = is_flat (some p)
  agrees (some p) (some q) metadata t =
      is_flat (some p) && is_flat (some q)
      || is_close p q (find text_eq (to_upper p.symbol) metadata) t

  pub hard_pass-compare_position :
      (k : PositionKey) (ex lo : Option (FuturesPosition F))
      (metadata : Assoc Text (FuturesRiskMetadata F)) (t : ReconciliationThresholds F)
      (r : CompareResult F)
      → (compare_position k ex lo metadata t r).hard_pass ≡ (r.hard_pass && agrees ex lo metadata t)
  unfolding compare_position agrees is_flat is_close compare_hard compare_soft compare_advisory
      add_missing add_soft add_advisory add_hard_step_tolerance add_hard_price_tolerance
  hard_pass-compare_position k none none metadata t r = ground arith
  hard_pass-compare_position k (some p) none metadata t r = ground arith
  hard_pass-compare_position k none (some q) metadata t r = ground arith
  hard_pass-compare_position k (some p) (some q) metadata t r = ground arith

  hard_pass-compare_positions :
      (ks : List PositionKey) (ex lo : Assoc PositionKey (FuturesPosition F))
      (metadata : Assoc Text (FuturesRiskMetadata F)) (t : ReconciliationThresholds F)
      (r : CompareResult F)
      → (compare_positions ks ex lo metadata t r).hard_pass
        ≡ (r.hard_pass && all (λ k. agrees (find key_eq k ex) (find key_eq k lo) metadata t) ks)
  unfolding compare_positions
  hard_pass-compare_positions [] ex lo metadata t r = ground arith
  hard_pass-compare_positions (k ∷ ks) ex lo metadata t r =
      one_more_key _ _ _ _ _ (hard_pass-compare_positions ks ex lo metadata t _)
        (hard_pass-compare_position k (find key_eq k ex) (find key_eq k lo) metadata t r)

  pub hard_pass-compare_ranged :
      (range : List PositionKey → List PositionKey) (local exchange : OnlineAccountInfo F)
      (t : ReconciliationThresholds F)
      → (compare range local exchange t).hard_pass
        ≡ all
            (λ k.
              agrees
                (find key_eq k (index_positions exchange.futures.positions))
                (find key_eq k (index_positions local.futures.positions))
                (index_risk_metadata exchange.futures.risk_metadata local.futures.risk_metadata)
                t)
            (range (
              union_keys
                (keys (index_positions exchange.futures.positions))
                (keys (index_positions local.futures.positions))))
  unfolding compare compare_wallet add_soft
  hard_pass-compare_ranged range local exchange t = hard_pass-compare_positions _ _ _ _ t _

  -- What the two sides hold under a key is the same, as far as the hard flag goes.
  abbrev pub AgreesOn :
      (local exchange : OnlineAccountInfo F) → ReconciliationThresholds F → PositionKey → Type 0
  AgreesOn local exchange t k =
      agrees (last_position k exchange.futures.positions) (last_position k local.futures.positions)
        (index_risk_metadata exchange.futures.risk_metadata local.futures.risk_metadata) t
      ≡ true

  nothing-agrees :
      (metadata : Assoc Text (FuturesRiskMetadata F)) (t : ReconciliationThresholds F)
      → agrees none none metadata t ≡ true
  unfolding agrees is_flat
  nothing-agrees metadata t = refl

  -- Where no key of either side is there, neither side has a position.
  absent-AgreesOn :
      (local exchange : OnlineAccountInfo F) (t : ReconciliationThresholds F) (k : PositionKey)
      → has k (
          union_keys
            (keys (index_positions exchange.futures.positions))
            (keys (index_positions local.futures.positions)))
        ≡ false
      → AgreesOn local exchange t k
  absent-AgreesOn local exchange t k h =
      let ex = index_positions exchange.futures.positions in
      let lo = index_positions local.futures.positions in
      let both = has-union_keys k (keys ex) (keys lo) in
      rw⁻¹
        (
          find-index_positions k exchange.futures.positions,
          find-index_positions k local.futures.positions,
        )
        (rw
          (
            find-absent key_eq key_eq_iff k ex (ground (arith, both, h)),
            find-absent key_eq key_eq_iff k lo (ground (arith, both, h)),
          )
          (nothing-agrees _ t))

  -- When the range visits the keys of a map and no others, a comparison passes hard exactly when the
  -- sides agree under every key: neither has an open position there, or both have a row (the last one
  -- of the key counts) and their quantities are within the step tolerance and their entry prices
  -- within the price tolerance. The balances of the wallet and the soft and advisory fields have no
  -- say.
  pub hard_pass-compare :
      (range : List PositionKey → List PositionKey)
      → ((ks : List PositionKey) (k : PositionKey) → has k (range ks) ≡ has k ks)
      → (local exchange : OnlineAccountInfo F) (t : ReconciliationThresholds F)
      → ((compare range local exchange t).hard_pass ≡ true)
        ↔ ((k : PositionKey) → AgreesOn local exchange t k)
  hard_pass-compare range visits local exchange t =
      let ex = index_positions exchange.futures.positions in
      let lo = index_positions local.futures.positions in
      let ks = union_keys (keys ex) (keys lo) in
      let metadata =
        index_risk_metadata exchange.futures.risk_metadata local.futures.risk_metadata in
      let p : PositionKey → Bool = λ k. agrees (find key_eq k ex) (find key_eq k lo) metadata t in
      let whole = hard_pass-compare_ranged range local exchange t in
      (
        λ passed k. elim (Bool-cases (has k ks)) [
          | inr absent ↦ absent-AgreesOn local exchange t k absent
          | inl present ↦
              rw⁻¹
                (
                  find-index_positions k exchange.futures.positions,
                  find-index_positions k local.futures.positions,
                )
                (all-present key_eq key_eq_iff p (range ks) k (sym whole ∙ passed)
                  (visits ks k ∙ present))
        ],
        λ same.
            whole
            ∙ all-of-present key_eq key_eq_iff p (range ks) λ k e.
              rw
                (
                  find-index_positions k exchange.futures.positions,
                  find-index_positions k local.futures.positions,
                )
                (same k),
      )
