-- ===== src/Reconciliation/Compare/Verdict.antt =====
-- internal/reconciliation/diff.go: the verdict of a comparison against its diffs, and what decides it.
use core_service.Prelude.{
  if◌then◌else◌, refl, Bool, true, false, ◌&&◌, List, [], ◌∷◌, Option, some, none,
}
use core_service.Prelude.Maps.{Assoc, find}
use core_service.Text.{Text, text_eq, to_upper}
use core_service.Float.{Float64}
use core_service.Domain.Wallet.{
  FuturesPosition, FuturesRiskMetadata, FuturesWallet, OnlineAccountInfo,
}
use core_service.Reconciliation.Tiers.{CompareResult, ReconciliationThresholds, no_diffs}
use core_service.Reconciliation.Tiers.Honest.{
  IsHonest, no_diffs-IsHonest, with_hard-IsHonest, add_soft-IsHonest,
  add_hard_step_tolerance-IsHonest, add_hard_price_tolerance-IsHonest, add_advisory-IsHonest,
  tier_passed, severity_passed,
}
use core_service.Reconciliation.Keys.{PositionKey}
use core_service.Reconciliation.Compare.{
  compare, compare_wallet, compare_positions, compare_position, compare_hard, compare_soft,
  compare_advisory, add_missing, is_flat,
}

module _ {F : Type 0} ⦃fl : Float64 F⦄ where
  compare_wallet-IsHonest :
      (ex lo : FuturesWallet F) (t : ReconciliationThresholds F) (r : CompareResult F)
      → IsHonest r
      → IsHonest (compare_wallet ex lo t r)
  unfolding compare_wallet
  compare_wallet-IsHonest ex lo t r h = add_soft-IsHonest _ _ _ _ _ _ (
      add_soft-IsHonest _ _ _ _ _ _ (
        add_soft-IsHonest _ _ _ _ _ _ (
          add_soft-IsHonest _ _ _ _ _ _ (
            add_soft-IsHonest _ _ _ _ _ _ (
              add_soft-IsHonest _ _ _ _ _ _ (
                add_soft-IsHonest _ _ _ _ _ _
                  (add_soft-IsHonest _ _ _ _ _ _ (add_soft-IsHonest _ _ _ _ _ _ h))))))))

  add_missing-IsHonest :
      (k : PositionKey) (ex lo : Option (FuturesPosition F)) (r : CompareResult F)
      → IsHonest r
      → IsHonest (add_missing k ex lo r)
  unfolding add_missing tier_passed severity_passed
  add_missing-IsHonest k ex lo r h = with_hard-IsHonest _ r refl refl h

  compare_present-IsHonest :
      (k : PositionKey) (ex lo : FuturesPosition F) (md : Option (FuturesRiskMetadata F))
      (t : ReconciliationThresholds F) (r : CompareResult F)
      → IsHonest r
      → IsHonest
          (compare_advisory k ex lo md t (compare_soft k ex lo t (compare_hard k ex lo md t r)))
  unfolding compare_advisory compare_soft compare_hard
  compare_present-IsHonest k ex lo md t r h = add_advisory-IsHonest _ _ _ _ _ (
      add_advisory-IsHonest _ _ _ _ _ (
        add_advisory-IsHonest _ _ _ _ _ (
          add_advisory-IsHonest _ _ _ _ _ (
            add_soft-IsHonest _ _ _ _ _ _ (
              add_soft-IsHonest _ _ _ _ _ _ (
                add_soft-IsHonest _ _ _ _ _ _ (
                  add_soft-IsHonest _ _ _ _ _ _ (
                    add_soft-IsHonest _ _ _ _ _ _ (
                      add_soft-IsHonest _ _ _ _ _ _ (
                        add_hard_price_tolerance-IsHonest _ _ _ _ _ _ _
                          (add_hard_step_tolerance-IsHonest _ _ _ _ _ _ h)))))))))))

  either_way :
      (b : Bool) (x y : CompareResult F) → IsHonest x → IsHonest y → IsHonest (if b then x else y)
  either_way true x y hx hy = hx
  either_way false x y hx hy = hy

  compare_position-IsHonest :
      (k : PositionKey) (ex lo : Option (FuturesPosition F))
      (metadata : Assoc Text (FuturesRiskMetadata F)) (t : ReconciliationThresholds F)
      (r : CompareResult F)
      → IsHonest r
      → IsHonest (compare_position k ex lo metadata t r)
  unfolding compare_position
  compare_position-IsHonest k none none metadata t r h = h
  compare_position-IsHonest k (some p) none metadata t r h =
      either_way (is_flat (some p)) _ _ h (add_missing-IsHonest k (some p) none r h)
  compare_position-IsHonest k none (some q) metadata t r h =
      either_way (is_flat (some q)) _ _ h (add_missing-IsHonest k none (some q) r h)
  compare_position-IsHonest k (some p) (some q) metadata t r h =
      either_way (is_flat (some p) && is_flat (some q)) _ _ h
        (compare_present-IsHonest k p q (find text_eq (to_upper p.symbol) metadata) t r h)

  compare_positions-IsHonest :
      (ks : List PositionKey) (ex lo : Assoc PositionKey (FuturesPosition F))
      (metadata : Assoc Text (FuturesRiskMetadata F)) (t : ReconciliationThresholds F)
      (r : CompareResult F)
      → IsHonest r
      → IsHonest (compare_positions ks ex lo metadata t r)
  unfolding compare_positions
  compare_positions-IsHonest [] ex lo metadata t r h = h
  compare_positions-IsHonest (k ∷ ks) ex lo metadata t r h =
      compare_positions-IsHonest ks ex lo metadata t _
        (compare_position-IsHonest k _ _ metadata t r h)

  -- In the result of a comparison, each flag is set exactly when every diff of its severity
  -- passed, whichever order the positions are taken in: no failure is lost on the way, and
  -- nothing but a recorded hard (soft) diff clears the hard (soft) flag.
  pub compare-IsHonest :
      (range : List PositionKey → List PositionKey) (local exchange : OnlineAccountInfo F)
      (t : ReconciliationThresholds F)
      → IsHonest (compare range local exchange t)
  unfolding compare
  compare-IsHonest range local exchange t =
      compare_positions-IsHonest _ _ _ _ t _
        (compare_wallet-IsHonest exchange.futures local.futures t no_diffs no_diffs-IsHonest)
