-- ===== src/Reconciliation/Tiers.antt =====
-- internal/reconciliation/diff.go: the field tiers, and what each appends to a result.
pub mod Honest
use core_service.Prelude.{Bool, true, false, not, ◌&&◌, List, [], ◌∷◌, ◌++◌, if◌then◌else◌}
use core_service.Text.{Text, codes}
use core_service.Float.{Float64, sub, mul, div, abs, max, lt, le, zero}

-- internal/domain/model.go
pub data FieldDiffSeverity : Type 0 where
  hard soft advisory : FieldDiffSeverity

-- The description of the threshold that was used.
pub data Threshold (F : Type 0) : Type 0 where
  tolerance : (absolute ratio effective : F) → Threshold F
  steps : (step_size tolerance_multiple effective : F) → Threshold F
  ticks : (tick_size tick_multiple ratio effective : F) → Threshold F
  drift : (tick_warn_multiple tick_size : F) → Threshold F
  rule : Text → Threshold F

pub record FieldDiff (F : Type 0) : Type 0 where
  pub field : Text
  pub severity : FieldDiffSeverity
  pub exchange : F
  pub local : F
  pub diff_abs : F
  pub diff_ratio : F
  pub threshold : Threshold F
  pub passed : Bool

pub record CompareResult (F : Type 0) : Type 0 where
  pub field_diffs : List (FieldDiff F)
  pub advisory_diffs : List (FieldDiff F)
  pub hard_pass : Bool
  pub soft_pass : Bool

-- internal/config/config.go
pub record ReconciliationThresholds (F : Type 0) : Type 0 where
  pub position_qty_step_tolerance : F
  pub entry_price_tick_tolerance : F
  pub entry_price_ratio_tolerance : F
  pub wallet_balance_abs_tolerance_usdt : F
  pub wallet_balance_ratio_tolerance : F
  pub derived_risk_abs_tolerance_usdt : F
  pub derived_risk_ratio_tolerance : F
  pub liquidation_price_abs_tolerance_usdt : F
  pub liquidation_price_ratio_tolerance : F
  pub mark_price_drift_tick_warn : F

module _ {F : Type 0} where
  abbrev pub no_diffs : CompareResult F
  no_diffs = record { field_diffs = []; advisory_diffs = []; hard_pass = true; soft_pass = true }

  -- A soft or hard diff, which clears the flag of its tier unless it passed.
  abbrev pub with_soft : FieldDiff F → CompareResult F → CompareResult F
  with_soft d r = record r {
    field_diffs = r.field_diffs ++ d ∷ [];
    soft_pass = r.soft_pass && d.passed;
  }

  abbrev pub with_hard : FieldDiff F → CompareResult F → CompareResult F
  with_hard d r = record r {
    field_diffs = r.field_diffs ++ d ∷ [];
    hard_pass = r.hard_pass && d.passed;
  }

module _ {F : Type 0} ⦃fl : Float64 F⦄ where
  -- The larger of the two magnitudes, and the difference in relation to it.
  unfoldable pub denominator : F → F → F
  denominator exchange local = max (abs exchange) (abs local)

  unfoldable pub difference : F → F → F
  difference exchange local = abs (sub exchange local)

  unfoldable pub difference_ratio : F → F → F
  unfolding denominator difference
  difference_ratio exchange local =
      if lt zero (denominator exchange local)
      then div (difference exchange local) (denominator exchange local)
      else zero

  unfoldable pub soft_threshold : F → F → F → F → F
  unfolding denominator
  soft_threshold exchange local abs_tol ratio_tol =
      max abs_tol (mul (denominator exchange local) ratio_tol)

  unfoldable pub add_soft : Text → F → F → F → F → CompareResult F → CompareResult F
  unfolding difference difference_ratio soft_threshold
  add_soft field exchange local abs_tol ratio_tol =
      let effective = soft_threshold exchange local abs_tol ratio_tol in
      with_soft (record {
        field = field;
        severity = soft;
        exchange = exchange;
        local = local;
        diff_abs = difference exchange local;
        diff_ratio = difference_ratio exchange local;
        threshold = tolerance abs_tol ratio_tol effective;
        passed = le (difference exchange local) effective;
      })

  -- A step size that is not above zero is unknown, and demands equality.
  unfoldable pub step_threshold : F → F → F
  step_threshold step_size multiplier = if lt zero step_size then mul step_size multiplier else zero

  unfoldable pub add_hard_step_tolerance : Text → F → F → F → F → CompareResult F → CompareResult F
  unfolding difference difference_ratio step_threshold
  add_hard_step_tolerance field exchange local step_size multiplier =
      let effective = step_threshold step_size multiplier in
      with_hard (record {
        field = field;
        severity = hard;
        exchange = exchange;
        local = local;
        diff_abs = difference exchange local;
        diff_ratio = difference_ratio exchange local;
        threshold =
            if lt zero step_size
            then steps step_size multiplier effective
            else rule (codes "exact_match_no_stepsize_known");
        passed = le (difference exchange local) effective;
      })

  unfoldable pub price_threshold : F → F → F → F → F → F
  unfolding denominator
  price_threshold exchange local tick_size tick_multiplier ratio_tol =
      max (if lt zero tick_size then mul tick_size tick_multiplier else zero)
        (mul (denominator exchange local) ratio_tol)

  unfoldable pub add_hard_price_tolerance :
      Text → F → F → F → F → F → CompareResult F → CompareResult F
  unfolding difference difference_ratio price_threshold
  add_hard_price_tolerance field exchange local tick_size tick_multiplier ratio_tol =
      let effective = price_threshold exchange local tick_size tick_multiplier ratio_tol in
      with_hard (record {
        field = field;
        severity = hard;
        exchange = exchange;
        local = local;
        diff_abs = difference exchange local;
        diff_ratio = difference_ratio exchange local;
        threshold = ticks tick_size tick_multiplier ratio_tol effective;
        passed = le (difference exchange local) effective;
      })

  unfoldable pub add_advisory : Text → F → F → Threshold F → CompareResult F → CompareResult F
  unfolding difference difference_ratio
  add_advisory field exchange local threshold r = record r {
    advisory_diffs =
        r.advisory_diffs
        ++ record {
          field = field;
          severity = advisory;
          exchange = exchange;
          local = local;
          diff_abs = difference exchange local;
          diff_ratio = difference_ratio exchange local;
          threshold = threshold;
          passed = true;
        }
          ∷ [];
  }
