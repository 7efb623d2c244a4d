-- ===== src/Reconciliation/Tiers/Honest.antt =====
-- internal/reconciliation/diff.go: the verdict of a result against its diffs.
use core_service.Prelude.{refl, Bool, true, ◌&&◌, List, all, all-append, ◌≡◌, arith, [], ◌∷◌, ◌++◌}
use core_service.Text.{Text}
use core_service.Float.{Float64}
use core_service.Reconciliation.Tiers.{
  FieldDiffSeverity, hard, soft, advisory, FieldDiff, Threshold, CompareResult, no_diffs, with_hard,
  with_soft, add_soft, add_hard_step_tolerance, add_hard_price_tolerance, add_advisory,
}

-- Whether a severity's diff passed, if it is of that severity.
unfoldable pub severity_passed : FieldDiffSeverity → FieldDiffSeverity → Bool → Bool
severity_passed hard hard b = b
severity_passed soft soft b = b
severity_passed advisory advisory b = b
severity_passed hard soft b = true
severity_passed hard advisory b = true
severity_passed soft hard b = true
severity_passed soft advisory b = true
severity_passed advisory hard b = true
severity_passed advisory soft b = true

module _ {F : Type 0} where
  unfoldable pub tier_passed : FieldDiffSeverity → FieldDiff F → Bool
  unfolding severity_passed
  tier_passed tier d = severity_passed tier d.severity d.passed

  -- Each flag is the conjunction of its tier's diffs.
  pub record IsHonest (r : CompareResult F) : Type 0 where
    pub hard_flag : r.hard_pass ≡ all (tier_passed hard) r.field_diffs
    pub soft_flag : r.soft_pass ≡ all (tier_passed soft) r.field_diffs

  pub no_diffs-IsHonest : IsHonest no_diffs
  no_diffs-IsHonest = record { hard_flag = refl; soft_flag = refl }

  -- A flag that counts the diffs of a list counts one more.
  with_one_more :
      (p : FieldDiff F → Bool) (ds : List (FieldDiff F)) (d : FieldDiff F) (flag b : Bool)
      → flag ≡ all p ds
      → p d ≡ b
      → (flag && b) ≡ all p (ds ++ d ∷ [])
  with_one_more p ds d flag b e pd = ground (arith, all-append p ds (d ∷ []))

  same_with_one_more :
      (p : FieldDiff F → Bool) (ds : List (FieldDiff F)) (d : FieldDiff F) (flag : Bool)
      → flag ≡ all p ds
      → p d ≡ true
      → flag ≡ all p (ds ++ d ∷ [])
  same_with_one_more p ds d flag e pd = ground (arith, all-append p ds (d ∷ []))

  with_soft-IsHonest :
      (d : FieldDiff F) (r : CompareResult F)
      → tier_passed hard d ≡ true
      → tier_passed soft d ≡ d.passed
      → IsHonest r
      → IsHonest (with_soft d r)
  with_soft-IsHonest d r h s honest = record {
    hard_flag =
        same_with_one_more (tier_passed hard) r.field_diffs d r.hard_pass honest.hard_flag h;
    soft_flag =
        with_one_more (tier_passed soft) r.field_diffs d r.soft_pass d.passed honest.soft_flag s;
  }

  pub with_hard-IsHonest :
      (d : FieldDiff F) (r : CompareResult F)
      → tier_passed hard d ≡ d.passed
      → tier_passed soft d ≡ true
      → IsHonest r
      → IsHonest (with_hard d r)
  with_hard-IsHonest d r h s honest = record {
    hard_flag =
        with_one_more (tier_passed hard) r.field_diffs d r.hard_pass d.passed honest.hard_flag h;
    soft_flag =
        same_with_one_more (tier_passed soft) r.field_diffs d r.soft_pass honest.soft_flag s;
  }

module _ {F : Type 0} ⦃fl : Float64 F⦄ where
  pub add_soft-IsHonest :
      (field : Text) (exchange local abs_tol ratio_tol : F) (r : CompareResult F)
      → IsHonest r
      → IsHonest (add_soft field exchange local abs_tol ratio_tol r)
  unfolding add_soft tier_passed severity_passed
  add_soft-IsHonest field exchange local abs_tol ratio_tol r honest =
      with_soft-IsHonest _ r refl refl honest

  pub add_hard_step_tolerance-IsHonest :
      (field : Text) (exchange local step_size multiplier : F) (r : CompareResult F)
      → IsHonest r
      → IsHonest (add_hard_step_tolerance field exchange local step_size multiplier r)
  unfolding add_hard_step_tolerance tier_passed severity_passed
  add_hard_step_tolerance-IsHonest field exchange local step_size multiplier r honest =
      with_hard-IsHonest _ r refl refl honest

  pub add_hard_price_tolerance-IsHonest :
      (field : Text) (exchange local tick_size multiplier ratio_tol : F) (r : CompareResult F)
      → IsHonest r
      → IsHonest (add_hard_price_tolerance field exchange local tick_size multiplier ratio_tol r)
  unfolding add_hard_price_tolerance tier_passed severity_passed
  add_hard_price_tolerance-IsHonest field exchange local tick_size multiplier ratio_tol r honest =
      with_hard-IsHonest _ r refl refl honest

  pub add_advisory-IsHonest :
      (field : Text) (exchange local : F) (threshold : Threshold F) (r : CompareResult F)
      → IsHonest r
      → IsHonest (add_advisory field exchange local threshold r)
  unfolding add_advisory
  add_advisory-IsHonest field exchange local threshold r honest = record {
    hard_flag = honest.hard_flag;
    soft_flag = honest.soft_flag;
  }
