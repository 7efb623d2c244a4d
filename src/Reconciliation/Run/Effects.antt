-- ===== src/Reconciliation/Run/Effects.antt =====
-- internal/reconciliation/service.go: the counters of a run against the rows that it saves.
use core_service.Prelude.{
  ℕ, Bool, true, false, not, ◌&&◌, Option, none, some, List, [], ◌∷◌, ◌++◌, if◌then◌else◌, count_if,
  ◌==◌, ◌≡◌, arith, refl,
}
use core_service.Prelude.Int.{eqb_ℤ}
use core_service.Float.{Float64}
use core_service.Domain.{environment_backtest}
use core_service.Reconciliation.Run.{
  Counter, runs_total, hard_fail_total, soft_fail_total, error_total_panic,
  error_total_db_write_failed, Effect, count, log, save, RunType, Service, Task, ReconciliationRun,
  SaveOutcome, saved, save_failed, save_panicked, report, after_save, run_isolated, launch_by,
  launch_async, run_type_from_reason,
}

unfoldable pub is_there : {A : Type 0} → Option A → Bool
is_there none = false
is_there (some x) = true

code : Counter → ℕ
code runs_total = 0
code hard_fail_total = 1
code soft_fail_total = 2
code error_total_panic = 3
code error_total_db_write_failed = 4

module _ {F : Type 0} where
  unfoldable pub is_save : Effect F → Bool
  is_save (count c run_type) = false
  is_save (log level) = false
  is_save (save run) = true

  -- A saved row that failed hard, or passed hard and failed soft.
  unfoldable pub saves_hard_failure : Effect F → Bool
  saves_hard_failure (count c run_type) = false
  saves_hard_failure (log level) = false
  saves_hard_failure (save run) = not run.hard_pass

  unfoldable pub saves_soft_failure : Effect F → Bool
  saves_soft_failure (count c run_type) = false
  saves_soft_failure (log level) = false
  saves_soft_failure (save run) = run.hard_pass && not run.soft_pass

  unfoldable pub counts : Counter → Effect F → Bool
  unfolding code
  counts c (count d run_type) = code c == code d
  counts c (log level) = false
  counts c (save run) = false

  -- The counters tell what was saved.
  pub record Accounts (effects : List (Effect F)) : Type 0 where
    pub runs : count_if (counts runs_total) effects ≡ count_if is_save effects
    pub hard_failures :
        count_if (counts hard_fail_total) effects ≡ count_if saves_hard_failure effects
    pub soft_failures :
        count_if (counts soft_fail_total) effects ≡ count_if saves_soft_failure effects

  nothing-Accounts : Accounts []
  nothing-Accounts = record { runs = refl; hard_failures = refl; soft_failures = refl }

  unfoldable pub is_launched : Service F → Task F → Bool
  unfolding is_there
  is_launched s task =
      s.enabled
      && is_there s.repo
      && (not (eqb_ℤ task.account.environment environment_backtest)
          && is_there (run_type_from_reason task.snapshot_reason))

-- What follows the save counts neither a run nor a verdict, and saves nothing.
quiet :
    (F : Type 0) (outcome : SaveOutcome) (run_type : RunType)
    → (count_if (counts runs_total) (after_save {F = F} outcome run_type) ≡ 0)
      × (count_if (counts hard_fail_total) (after_save {F = F} outcome run_type) ≡ 0)
      × (count_if (counts soft_fail_total) (after_save {F = F} outcome run_type) ≡ 0)
      × (count_if is_save (after_save {F = F} outcome run_type) ≡ 0)
      × (count_if saves_hard_failure (after_save {F = F} outcome run_type) ≡ 0)
      × (count_if saves_soft_failure (after_save {F = F} outcome run_type) ≡ 0)
unfolding after_save counts code is_save saves_hard_failure saves_soft_failure
quiet F saved run_type = (refl, refl, refl, refl, refl, refl)
quiet F save_failed run_type = (refl, refl, refl, refl, refl, refl)
quiet F save_panicked run_type = (refl, refl, refl, refl, refl, refl)

module _ {F : Type 0} where
  abbrev effects_of : Bool → Bool → ReconciliationRun F → SaveOutcome → RunType → List (Effect F)
  effects_of hard_pass soft_pass run outcome run_type =
      count runs_total run_type ∷ report hard_pass soft_pass run_type
      ++ save run ∷ after_save outcome run_type

  verdict-Accounts :
      (hard_pass soft_pass : Bool) (run : ReconciliationRun F) (outcome : SaveOutcome)
      (run_type : RunType)
      → run.hard_pass ≡ hard_pass
      → run.soft_pass ≡ soft_pass
      → Accounts (effects_of hard_pass soft_pass run outcome run_type)
  unfolding report counts code is_save saves_hard_failure saves_soft_failure
  verdict-Accounts true true run outcome run_type h s = record {
    runs = ground (arith, quiet F outcome run_type);
    hard_failures = ground (arith, quiet F outcome run_type);
    soft_failures = ground (arith, quiet F outcome run_type);
  }
  verdict-Accounts true false run outcome run_type h s = record {
    runs = ground (arith, quiet F outcome run_type);
    hard_failures = ground (arith, quiet F outcome run_type);
    soft_failures = ground (arith, quiet F outcome run_type);
  }
  verdict-Accounts false soft_pass run outcome run_type h s = record {
    runs = ground (arith, quiet F outcome run_type);
    hard_failures = ground (arith, quiet F outcome run_type);
    soft_failures = ground (arith, quiet F outcome run_type);
  }

  verdict_saves_once :
      (hard_pass soft_pass : Bool) (run : ReconciliationRun F) (outcome : SaveOutcome)
      (run_type : RunType)
      → count_if is_save (effects_of hard_pass soft_pass run outcome run_type) ≡ 1
  unfolding report is_save
  verdict_saves_once true true run outcome run_type = ground (arith, quiet F outcome run_type)
  verdict_saves_once true false run outcome run_type = ground (arith, quiet F outcome run_type)
  verdict_saves_once false soft_pass run outcome run_type = ground (arith, quiet F outcome run_type)

module _ {F : Type 0} ⦃fl : Float64 F⦄ where
  launch_by-Accounts :
      (enabled : Bool) (repo : Option (ReconciliationRun F → SaveOutcome)) (is_backtest : Bool)
      (run_type : Option RunType) (s : Service F) (task : Task F)
      → Accounts (launch_by enabled repo is_backtest run_type s task)
        × (count_if is_save (launch_by enabled repo is_backtest run_type s task)
            ≡ (if enabled && is_there repo && (not is_backtest && is_there run_type) then 1 else 0))
  unfolding launch_by run_isolated is_there
  launch_by-Accounts false repo is_backtest run_type s task = (nothing-Accounts, refl)
  launch_by-Accounts true none is_backtest run_type s task = (nothing-Accounts, refl)
  launch_by-Accounts true (some repo) true run_type s task = (nothing-Accounts, refl)
  launch_by-Accounts true (some repo) false none s task = (nothing-Accounts, refl)
  launch_by-Accounts true (some repo) false (some run_type) s task =
      (verdict-Accounts _ _ _ _ run_type refl refl, verdict_saves_once _ _ _ _ run_type)

  -- A launch saves one row when its guards let the task through and none otherwise, and in either
  -- case its counters agree with what it saves: as many runs are counted as rows are saved, a hard
  -- failure for each saved row without its hard flag, and a soft failure for each saved row with
  -- its hard and without its soft flag; also if the save fails or panics.
  pub launch_async-Accounts :
      (s : Service F) (task : Task F)
      → Accounts (launch_async s task)
        × (count_if is_save (launch_async s task) ≡ (if is_launched s task then 1 else 0))
  unfolding launch_async is_launched
  launch_async-Accounts s task =
      launch_by-Accounts s.enabled s.repo (eqb_ℤ task.account.environment environment_backtest)
        (run_type_from_reason task.snapshot_reason) s task
