-- ===== src/Reconciliation/Run.antt =====
-- internal/reconciliation/service.go: LaunchAsync and the run that it starts, with its counters
-- (metrics.go), log lines and the saved row as effects in the order of the code.
pub mod Effects
use core_service.Prelude.{
  Bool, true, false, not, ◌&&◌, ◌||◌, Option, none, some, List, [], ◌∷◌, ◌++◌, if◌then◌else◌, all,
}
use core_service.Prelude.Int.{ℤ, pos, eqb_ℤ}
use core_service.Text.{Text}
use core_service.Float.{Float64}
use core_service.Domain.{environment_backtest}
use core_service.Domain.Wallet.{OnlineAccountInfo}
use core_service.Lifecycle.Events.{Time}
use core_service.Reconciliation.Tiers.{FieldDiff, ReconciliationThresholds}
use core_service.Reconciliation.Keys.{PositionKey}
use core_service.Reconciliation.Venues.{
  VenueWalletSnapshot, VenueReconciliationDiff, compare_venues,
}

-- internal/domain/model.go
abbrev pub reason_order_fill : ℤ
reason_order_fill = pos 1

abbrev pub reason_strategy_start : ℤ
reason_strategy_start = pos 2

abbrev pub reason_strategy_end : ℤ
reason_strategy_end = pos 3

abbrev pub reason_periodic_sample : ℤ
reason_periodic_sample = pos 6

abbrev pub reason_restart_recovery : ℤ
reason_restart_recovery = pos 7

pub data RunType : Type 0 where
  checkpoint event sampled : RunType

-- The empty run type of the code is none.
unfoldable pub run_type_from_reason : ℤ → Option RunType
run_type_from_reason reason =
    if eqb_ℤ reason reason_order_fill
    then some event
    else if eqb_ℤ reason reason_strategy_start
        || (eqb_ℤ reason reason_strategy_end || eqb_ℤ reason reason_restart_recovery)
    then some checkpoint
    else if eqb_ℤ reason reason_periodic_sample
    then some sampled
    else none

-- internal/domain/model.go, the fields of the account that the run reads.
pub record Account : Type 0 where
  pub account_id : ℤ
  pub user_id : ℤ
  pub environment : ℤ

pub record Task (F : Type 0) : Type 0 where
  pub account : Account
  pub local : OnlineAccountInfo F
  pub exchange : OnlineAccountInfo F
  pub local_venues : List (VenueWalletSnapshot F)
  pub exchange_venues : List (VenueWalletSnapshot F)
  pub session_id : Text
  pub strategy_id : ℤ
  pub snapshot_reason : ℤ
  pub trigger_time : Time

-- Without the identifier, which the code leaves for the store to give.
pub record ReconciliationRun (F : Type 0) : Type 0 where
  pub time : Time
  pub account_id : ℤ
  pub user_id : ℤ
  pub session_id : Text
  pub strategy_id : ℤ
  pub environment : ℤ
  pub snapshot_reason : ℤ
  pub run_type : RunType
  pub exchange_snapshot : OnlineAccountInfo F
  pub local_snapshot : OnlineAccountInfo F
  pub venue_diffs : List (VenueReconciliationDiff F)
  pub field_diffs : List (FieldDiff F)
  pub advisory_diffs : List (FieldDiff F)
  pub hard_pass : Bool
  pub soft_pass : Bool

pub data Counter : Type 0 where
  runs_total hard_fail_total soft_fail_total : Counter
  error_total_panic error_total_db_write_failed : Counter

pub data Level : Type 0 where
  info warn error : Level

pub data Effect (F : Type 0) : Type 0 where
  count : Counter → RunType → Effect F
  log : Level → Effect F
  save : ReconciliationRun F → Effect F

-- What the repository does when it is asked to save a run.
pub data SaveOutcome : Type 0 where
  saved save_failed save_panicked : SaveOutcome

-- The service: whether it is enabled (one that is nil is not), its repository and its thresholds, and the orders
-- of Go's maps.
pub record Service (F : Type 0) : Type 0 where
  pub enabled : Bool
  pub repo : Option (ReconciliationRun F → SaveOutcome)
  pub thresholds : ReconciliationThresholds F
  pub range : List PositionKey → List PositionKey
  pub venue_range : List ℤ → List ℤ

module _ {F : Type 0} where
  -- The lines of a verdict.
  unfoldable pub report : (hard_pass soft_pass : Bool) → RunType → List (Effect F)
  report false soft_pass run_type = count hard_fail_total run_type ∷ log error ∷ []
  report true false run_type = count soft_fail_total run_type ∷ log warn ∷ []
  report true true run_type = log info ∷ []

  unfoldable pub after_save : SaveOutcome → RunType → List (Effect F)
  after_save saved run_type = []
  after_save save_failed run_type = count error_total_db_write_failed run_type ∷ log error ∷ []
  after_save save_panicked run_type = count error_total_panic run_type ∷ log error ∷ []

  -- The row: the flags are those of the venues, and the row has no field diffs of its own.
  unfoldable pub run_of : Task F → RunType → List (VenueReconciliationDiff F) → ReconciliationRun F
  run_of task run_type venue_diffs = record {
    time = task.trigger_time;
    account_id = task.account.account_id;
    user_id = task.account.user_id;
    session_id = task.session_id;
    strategy_id = task.strategy_id;
    environment = task.account.environment;
    snapshot_reason = task.snapshot_reason;
    run_type = run_type;
    exchange_snapshot = task.exchange;
    local_snapshot = task.local;
    venue_diffs = venue_diffs;
    field_diffs = [];
    advisory_diffs = [];
    hard_pass = all (λ d. d.hard_pass) venue_diffs;
    soft_pass = all (λ d. d.soft_pass) venue_diffs;
  }

module _ {F : Type 0} ⦃fl : Float64 F⦄ where
  unfoldable pub run_isolated :
      Service F → (ReconciliationRun F → SaveOutcome) → RunType → Task F → List (Effect F)
  unfolding run_of
  run_isolated s repo run_type task =
      let run = run_of task run_type (
        compare_venues s.range s.venue_range task.local_venues task.exchange_venues s.thresholds) in
      count runs_total run_type ∷ report run.hard_pass run.soft_pass run_type
      ++ save run ∷ after_save (repo run) run_type

  -- The guards of a launch, one after the other: enabled, a repository, an environment that is not
  -- the backtest, a run type.
  unfoldable pub launch_by :
      Bool
      → Option (ReconciliationRun F → SaveOutcome)
      → Bool
      → Option RunType
      → Service F
      → Task F
      → List (Effect F)
  launch_by false repo is_backtest run_type s task = []
  launch_by true none is_backtest run_type s task = []
  launch_by true (some repo) true run_type s task = []
  launch_by true (some repo) false none s task = []
  launch_by true (some repo) false (some run_type) s task = run_isolated s repo run_type task

  -- The effects of the goroutine that a launch starts; none without a start.
  unfoldable pub launch_async : Service F → Task F → List (Effect F)
  launch_async s task =
      launch_by s.enabled s.repo (eqb_ℤ task.account.environment environment_backtest)
        (run_type_from_reason task.snapshot_reason) s task
