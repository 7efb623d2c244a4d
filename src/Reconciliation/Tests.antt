-- ===== src/Reconciliation/Tests.antt =====
-- Runs of the comparison, and its theorems at concrete inputs.
use core_service.Prelude.{
  ◌↔◌, ℕ, ◌≡◌, refl, true, false, some, List, [], ◌∷◌, all, count_if, if◌then◌else◌,
}
use core_service.Prelude.Int.{ℤ, pos}
use core_service.Prelude.Maps.{find, put}
use core_service.Text.{Text, codes}
use core_service.Float.Fixed.{units, fixed}
use core_service.Domain.{environment_live}
use core_service.Domain.Wallet.{FuturesPosition, FuturesWallet, OnlineAccountInfo}
use core_service.Reconciliation.Tiers.{ReconciliationThresholds}
use core_service.Reconciliation.Tiers.Honest.{IsHonest}
use core_service.Reconciliation.Keys.{
  PositionKey, key_eq, index_positions, index_risk_metadata, union_keys,
}
use core_service.Reconciliation.Compare.{compare}
use core_service.Reconciliation.Compare.Verdict.{compare-IsHonest}
use core_service.Reconciliation.Compare.Agreement.{
  agrees, hard_pass-compare, AgreesOn, hard_pass-compare_ranged,
}
use core_service.Reconciliation.Venues.{VenueWalletSnapshot, compare_venues}
use core_service.Reconciliation.Venues.OneSided.{one_sided_venue_fails}
use core_service.Reconciliation.Run.{Service, Task, saved, launch_async}
use core_service.Reconciliation.Run.Effects.{Accounts, is_save, is_launched, launch_async-Accounts}

abbrev thresholds : ReconciliationThresholds ℤ
thresholds = record {
  position_qty_step_tolerance = units 1;
  entry_price_tick_tolerance = units 1;
  entry_price_ratio_tolerance = pos 0;
  wallet_balance_abs_tolerance_usdt = units 1;
  wallet_balance_ratio_tolerance = pos 0;
  derived_risk_abs_tolerance_usdt = units 5;
  derived_risk_ratio_tolerance = pos 0;
  liquidation_price_abs_tolerance_usdt = units 5;
  liquidation_price_ratio_tolerance = pos 0;
  mark_price_drift_tick_warn = units 10;
}

abbrev position : ℕ → FuturesPosition ℤ
position qty = record {
  symbol = codes "BTCUSDT";
  direction = pos 1;
  initial_balance = pos 0;
  leverage = units 5;
  fee_rate = pos 0;
  mark_price = units 100;
  qty = pos 0;
  position_qty = units qty;
  entry_price = units 99;
  unrealized_pnl = units 1;
  position_side = codes " both ";
  margin_type = codes "";
  margin_mode = codes "";
  notional = units 100;
  initial_margin = units 20;
  position_initial_margin = units 20;
  open_order_initial_margin = pos 0;
  maint_margin = units 1;
  isolated_wallet = pos 0;
  liquidation_price = units 80;
  break_even_price = units 99;
}

abbrev wallet : ℕ → List (FuturesPosition ℤ) → FuturesWallet ℤ
wallet balance positions = record {
  margin_mode = codes "cross";
  position_mode = codes "one_way";
  initial_balance = units 100;
  deposit_sum = pos 0;
  withdrawal_sum = pos 0;
  positions = positions;
  wallet_balance = units balance;
  available_balance = units balance;
  total_unrealized_pnl = pos 0;
  unrealized_pnl = pos 0;
  margin_balance = units balance;
  total_margin_balance = units balance;
  total_position_initial_margin = pos 0;
  total_open_order_initial_margin = pos 0;
  total_maint_margin = pos 0;
  total_cross_wallet_balance = units balance;
  total_cross_un_pnl = pos 0;
  risk_metadata = [];
  multi_assets_mode = false;
  portfolio_margin = false;
  display_wallet_balance_usd = pos 0;
  display_margin_balance_usd = pos 0;
  display_unrealized_pnl_usd = pos 0;
}

abbrev account : ℕ → List (FuturesPosition ℤ) → OnlineAccountInfo ℤ
account balance positions = record {
  account_id = pos 7;
  environment = environment_live;
  futures = wallet balance positions;
  spot = record { free = pos 0; locked = pos 0; assets = [] };
  total_value = units balance;
  wallet_balance = units balance;
  available_balance = units balance;
  updated_at = pos 0;
}

abbrev same_order : List PositionKey → List PositionKey
same_order ks = ks

abbrev same_venues : List ℤ → List ℤ
same_venues ids = ids

abbrev with_position : OnlineAccountInfo ℤ
with_position = account 100 (position 2 ∷ [])

abbrev without_position : OnlineAccountInfo ℤ
without_position = account 100 []

missing_position : (compare same_order without_position with_position thresholds).hard_pass ≡ false
unfolding union_keys index_positions put agrees find core_service.Text.text_eq
    core_service.Reconciliation.Keys.position_key core_service.Text.to_upper
    core_service.Text.upper_byte core_service.Text.normal core_service.Text.trim_space
    core_service.Reconciliation.Compare.is_flat
missing_position = hard_pass-compare_ranged same_order without_position with_position thresholds

closed_position :
    (compare same_order without_position (account 100 (position 0 ∷ [])) thresholds).hard_pass
    ≡ true
unfolding union_keys index_positions put agrees find core_service.Text.text_eq
    core_service.Reconciliation.Keys.position_key core_service.Text.to_upper
    core_service.Text.upper_byte core_service.Text.normal core_service.Text.trim_space
    core_service.Reconciliation.Compare.is_flat
closed_position =
    hard_pass-compare_ranged same_order without_position (account 100 (position 0 ∷ [])) thresholds

compare-IsHonest_example : IsHonest (compare same_order without_position with_position thresholds)
compare-IsHonest_example = compare-IsHonest same_order without_position with_position thresholds

hard_pass-compare_example :
    ((compare same_order with_position (account 300 (position 1 ∷ [])) thresholds).hard_pass ≡ true)
    ↔ ((k : PositionKey) → AgreesOn with_position (account 300 (position 1 ∷ [])) thresholds k)
hard_pass-compare_example =
    hard_pass-compare same_order (λ ks k. refl) with_position (account 300 (position 1 ∷ []))
      thresholds

abbrev venue : ℕ → VenueWalletSnapshot ℤ
venue id = record {
  venue_id = pos id;
  exchange = pos 1;
  environment = environment_live;
  market = pos 2;
  snapshot = with_position;
}

one_sided_venue_fails_example :
    (all
        (λ d. d.hard_pass)
        (compare_venues same_order same_venues (venue 1 ∷ []) (venue 1 ∷ venue 2 ∷ []) thresholds)
      ≡ false)
    × (all
          (λ d. d.soft_pass)
          (compare_venues same_order same_venues (venue 1 ∷ []) (venue 1 ∷ venue 2 ∷ []) thresholds)
        ≡ false)
one_sided_venue_fails_example =
    one_sided_venue_fails same_order same_venues (λ ids id. refl) (venue 1 ∷ [])
      (venue 1 ∷ venue 2 ∷ []) thresholds (pos 2) refl

abbrev service : Service ℤ
service = record {
  enabled = true;
  repo = some (λ run. saved);
  thresholds = thresholds;
  range = same_order;
  venue_range = same_venues;
}

abbrev task : Task ℤ
task = record {
  account = record { account_id = pos 7; user_id = pos 5; environment = environment_live };
  local = without_position;
  exchange = with_position;
  local_venues = venue 1 ∷ [];
  exchange_venues = venue 1 ∷ venue 2 ∷ [];
  session_id = codes "s";
  strategy_id = pos 4;
  snapshot_reason = pos 1;
  trigger_time = pos 0;
}

launch_async-Accounts_example :
    Accounts (launch_async service task)
    × (count_if is_save (launch_async service task) ≡ (if is_launched service task then 1 else 0))
launch_async-Accounts_example = launch_async-Accounts service task
