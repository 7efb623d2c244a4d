-- ===== src/Domain.antt =====
-- Package internal/domain: the wallets and positions that other packages read, and enumerations.
pub mod Wallet
use core_service.Prelude.Int.{ℤ, pos}

-- Environment, Exchange, Market and SnapshotReason are int16 values.
abbrev pub environment_backtest : ℤ
environment_backtest = pos 0

abbrev pub environment_demo : ℤ
environment_demo = pos 1

abbrev pub environment_live : ℤ
environment_live = pos 2

abbrev pub market_spot : ℤ
market_spot = pos 1

abbrev pub market_perpetual_futures : ℤ
market_perpetual_futures = pos 2
