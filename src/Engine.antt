-- ===== src/Engine.antt =====
-- The trading engine, src/aurex_trade/engine/trading_engine.py: the loop that fetches prices, asks the
-- strategy for signals and the risk engine for decisions, places orders, and finds out what the broker
-- has filled and closed.
pub mod Ports
pub mod State
pub mod Opposite
pub mod Fills
pub mod Closures
pub mod Poll
pub mod CloseAll
pub mod Orders
pub mod Signals
pub mod Cycle
pub mod Loop
pub mod Guarded
pub mod Limits
pub mod Legs
pub mod Breaker
pub mod Vanished
pub mod Ledger
pub mod Accounts
pub mod Drain
pub mod Samples
mod Tests
