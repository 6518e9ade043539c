-- ===== src/SimBroker.antt =====
-- The simulated broker of the backtests, src/aurex_trade/adapters/backtest/broker.py.
pub mod State
pub mod Position
pub mod Orders
pub mod Bar
pub mod Views
pub mod Book
pub mod Valid
pub mod Friction
pub mod Stops
pub mod Accounts
pub mod Cancels
pub mod Netting
mod Tests
