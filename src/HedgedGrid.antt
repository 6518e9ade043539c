-- ===== src/HedgedGrid.antt =====
-- The hedged doubling grid strategy,
-- src/aurex_trade/domain/strategy/ciby_hedged_doubling_grid.py.
pub mod State
pub mod Grid
pub mod Callbacks
pub mod Generate
pub mod Events
pub mod Sessions
pub mod Apart
pub mod Levels
pub mod Keys
pub mod Shutdown
pub mod Doubling
mod Tests
