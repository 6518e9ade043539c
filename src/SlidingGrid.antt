-- ===== src/SlidingGrid.antt =====
-- The sliding grid strategy, src/aurex_trade/domain/strategy/ciby_sliding_grid.py: a window of hedged
-- pairs that follows the price.
pub mod State
pub mod Ladder
pub mod Placing
pub mod Steps
pub mod Display
pub mod Halting
pub mod Stops
mod Tests
