-- ===== src/Web.antt =====
-- The registries of the web application, src/aurex_trade/web/: bot sessions and background tasks.
pub mod BotSessions
pub mod Tasks
pub mod Eviction
pub mod TaskLimit
mod Tests
