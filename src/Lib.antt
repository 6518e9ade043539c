-- ===== src/Lib.antt =====
-- Verification of aurex-trade, an automated trading system: strategies give signals, a risk engine
-- lets them pass or not, and a broker (simulated, paper or remote) fills the orders; results are
-- measured, and a web application runs bots and tasks for its users.
--
-- The parts, and the code that each is about:
-- - Prelude: shared helpers. Float is what the code does with floats, a parameter of everything, with
--   the laws of their order where a theorem needs them; Format is how numbers are written and read;
--   Math is what is taken from the module `math`; Dict is a dict in insertion order; Keys is for lists
--   of records with ids; Action is a method that changes a state and may raise, and Action.Keeps what it
--   keeps; Text is `rsplit`, `in` and f-strings; Int has the integers of the examples.
-- - Domain: the types of src/aurex_trade/domain/enums.py and src/aurex_trade/domain/models.py.
-- - Risk: src/aurex_trade/domain/risk/engine.py. `evaluate` and `calculate_position_size` are the
--   methods of the same names; `drawdown_breach`, `losing_streak`, `held` and `daily_pnl` are the rules'
--   computations. Rules is about the decisions, Sizing about the sizes.
-- - SimBroker: src/aurex_trade/adapters/backtest/broker.py. State has the records and the friction,
--   Orders the placing, closing and cancelling, Position `_update_position`, Bar `process_bar`, and
--   Views what only reads. Book and Valid are the invariant; Stops, Accounts, Friction, Cancels and
--   Netting are about what the operations do.
-- - HedgedGrid: src/aurex_trade/domain/strategy/ciby_hedged_doubling_grid.py. State has the fields and
--   the resets, Grid the levels and the doubling, Generate `generate`, Callbacks what the engine
--   reports, and Events runs of all of these calls in any order. Shutdown, Sessions, Keys, Doubling,
--   Apart and Levels are about them.
-- - SlidingGrid: src/aurex_trade/domain/strategy/ciby_sliding_grid.py. State has the fields and the
--   resets, Ladder the levels and what goes with one, Placing what is placed, retracted and trimmed, and
--   Steps `generate` and the callbacks; Display is what it shows. Halting and Stops are about
--   them.
-- - Engine: src/aurex_trade/engine/trading_engine.py. Ports has the broker, strategy, repository and
--   services of a run as interfaces, after src/aurex_trade/ports and
--   src/aurex_trade/domain/strategy/base.py; State has the fields. Opposite is
--   `_place_opposite_market_order`, Fills `_check_limit_fills`, Closures `_check_closures`, Poll the fast
--   poll, CloseAll the closing of all trades with its circuit breaker, Orders and Signals what becomes of
--   a signal, Cycle `_run_strategy_cycle`, and Loop `run`. Guarded and its modules say that what every
--   port keeps, the engine keeps; Limits, Legs, Breaker, Vanished, Ledger, Accounts and Drain are about its
--   parts.
-- - MarketData: src/aurex_trade/adapters/backtest/market_data.py; Window and Progress are about it.
-- - Metrics: src/aurex_trade/metrics.py; Drawdown and Counts are about it.
-- - PaperBroker: src/aurex_trade/adapters/paper/broker.py; Bars and Trades are about it.
-- - Repository: src/aurex_trade/adapters/memory/repository.py; Users is about it.
-- - Sweep: src/aurex_trade/backtest/sweep.py, with the result record of
--   src/aurex_trade/backtest/results.py; a single backtest is an argument. Combinations and
--   Ranking are about it.
-- - WalkForward: src/aurex_trade/backtest/walk_forward.py, on top of Sweep. Windows is about the slices,
--   Trained about what a run returns.
-- - Web: BotSessions is src/aurex_trade/web/_bot_sessions.py, and Tasks is
--   src/aurex_trade/web/tasks.py, with Eviction and TaskLimit about it.
-- - Examples: instances of the parameters, for the Tests modules, which run the theorems.
--
-- How the code is modelled: an object is a record, and a method that changes it returns the new
-- record beside its result. An exception is an `err`. A float is a value of a type `F` with the
-- operations of Float; a literal like 0.002 is a quotient of whole numbers. Random generators are
-- state with the draws as parameters, and `uuid4` counts. Ids are numbers, times are seconds, and
-- `sum` over positions or trades adds one after the other. Logging is left out. No function takes
-- fuel: every loop is over a list, or over the number of bars that are missing; a run of the engine is
-- over a list of ticks, each with what its round of the loop reads of the clock and of the outside.
-- In the engine ids are numbers, of which 0 is the empty id, and one operation takes one time. A method
-- of the broker or of the services may raise, which leaves what was done before it; a hook of a
-- strategy does not raise, and one that the strategy does not have changes nothing.
--
-- Not modelled: the runner and the command line of src/aurex_trade/backtest/, and the rate
-- limits of src/aurex_trade/web/ratelimit.py. The adapters of OANDA, Google and SQLite, the routes,
-- schemas and templates of the web application, the configuration and the command line are calls of
-- other programs and libraries. What strategies and the engine show to the user interface (`metadata`,
-- the hedged grid's `get_display_state`, `get_metrics`, `get_financials`, `get_risk_summary`,
-- `get_strategy_state`) is left out, and of the paper broker the methods that answer a constant.
pub mod Prelude
pub mod Domain
pub mod Engine
pub mod Risk
pub mod SimBroker
pub mod HedgedGrid
pub mod MarketData
pub mod Metrics
pub mod PaperBroker
pub mod Repository
pub mod SlidingGrid
pub mod Sweep
pub mod WalkForward
pub mod Web
pub mod Examples
