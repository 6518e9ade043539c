-- ===== src/Engine/Ports.antt =====
-- What the engine asks of the rest of the program: ports/broker.py, ports/market_data.py,
-- ports/repository.py, ports/run_store.py and domain/strategy/base.py, with the hooks of a strategy that
-- the engine looks up by `getattr`. A hook that a strategy does not have leaves it as it is. The broker
-- has the state `B`, the strategy `S`; the repository, the price feed and the run store share `R`.
use aurex_trade.Prelude.{ℕ, String, Bool, Option, List}
use aurex_trade.Prelude.Action.{Action, Nothing}
use aurex_trade.Domain.Models.{
  BarData, Signal, RiskDecision, Order, Trade, Position, OpenBrokerTrade, ClosedTradeInfo,
  PendingOrder,
}
use aurex_trade.HedgedGrid.Callbacks.{TrailingStop}

-- `get_account_summary()`
pub record AccountSummary (F : Type 0) : Type 0 where
  pub balance : F
  pub unrealized_pnl : F
  pub open_position_count : ℕ

pub record BrokerPort (F B : Type 0) : Type 0 where
  pub equity : Action B F
  pub place_order : Order F → Action B (Trade F)
  pub get_positions : String → Action B (Option (Position F))
  pub get_open_trades : String → Action B (List (OpenBrokerTrade F))
  pub get_pending_orders : String → Action B (List (PendingOrder F))
  pub cancel_all_orders : String → Action B ℕ
  pub cancel_pending_order : ℕ → Action B Bool
  pub close_trade : ℕ → Action B (Option (ClosedTradeInfo F))
  pub set_trailing_stop : ℕ → F → Action B Nothing
  -- `none` for a broker without this method
  pub get_account_summary : Option (Action B (AccountSummary F))

pub record StrategyPort (F S : Type 0) : Type 0 where
  pub name : String
  pub generate : List (BarData F) → Action S (Option (Signal F))
  pub report_fill : String → F → S → S
  pub report_trade_closed : String → F → String → S → S
  pub on_signal_rejected : String → S → S
  pub release_level : F → S → S
  pub update_unrealized_pnl : F → S → S
  pub set_realized_pnl : F → F → S → S
  pub notify_close_all_complete : S → S
  pub get_levels_to_close : S → List String × S
  pub get_deferred_trailing_stop : S → Option (TrailingStop F)
  pub notify_trailing_stop_set : S → S
  -- whether `get_display_state()` has an "anchor_price"
  pub has_anchor : S → Bool
  -- the attribute `_session_realized_pnl`, if it is there and a number
  pub session_realized_pnl : S → Option F

pub record RepositoryPort (F R : Type 0) : Type 0 where
  pub save_signal : Signal F → String → Action R Nothing
  pub save_decision : RiskDecision → String → Action R Nothing
  pub save_trade : Trade F → String → Action R Nothing
  pub save_position : Position F → String → Action R Nothing
  pub get_trades_today : String → String → Action R (List (Trade F))
  pub get_latest_bars : String → ℕ → Action R (List (BarData F))
  pub start_run : (run_id : ℕ) (started_at : ℕ) (initial_equity : F) → Action R Nothing
  pub finish_run :
      (run_id : ℕ) (ended_at : ℕ) (stop_reason : String) (total_cycles sessions closures : ℕ)
      (net_realized final_equity : F)
      → Action R Nothing
