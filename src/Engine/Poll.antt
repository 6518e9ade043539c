-- ===== src/Engine/Poll.antt =====
-- The trailing stop that is set late, and the fast poll: `_check_deferred_trailing_stop` and
-- `_run_fast_poll` (engine/trading_engine.py).
use aurex_trade.Prelude.{
  ℕ, String, str_eq, not, List, [], ◌∷◌, ◌==◌, if◌then◌else◌, Result, ok, err, filter, find, map,
}
use aurex_trade.Prelude.Float.{Float, Format, lt, ◌⊖◌, ◌⊗◌}
use aurex_trade.Prelude.Dict.{lookup}
use aurex_trade.Prelude.Text.{concat}
use aurex_trade.Prelude.Action.{Nothing, gets, attempt, done, when, for_some, ◌>>=◌, ◌>>◌}
use aurex_trade.Domain.Models.{OpenBrokerTrade}
use aurex_trade.HedgedGrid.Callbacks.{TrailingStop}
use aurex_trade.Engine.Ports.{StrategyPort, BrokerPort}
use aurex_trade.Engine.State.{Method, is_blank_id, ask_broker, tell, log_event}
use aurex_trade.Engine.Fills.{contains_id, check_limit_fills}
use aurex_trade.Engine.Closures.{check_closures, check_levels_to_close}

-- the profit of one trade at a price, for the side that the configuration names
unfoldable pub trade_profit : {F : Type 0} ⦃f : Float F⦄ → String → F → OpenBrokerTrade F → F
trade_profit side price t =
    if str_eq side "long"
    then (price ⊖ t.open_price) ⊗ t.quantity
    else (t.open_price ⊖ price) ⊗ t.quantity

module _ {F S B R : Type 0} ⦃f : Float F⦄ ⦃w : Format F⦄ ⦃s : StrategyPort F S⦄
    ⦃b : BrokerPort F B⦄ where
  unfoldable pub trailing_stop_set : TrailingStop F → ℕ → F → Result Nothing → Method F S B R
  trailing_stop_set config id profit (err why) = done
  trailing_stop_set config id profit (ok _) =
      tell s.notify_trailing_stop_set
      >> log_event "trailing_stop" (
          concat (
            "TS activated on #"
            ∷ w.int_text id
            ∷ " (profit $"
            ∷ w.fixed 2 profit
            ∷ ", trail $"
            ∷ w.fixed 0 config.distance
            ∷ ")"
            ∷ []))

  unfoldable pub activate_trailing_stop :
      TrailingStop F → ℕ → F → OpenBrokerTrade F → Method F S B R
  activate_trailing_stop config id price t =
      let profit = trade_profit config.side price t in
      when (not (lt profit config.activation_profit)) (
        attempt (ask_broker (b.set_trailing_stop id config.distance)) >>= λ outcome.
        trailing_stop_set config id profit outcome)

  unfoldable pub deferred_stop : List (OpenBrokerTrade F) → TrailingStop F → Method F S B R
  deferred_stop open_trades config = do
    mapped ← gets (λ e. lookup str_eq config.key e.grid_trade_map)
    last ← gets (λ e. e.last_price)
    for_some
        (λ id. when (not (is_blank_id id)) (
          for_some (λ t. for_some (λ price. activate_trailing_stop config id price t) last)
            (find (λ t. t.broker_trade_id == id) open_trades)))
        mapped

  unfoldable pub check_deferred_trailing_stop : List (OpenBrokerTrade F) → Method F S B R
  check_deferred_trailing_stop open_trades = do
    config ← gets (λ e. s.get_deferred_trailing_stop e.strategy)
    for_some (deferred_stop open_trades) config

  unfoldable pub run_fast_poll : Method F S B R
  run_fast_poll = do
    symbol ← gets (λ e. e.symbol)
    open_trades ← ask_broker (b.get_open_trades symbol)
    before ← gets (λ e. map (λ m. m.1) e.grid_trade_map)
    check_limit_fills open_trades
    after ← gets (λ e. map (λ m. m.1) e.grid_trade_map)
    check_closures open_trades (filter (λ id. not (contains_id id before)) after)
    check_deferred_trailing_stop open_trades
    check_levels_to_close
