-- ===== src/Engine/Orders.antt =====
-- The placing of orders: `_place_limit_order` and `_place_market_order` (engine/trading_engine.py).
use aurex_trade.Prelude.{
  ℕ, String, str_eq, not, Option, none, some, [], ◌∷◌, ◌++◌, if◌then◌else◌, Result, ok, err,
}
use aurex_trade.Prelude.Float.{Float, Format, abs, lt, ◌⊖◌}
use aurex_trade.Prelude.Dict.{lookup, insert}
use aurex_trade.Prelude.Text.{concat}
use aurex_trade.Prelude.Action.{
  Action, pure, gets, or_raise, modify, attempt, when, for_some, ◌>>=◌, ◌>>◌,
}
use aurex_trade.Domain.Models.{Signal, Order, Trade}
use aurex_trade.Engine.Ports.{StrategyPort, BrokerPort, RepositoryPort}
use aurex_trade.Engine.State.{
  Engine, Metadata, Method, is_blank_id, non_empty, read_float, ask_broker, ask_services, tell,
  log_event, mark_trade, count_trade, release_key, side_upper, side_value,
}
use aurex_trade.Engine.Opposite.{
  map_trade, record_trade_entry, place_opposite_market_order, trail_text,
}

-- the key of the grid level that a signal is for, if it has one
abbrev pub level_of : {F : Type 0} → Signal F → Option String
level_of sig = non_empty (lookup str_eq "grid_level" sig.metadata)

-- the metadata that the fill of a resting order reads
unfoldable pub resting_meta : {F : Type 0} ⦃w : Format F⦄ → Order F → Metadata → Metadata
resting_meta ⦃w⦄ order meta =
    insert str_eq "resting_units" (w.fixed 5 order.quantity) (elim order.stop_loss [
      | none ↦ meta
      | some stop ↦ insert str_eq "resting_stop_loss" (w.fixed 5 stop) meta
    ])

module _ {F S B R : Type 0} where
  unfoldable pub or_missing : Option F → Action (Engine F S B R) F
  or_missing price = or_raise price "unsupported format string passed to NoneType.__format__"

  -- the price that a signal is for
  unfoldable pub intended_price : ⦃w : Format F⦄ → Signal F → F → Action (Engine F S B R) F
  intended_price sig latest_close = elim (non_empty (lookup str_eq "entry_price" sig.metadata)) [
    | none ↦ pure latest_close
    | some text ↦ read_float text
  ]

module _ {F S B R : Type 0} ⦃f : Float F⦄ where
  -- `if current_equity > self._peak_equity`
  unfoldable pub raise_peak : F → Method F S B R
  raise_peak equity =
      modify
        (λ e. record e { peak_equity = if lt e.peak_equity equity then equity else e.peak_equity })

module _ {F S B R : Type 0} ⦃f : Float F⦄ ⦃w : Format F⦄ ⦃s : StrategyPort F S⦄ where
  -- the strategy is told that nothing was placed at a level
  unfoldable pub reject_level : Option String → Method F S B R
  reject_level level = for_some (λ key. tell (s.on_signal_rejected key)) level

  unfoldable pub reject_and_release : Option String → Method F S B R
  reject_and_release level =
      for_some (λ key. tell (s.on_signal_rejected key) >> release_key key) level

  module _ ⦃b : BrokerPort F B⦄ where
    unfoldable pub limit_filled_level : Order F → Signal F → Trade F → String → Method F S B R
    limit_filled_level order sig trade key = do
      map_trade key trade.broker_trade_id
      record_trade_entry trade.broker_trade_id (record {
        grid_key = key;
        side = order.side;
        quantity = order.quantity;
        entry_price = trade.price;
        stop_loss = order.stop_loss;
      })
      tell (s.report_fill key trade.price)
      modify (λ e. record e {
        pending_order_meta = insert str_eq key sig.metadata e.pending_order_meta;
      })
      place_opposite_market_order key trade.price

    -- the order was filled as it was placed
    unfoldable pub limit_filled : Order F → Signal F → Trade F → Method F S B R
    limit_filled order sig trade = do
      log_event "limit_fill" (
          concat (
            side_upper order.side
            ∷ " limit filled immediately @ "
            ∷ w.fixed 2 trade.price
            ∷ " (#"
            ∷ w.int_text trade.broker_trade_id
            ∷ ")"
            ∷ []))
      mark_trade trade.price (side_value order.side) order.quantity order.stop_loss
          order.take_profit trade.broker_trade_id
      count_trade
      for_some (limit_filled_level order sig trade) (level_of sig)

    -- the order rests
    unfoldable pub track_pending : Order F → Signal F → ℕ → String → Method F S B R
    track_pending order sig id key = when (not (is_blank_id id)) (
        modify (λ e. record e {
          pending_order_map = insert str_eq key id e.pending_order_map;
          pending_order_meta =
              insert str_eq key (resting_meta order sig.metadata) e.pending_order_meta;
        }))

    -- `order.limit_price:.2f` of a price that is missing raises
    unfoldable pub limit_resting : Order F → Signal F → Trade F → Method F S B R
    limit_resting order sig trade = do
      for_some (track_pending order sig trade.broker_trade_id) (level_of sig)
      price ← or_missing order.limit_price
      log_event "limit_placed" (
          concat (
            side_upper order.side
            ∷ " "
            ∷ w.text order.quantity
            ∷ " limit @ "
            ∷ w.fixed 2 price
            ∷ " (#"
            ∷ w.int_text trade.broker_trade_id
            ∷ ")"
            ∷ []))

    unfoldable pub limit_result : Order F → Signal F → Result (Trade F) → Method F S B R
    limit_result order sig (err why) = reject_level (level_of sig)
    limit_result order sig (ok trade) =
        if trade.immediately_filled
        then limit_filled order sig trade
        else limit_resting order sig trade

    unfoldable pub place_limit_order : Order F → Signal F → Method F S B R
    place_limit_order order sig = do
      outcome ← attempt (ask_broker (b.place_order order))
      limit_result order sig outcome

    module _ ⦃r : RepositoryPort F R⦄ where
      -- the position and the peak after a trade
      unfoldable pub update_position : Method F S B R
      update_position = do
        symbol ← gets (λ e. e.symbol)
        user_id ← gets (λ e. e.user_id)
        position ← ask_broker (b.get_positions symbol)
        equity ← ask_broker b.equity
        raise_peak equity
        for_some (λ p. ask_services (r.save_position p user_id)) position

      unfoldable pub market_filled_level : Order F → Trade F → String → Method F S B R
      market_filled_level order trade key = do
        when (not (is_blank_id trade.broker_trade_id)) (
            map_trade key trade.broker_trade_id
            >> record_trade_entry trade.broker_trade_id (record {
              grid_key = key;
              side = order.side;
              quantity = order.quantity;
              entry_price = trade.price;
              stop_loss = order.stop_loss;
            }))
        tell (s.report_fill key trade.price)

      unfoldable pub market_filled : Order F → Signal F → F → Trade F → Method F S B R
      market_filled order sig latest_close trade = do
        count_trade
        intended ← intended_price sig latest_close
        modify (λ e. record e { slippages = e.slippages ++ (abs (trade.price ⊖ intended) ∷ []) })
        user_id ← gets (λ e. e.user_id)
        log_event "trade" (
            concat (
              side_upper trade.side
              ∷ " "
              ∷ w.text trade.quantity
              ∷ " @ "
              ∷ w.fixed 2 trade.price
              ∷ " (#"
              ∷ w.int_text trade.broker_trade_id
              ∷ ")"
              ∷ trail_text " TS trail $" order.trailing_stop_distance
              ∷ []))
        ask_services (r.save_trade trade user_id)
        mark_trade trade.price (side_value trade.side) trade.quantity sig.stop_loss sig.take_profit
            trade.broker_trade_id
        for_some (market_filled_level order trade) (level_of sig)
        update_position

      unfoldable pub market_result : Order F → Signal F → F → Result (Trade F) → Method F S B R
      market_result order sig latest_close (err why) = reject_and_release (level_of sig)
      market_result order sig latest_close (ok trade) = market_filled order sig latest_close trade

      unfoldable pub place_market_order : Order F → Signal F → F → Method F S B R
      place_market_order order sig latest_close = do
        outcome ← attempt (ask_broker (b.place_order order))
        market_result order sig latest_close outcome
