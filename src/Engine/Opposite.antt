-- ===== src/Engine/Opposite.antt =====
-- The market order on the opposite side that follows the fill of a limit order:
-- `_place_opposite_market_order` and `_record_trade_entry` (engine/trading_engine.py).
use aurex_trade.Prelude.{
  ℕ, String, str_eq, not, ◌||◌, Option, none, some, [], ◌∷◌, ◌++◌, ◌==◌, if◌then◌else◌, Result, ok,
  err,
}
use aurex_trade.Prelude.Float.{Float, Format, abs, eq, nought, ◌⊖◌}
use aurex_trade.Prelude.Dict.{lookup, insert, erase}
use aurex_trade.Prelude.Text.{concat}
use aurex_trade.Prelude.Action.{Action, gets, modify, attempt, done, when, for_some, ◌>>=◌, ◌>>◌}
use aurex_trade.Domain.Enums.{OrderSide, OrderType, OrderStatus}
use aurex_trade.Domain.Models.{Order, Trade}
use aurex_trade.Engine.Ports.{StrategyPort, BrokerPort}
use aurex_trade.Engine.State.{
  Engine, TradeEntry, Metadata, Method, is_blank_id, side_lower, text_or, read_float, read_optional,
  ask_broker, tell, log_event, mark_trade, count_trade, fresh_id, capped, level_price,
}

-- what the metadata of a limit order say of the order on the opposite side
pub record Leg (F : Type 0) : Type 0 where
  pub side_text : String
  pub grid_key : String
  pub side : OrderSide
  pub quantity : F
  pub stop_loss : Option F
  pub take_profit : Option F
  pub trailing_stop_distance : Option F

abbrev pub side_of_text : String → OrderSide
side_of_text text = if str_eq text "BUY" then OrderSide.buy else OrderSide.sell

-- `f", TS trail ${d:.0f}" if d else ""`
abbrev pub trail_text : {F : Type 0} ⦃f : Float F⦄ ⦃w : Format F⦄ → String → Option F → String
trail_text start none = ""
trail_text ⦃w = w⦄ start (some d) = if eq d nought then "" else concat (start ∷ w.fixed 0 d ∷ [])

module _ {F S B R : Type 0} where
  -- the mapping of a trade for closure detection
  unfoldable pub map_trade : String → ℕ → Method F S B R
  map_trade key id =
      modify (λ e. record e { grid_trade_map = insert str_eq key id e.grid_trade_map })

  unfoldable pub record_trade_entry : ℕ → TradeEntry F → Method F S B R
  record_trade_entry id entry =
      when (not (is_blank_id id))
        (modify (λ e. record e { trade_entry = insert ◌==◌ id entry e.trade_entry }))

  unfoldable pub opposite_order : Leg F → ℕ → Engine F S B R → Order F
  opposite_order leg id e = record {
    id = id;
    signal_id = 0;
    symbol = e.symbol;
    side = leg.side;
    order_type = OrderType.market;
    quantity = leg.quantity;
    limit_price = none;
    stop_loss = leg.stop_loss;
    take_profit = leg.take_profit;
    trailing_stop_distance = leg.trailing_stop_distance;
    status = OrderStatus.pending;
    timestamp = e.clock;
  }

module _ {F S B R : Type 0} ⦃f : Float F⦄ ⦃w : Format F⦄ where
  -- the metadata read, and the quantity capped
  unfoldable pub read_leg : Metadata → Action (Engine F S B R) (Leg F)
  read_leg meta = do
    quantity ← read_float (text_or "1.0" (lookup str_eq "fixed_units" meta))
    stop ← read_optional (lookup str_eq "opposite_stop_loss" meta)
    distance ← read_optional (lookup str_eq "trailing_stop_distance" meta)
    target ← read_optional (lookup str_eq "opposite_take_profit" meta)
    gets (λ e. record {
      side_text = text_or "" (lookup str_eq "opposite_side" meta);
      grid_key = text_or "" (lookup str_eq "opposite_grid_level" meta);
      side = side_of_text (text_or "" (lookup str_eq "opposite_side" meta));
      quantity = capped e.risk_engine quantity;
      stop_loss = stop;
      take_profit = target;
      trailing_stop_distance = distance;
    })

  module _ ⦃s : StrategyPort F S⦄ where
    -- what follows the fill of the order
    unfoldable pub leg_filled : Leg F → F → Trade F → Method F S B R
    leg_filled leg limit_fill_price trade = do
      when (not (is_blank_id trade.broker_trade_id)) (
          map_trade leg.grid_key trade.broker_trade_id
          >> record_trade_entry trade.broker_trade_id (record {
            grid_key = leg.grid_key;
            side = leg.side;
            quantity = leg.quantity;
            entry_price = trade.price;
            stop_loss = leg.stop_loss;
          }))
      tell (s.report_fill leg.grid_key trade.price)
      let slippage = abs (trade.price ⊖ level_price leg.grid_key limit_fill_price)
      modify (λ e. record e { slippages = e.slippages ++ (slippage ∷ []) })
      log_event "market_fill" (
          concat (
            leg.side_text
            ∷ " market @ "
            ∷ w.fixed 2 trade.price
            ∷ " (#"
            ∷ w.int_text trade.broker_trade_id
            ∷ ", slippage $"
            ∷ w.fixed 2 slippage
            ∷ trail_text ", TS trail $" leg.trailing_stop_distance
            ∷ ")"
            ∷ []))
      mark_trade trade.price (side_lower leg.side_text) leg.quantity leg.stop_loss none
          trade.broker_trade_id
      count_trade

    module _ ⦃b : BrokerPort F B⦄ where
      unfoldable pub leg_result : Leg F → F → Result (Trade F) → Method F S B R
      leg_result leg price (err why) = done
      leg_result leg price (ok trade) = leg_filled leg price trade

      unfoldable pub place_leg : Leg F → F → Method F S B R
      place_leg leg price = do
        id ← fresh_id
        order ← gets (opposite_order leg id)
        outcome ← attempt (ask_broker (b.place_order order))
        leg_result leg price outcome

      unfoldable pub opposite_of_meta : F → Metadata → Method F S B R
      opposite_of_meta price meta =
          when
            (not (
              str_eq (text_or "" (lookup str_eq "opposite_side" meta)) ""
              || str_eq (text_or "" (lookup str_eq "opposite_grid_level" meta)) ""))
            (read_leg meta >>= λ leg. place_leg leg price)

      unfoldable pub place_opposite_market_order : String → F → Method F S B R
      place_opposite_market_order key price = do
        meta ← gets (λ e. lookup str_eq key e.pending_order_meta)
        modify (λ e. record e { pending_order_meta = erase str_eq key e.pending_order_meta })
        for_some (opposite_of_meta price) meta
