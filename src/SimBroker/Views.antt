-- ===== src/SimBroker/Views.antt =====
-- What the broker shows of its state, adapters/backtest/broker.py.
use aurex_trade.Prelude.{
  ℕ, String, str_eq, Option, none, some, List, [], ◌∷◌, map, ◌==◌, if◌then◌else◌, filter,
}
use aurex_trade.Prelude.Float.{Float, ◌⊕◌, ◌⊖◌, ◌⊗◌, nought, eq, round}
use aurex_trade.Prelude.Dict
use aurex_trade.Prelude.Dict.{Dict}
use aurex_trade.Domain.Models.{BarData, Position, OpenBrokerTrade, ClosedTradeInfo, PendingOrder}
use aurex_trade.SimBroker.State.{PendingEntry, OpenTrade, Broker}
use aurex_trade.SimBroker.Orders.{gross_pnl}

module _ {F : Type 0} where
  abbrev as_open_trade : OpenTrade F → OpenBrokerTrade F
  as_open_trade t = record {
    broker_trade_id = t.broker_trade_id;
    symbol = t.symbol;
    side = t.side;
    quantity = t.quantity;
    open_price = t.open_price;
  }

  abbrev as_pending_order : PendingEntry F → PendingOrder F
  as_pending_order p = record {
    broker_order_id = p.broker_order_id;
    symbol = p.symbol;
    side = p.side;
    quantity = p.quantity;
    limit_price = p.limit_price;
    grid_level_key = p.grid_level_key;
  }

  module _ ⦃f : Float F⦄ where
    -- a position marked to the market of the current bar
    abbrev marked : Position F → Option (BarData F) → Position F
    marked p none = p
    marked p (some bar) = if eq p.quantity nought then p else record {
      symbol = p.symbol;
      quantity = p.quantity;
      average_cost = p.average_cost;
      market_value = round 2 (p.quantity ⊗ bar.close);
      unrealized_pnl = round 2 (p.quantity ⊗ (bar.close ⊖ p.average_cost));
      realized_pnl = p.realized_pnl;
      timestamp = some bar.timestamp;
    }

    abbrev sum_open : F → F → List (OpenTrade F) → F
    sum_open price acc [] = acc
    sum_open price acc (t ∷ ts) = sum_open price (acc ⊕ gross_pnl t price) ts

    abbrev sum_positions : F → F → Dict String (Position F) → F
    sum_positions price acc [] = acc
    sum_positions price acc ((k, p) ∷ ps) =
        sum_positions price
          (if eq p.quantity nought then acc else acc ⊕ p.quantity ⊗ (price ⊖ p.average_cost)) ps

module _ {F R : Type 0} where
  unfoldable pub get_open_trades : String → Broker F R → List (OpenBrokerTrade F)
  get_open_trades symbol b = map as_open_trade (filter (λ t. str_eq t.symbol symbol) b.open_trades)

  unfoldable pub get_closed_trade_details : ℕ → Broker F R → Option (ClosedTradeInfo F)
  get_closed_trade_details id b = Dict.lookup ◌==◌ id b.closed_trades

  unfoldable pub get_pending_orders : String → Broker F R → List (PendingOrder F)
  get_pending_orders symbol b =
      map as_pending_order (filter (λ p. str_eq p.symbol symbol) b.pending_orders)

  module _ ⦃f : Float F⦄ where
    unfoldable pub get_positions : String → Broker F R → Option (Position F)
    get_positions symbol b = elim (Dict.lookup str_eq symbol b.positions) [
      | none ↦ none
      | some p ↦ some (marked p b.current_bar)
    ]

    -- the property `equity`
    unfoldable pub equity : Broker F R → F
    equity b = b.capital ⊕ elim b.current_bar [
      | none ↦ nought
      | some bar ↦
          if b.grid_mode
          then sum_open bar.close nought b.open_trades
          else sum_positions bar.close nought b.positions
    ]
