-- ===== src/Domain/Models.antt =====
-- src/aurex_trade/domain/models.py. Ids are numbers, and a time is a number of seconds.
use aurex_trade.Prelude.{ℕ, Option, String, Bool}
use aurex_trade.Prelude.Dict.{Dict}
use aurex_trade.Domain.Enums.{OrderSide, SignalType, OrderType, OrderStatus, RiskAction}

pub record BarData (F : Type 0) : Type 0 where
  pub timestamp : ℕ
  pub open_price : F
  pub high : F
  pub low : F
  pub close : F
  pub volume : F
  pub symbol : String

pub record Signal (F : Type 0) : Type 0 where
  pub id : ℕ
  pub timestamp : ℕ
  pub symbol : String
  pub signal_type : SignalType
  pub strategy_name : String
  pub strength : F
  pub metadata : Dict String String
  pub stop_loss : Option F
  pub take_profit : Option F

pub record RiskDecision : Type 0 where
  pub signal_id : ℕ
  pub action : RiskAction
  pub reason : String
  pub timestamp : ℕ

pub record Order (F : Type 0) : Type 0 where
  pub id : ℕ
  pub signal_id : ℕ
  pub symbol : String
  pub side : OrderSide
  pub order_type : OrderType
  pub quantity : F
  pub limit_price : Option F
  pub stop_loss : Option F
  pub take_profit : Option F
  pub trailing_stop_distance : Option F
  pub status : OrderStatus
  pub timestamp : ℕ

pub record Trade (F : Type 0) : Type 0 where
  pub id : ℕ
  pub order_id : ℕ
  pub symbol : String
  pub side : OrderSide
  pub quantity : F
  pub price : F
  pub commission : F
  pub broker_trade_id : ℕ
  pub timestamp : ℕ
  pub immediately_filled : Bool

pub record Position (F : Type 0) : Type 0 where
  pub symbol : String
  pub quantity : F
  pub average_cost : F
  pub market_value : F
  pub unrealized_pnl : F
  pub realized_pnl : F
  pub timestamp : Option ℕ

pub record OpenBrokerTrade (F : Type 0) : Type 0 where
  pub broker_trade_id : ℕ
  pub symbol : String
  pub side : OrderSide
  pub quantity : F
  pub open_price : F

pub record ClosedTradeInfo (F : Type 0) : Type 0 where
  pub broker_trade_id : ℕ
  pub close_price : F
  pub realized_pnl : F
  pub close_reason : String

pub record PendingOrder (F : Type 0) : Type 0 where
  pub broker_order_id : ℕ
  pub symbol : String
  pub side : OrderSide
  pub quantity : F
  pub limit_price : F
  pub grid_level_key : String

pub record AccountState (F : Type 0) : Type 0 where
  pub equity : F
  pub peak_equity : F
