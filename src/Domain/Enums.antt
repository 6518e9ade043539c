-- ===== src/Domain/Enums.antt =====
-- src/aurex_trade/domain/enums.py
use aurex_trade.Prelude.{Bool, true, false}

pub data TradingMode : Type 0 where
  local paper live : TradingMode

pub data OrderSide : Type 0 where
  buy sell : OrderSide

pub data SignalType : Type 0 where
  long short flat : SignalType

pub data OrderType : Type 0 where
  market limit stop : OrderType

pub data OrderStatus : Type 0 where
  pending submitted filled cancelled rejected : OrderStatus

pub data RiskAction : Type 0 where
  approved rejected kill_switch : RiskAction

-- `side == OrderSide.BUY`
abbrev pub is_buy : OrderSide → Bool
is_buy OrderSide.buy = true
is_buy OrderSide.sell = false
