-- ===== src/SimBroker/State.antt =====
-- The state of `SimulatedBrokerAdapter` and what every fill goes through
-- (adapters/backtest/broker.py). The adapter's random generator and `uuid4` are part of the state:
-- the generator as a value `rng`, and the ids that `uuid4` is to give as the numbers from `next_id`.
use aurex_trade.Prelude.{ℕ, ◌+◌, String, Bool, Option, none, some, List, [], if◌then◌else◌}
use aurex_trade.Prelude.Float.{Float, ◌⊕◌, ◌⊖◌, ◌⊘◌, nought, round}
use aurex_trade.Prelude.Dict.{Dict}
use aurex_trade.Domain.Enums.{OrderSide, is_buy}
use aurex_trade.Domain.Models.{BarData, Position, ClosedTradeInfo}

-- `random.Random`: `uniform a b` draws a number between its arguments.
pub record Rng (F R : Type 0) : Type 0 where
  pub uniform : F → F → R → F × R

-- `_PendingLimitOrder`
pub record PendingEntry (F : Type 0) : Type 0 where
  pub broker_order_id : ℕ
  pub symbol : String
  pub side : OrderSide
  pub quantity : F
  pub limit_price : F
  pub stop_loss : Option F
  pub grid_level_key : String
  pub metadata : Dict String String
  pub is_stop : Bool

-- `_OpenTrade`
pub record OpenTrade (F : Type 0) : Type 0 where
  pub broker_trade_id : ℕ
  pub symbol : String
  pub side : OrderSide
  pub quantity : F
  pub open_price : F
  pub stop_loss : Option F
  pub grid_level_key : String

pub record Broker (F R : Type 0) : Type 0 where
  pub capital : F
  pub initial_capital : F
  pub spread : F
  pub slippage : F
  pub commission_per_trade : F
  pub rng : R
  pub next_id : ℕ
  pub positions : Dict String (Position F)
  pub current_bar : Option (BarData F)
  pub total_commission : F
  pub grid_mode : Bool
  pub pending_orders : List (PendingEntry F)
  pub open_trades : List (OpenTrade F)
  pub closed_trades : Dict ℕ (ClosedTradeInfo F)

module _ {F : Type 0} where
  abbrev pub order_id : PendingEntry F → ℕ
  order_id p = p.broker_order_id

  abbrev pub trade_id : OpenTrade F → ℕ
  trade_id t = t.broker_trade_id

  -- `x or 0.0`
  abbrev pub or_nought : ⦃f : Float F⦄ → Option F → F
  or_nought none = nought
  or_nought (some x) = x

module _ {F R : Type 0} where
  -- `__init__`
  unfoldable pub init :
      ⦃f : Float F⦄ → (initial spread slippage commission : F) → R → ℕ → Bool → Broker F R
  init initial spread slippage commission rng next_id grid_mode = record {
    capital = initial;
    initial_capital = initial;
    spread = spread;
    slippage = slippage;
    commission_per_trade = commission;
    rng = rng;
    next_id = next_id;
    positions = [];
    current_bar = none;
    total_commission = nought;
    grid_mode = grid_mode;
    pending_orders = [];
    open_trades = [];
    closed_trades = [];
  }

  unfoldable pub set_current_bar : BarData F → Broker F R → Broker F R
  set_current_bar bar b = record b { current_bar = some bar }

  -- `uuid4()`
  abbrev pub new_id : Broker F R → ℕ × Broker F R
  new_id b = (b.next_id, record b { next_id = b.next_id + 1 })

  module _ ⦃f : Float F⦄ where
    -- `self._total_commission += commission; self._capital -= commission`
    unfoldable pub pay_commission : Broker F R → Broker F R
    pay_commission b = record b {
      total_commission = b.total_commission ⊕ b.commission_per_trade;
      capital = b.capital ⊖ b.commission_per_trade;
    }

  module _ ⦃f : Float F⦄ ⦃g : Rng F R⦄ where
    -- `_apply_friction`
    unfoldable pub apply_friction : OrderSide → F → Broker F R → F × Broker F R
    apply_friction side base b =
        let half_spread = b.spread ⊘ f.of_nat 2 in
        let (slip, rng') = g.uniform nought b.slippage b.rng in
        (
          if is_buy side
              then round 5 (base ⊕ half_spread ⊕ slip)
              else round 5 (base ⊖ half_spread ⊖ slip),
          record b { rng = rng' },
        )
