-- ===== src/SimBroker/Position.antt =====
-- `_update_position` of adapters/backtest/broker.py: the net position of a symbol after a fill.
use aurex_trade.Prelude.{ℕ, String, str_eq, Option, none, some, if◌then◌else◌, not}
use aurex_trade.Prelude.Float.{Float, ◌⊕◌, ◌⊖◌, ◌⊗◌, ◌⊘◌, nought, lt, le, eq, min, abs, round}
use aurex_trade.Prelude.Dict.{lookup, insert}
use aurex_trade.Domain.Enums.{OrderSide}
use aurex_trade.Domain.Models.{Position}
use aurex_trade.SimBroker.State.{Broker}

-- What the two branches of the method compute: the new quantity and average cost, and the profit
-- that the fill realizes, if it closes anything.
pub record Netting (F : Type 0) : Type 0 where
  pub new_qty : F
  pub new_avg : F
  pub pnl : Option F

module _ {F : Type 0} ⦃f : Float F⦄ where
  unfoldable pub net_buy : (current_qty current_cost quantity price : F) → Netting F
  net_buy current_qty current_cost quantity price =
      let new_qty = current_qty ⊕ quantity in
      record {
        new_qty = new_qty;
        new_avg =
            if not (eq new_qty nought)
            then if le nought current_qty
              then (current_qty ⊗ current_cost ⊕ quantity ⊗ price) ⊘ new_qty
              else if lt nought new_qty
              then price
              else current_cost
            else nought;
        pnl =
            if lt current_qty nought
            then some (min quantity (abs current_qty) ⊗ (current_cost ⊖ price))
            else none;
      }

  unfoldable pub net_sell : (current_qty current_cost quantity price : F) → Netting F
  net_sell current_qty current_cost quantity price =
      let new_qty = current_qty ⊖ quantity in
      record {
        new_qty = new_qty;
        new_avg =
            if not (eq new_qty nought)
            then if le current_qty nought
              then (abs current_qty ⊗ current_cost ⊕ quantity ⊗ price) ⊘ abs new_qty
              else if lt new_qty nought
              then price
              else current_cost
            else nought;
        pnl =
            if lt nought current_qty
            then some (min quantity current_qty ⊗ (price ⊖ current_cost))
            else none;
      }

  unfoldable pub net : OrderSide → (current_qty current_cost quantity price : F) → Netting F
  net OrderSide.buy = net_buy
  net OrderSide.sell = net_sell

  -- `x += pnl`, on the branch that realizes one
  abbrev pub realize : Option F → F → F
  realize none x = x
  realize (some pnl) x = x ⊕ pnl

  -- quantity, average cost and realized profit of `self._positions.get(symbol)`
  abbrev pub position_or : Option (Position F) → F × F × F
  position_or none = (nought, nought, nought)
  position_or (some p) = (p.quantity, p.average_cost, p.realized_pnl)

  -- The record that the method stores, with the average cost rounded to so many digits.
  unfoldable pub netted_position : ℕ → String → Netting F → F → F → Position F
  netted_position digits symbol n price realized_pnl = record {
    symbol = symbol;
    quantity = n.new_qty;
    average_cost = round digits n.new_avg;
    market_value = round 2 (if eq n.new_qty nought then nought else n.new_qty ⊗ price);
    unrealized_pnl =
        round 2 (if eq n.new_qty nought then nought else n.new_qty ⊗ (price ⊖ n.new_avg));
    realized_pnl = round 2 realized_pnl;
    timestamp = none;
  }

  unfoldable pub update_position :
      {R : Type 0} → String → OrderSide → (quantity price : F) → Broker F R → Broker F R
  update_position symbol side quantity price b =
      let (current_qty, current_cost, realized_pnl) =
        position_or (lookup str_eq symbol b.positions) in
      let n = net side current_qty current_cost quantity price in
      record b {
        capital = realize n.pnl b.capital;
        positions =
            insert str_eq symbol (netted_position 5 symbol n price (realize n.pnl realized_pnl))
              b.positions;
      }
