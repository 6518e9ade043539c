-- ===== src/PaperBroker.antt =====
-- The broker of the local mode, src/aurex_trade/adapters/paper/broker.py: it fills every order at
-- once, at a price that it makes up. `str(self._trade_counter)` is the counter itself. All bars that
-- one call makes take the same `now`, in seconds; a literal like 0.002 is the quotient 2 / 1000.
pub mod Bars
pub mod Trades
mod Tests
use aurex_trade.Prelude.{
  ℕ, zero, suc, ◌+◌, ◌-◌, ◌*◌, String, str_eq, Bool, true, false, Option, none, some, List, [], ◌∷◌,
  ◌++◌, ◌==◌, if◌then◌else◌, Result, ok, err, length, filter, map, get_last?, is_some, tail_slice,
}
use aurex_trade.Prelude.Float.{Float, ◌⊕◌, ◌⊖◌, ◌⊗◌, ◌⊘◌, nought, neg, abs, max, min, round}
use aurex_trade.Prelude.Dict.{Dict, lookup, insert, erase, contains}
use aurex_trade.Domain.Enums.{OrderSide}
use aurex_trade.Domain.Models.{BarData, Order, Trade, Position, OpenBrokerTrade, ClosedTradeInfo}
use aurex_trade.SimBroker.State.{Rng}
use aurex_trade.SimBroker.Position.{net, netted_position, realize, position_or}

-- `random.gauss`, with the mean and the deviation
pub record Gauss (F R : Type 0) : Type 0 where
  pub gauss : F → F → R → F × R

pub record Paper (F R : Type 0) : Type 0 where
  pub base_price : F
  pub rng : R
  pub positions : Dict String (Position F)
  pub price_history : Dict String (List (BarData F))
  pub capital : F
  pub open_trades : Dict ℕ (OpenBrokerTrade F)
  pub trade_counter : ℕ
  pub next_id : ℕ

-- `d.get(symbol, [])`
abbrev pub history_of : {A : Type 0} → String → Dict String (List A) → List A
history_of symbol d = elim (lookup str_eq symbol d) [ none ↦ [] | some xs ↦ xs ]

module _ {F : Type 0} ⦃f : Float F⦄ where
  -- the close that the walk goes on from
  abbrev pub prev_close : F → List (BarData F) → F
  prev_close base history = elim (get_last? history) [ none ↦ base | some bar ↦ bar.close ]

module _ {F R : Type 0} ⦃f : Float F⦄ where
  unfoldable open_paper : F → F → R → ℕ → Paper F R
  open_paper base initial_capital rng next_id = record {
    base_price = base;
    rng = rng;
    positions = [];
    price_history = [];
    capital = initial_capital;
    open_trades = [];
    trade_counter = 0;
    next_id = next_id;
  }

  unfoldable paper_equity : Paper F R → F
  paper_equity b = b.capital ⊕ sum_unrealized b.positions
    where
      sum_unrealized : Dict String (Position F) → F
      sum_unrealized [] = nought
      sum_unrealized ((symbol, p) ∷ ps) = p.unrealized_pnl ⊕ sum_unrealized ps

  -- `_update_position`, which nets like the simulated broker, with a cost of four digits
  pub paper_position : String → OrderSide → (quantity price : F) → Paper F R → Paper F R
  paper_position symbol side quantity price b =
      let (current_qty, current_cost, realized_pnl) =
        position_or (lookup str_eq symbol b.positions) in
      let n = net side current_qty current_cost quantity price in
      record b {
        capital = realize n.pnl b.capital;
        positions =
            insert str_eq symbol (netted_position 4 symbol n price (realize n.pnl realized_pnl))
              b.positions;
      }

  -- What `place_order` does once it has the price.
  pub paper_fill : ℕ → Order F → F → Paper F R → Trade F × Paper F R
  paper_fill now order fill_price b0 =
      let b = paper_position order.symbol order.side order.quantity fill_price b0 in
      let broker_trade_id = b.trade_counter + 1 in
      let trade : OpenBrokerTrade F = record {
        broker_trade_id = broker_trade_id;
        symbol = order.symbol;
        side = order.side;
        quantity = order.quantity;
        open_price = fill_price;
      } in
      (
        record {
          id = b.next_id;
          order_id = order.id;
          symbol = order.symbol;
          side = order.side;
          quantity = order.quantity;
          price = fill_price;
          commission = nought;
          broker_trade_id = broker_trade_id;
          timestamp = now;
          immediately_filled = false;
        },
        record b {
          trade_counter = broker_trade_id;
          open_trades = insert ◌==◌ broker_trade_id trade b.open_trades;
          next_id = b.next_id + 1;
        },
      )

  module _ ⦃g : Rng F R⦄ ⦃n : Gauss F R⦄ where
    -- `_generate_bar`, with the history of the symbol that the broker has stored
    pub generate_bar : F → List (BarData F) → String → ℕ → ℕ → R → BarData F × R
    generate_bar base stored symbol index now rng =
        let (drift, rng1) = n.gauss nought (f.of_nat 2 ⊘ f.of_nat 1000) rng in
        let close = prev_close base stored ⊗ (f.of_nat 1 ⊕ drift) in
        let (noise, rng2) = n.gauss nought (f.of_nat 1 ⊘ f.of_nat 1000) rng1 in
        let spread = abs (close ⊗ noise) in
        let (offset, rng3) = g.uniform (neg spread) spread rng2 in
        let open_price = close ⊕ offset in
        let high = max open_price close ⊕ abs spread in
        let low = min open_price close ⊖ abs spread in
        let (volume, rng4) = g.uniform (f.of_nat 500) (f.of_nat 5000) rng3 in
        (
          record {
            timestamp = now + 60 * index - 60 * 1000;
            open_price = round 2 open_price;
            high = round 2 high;
            low = round 2 low;
            close = round 2 close;
            volume = round 2 volume;
            symbol = symbol;
          },
          rng4,
        )

    -- The loop of `get_latest_bars`, for the number of bars that are missing. It appends to a list
    -- that the broker has stored, if it has one for the symbol, and to a new list otherwise, which
    -- `_generate_bar` does not see.
    unfoldable pub extend : ℕ → Bool → F → String → ℕ → List (BarData F) → R → List (BarData F) × R
    extend zero stored base symbol now history rng = (history, rng)
    extend (suc missing) stored base symbol now history rng =
        let (bar, rng') =
          generate_bar base (if stored then history else []) symbol (length history) now rng in
        extend missing stored base symbol now (history ++ (bar ∷ [])) rng'

    pub get_latest_bars : ℕ → String → ℕ → Paper F R → List (BarData F) × Paper F R
    get_latest_bars now symbol count b =
        let history = history_of symbol b.price_history in
        let (history', rng') =
          extend (count - length history) (contains str_eq symbol b.price_history) b.base_price
            symbol now history b.rng in
        (
          tail_slice count history',
          record b { rng = rng'; price_history = insert str_eq symbol history' b.price_history },
        )

    -- An empty list of bars would be an IndexError.
    pub paper_order : ℕ → Order F → Paper F R → Result (Trade F × Paper F R)
    paper_order now order b =
        let (bars, b1) = get_latest_bars now order.symbol 1 b in
        elim (get_last? bars) [
          | none ↦ err "IndexError"
          | some bar ↦ ok (paper_fill now order bar.close b1)
        ]

module _ {F R : Type 0} where
  unfoldable paper_positions : String → Paper F R → Option (Position F)
  paper_positions symbol b = lookup str_eq symbol b.positions

  unfoldable paper_open_trades : String → Paper F R → List (OpenBrokerTrade F)
  paper_open_trades symbol b = filter (λ t. str_eq t.symbol symbol) (map (λ e. e.1) b.open_trades)

  -- The error names the trade.
  pub paper_close : ℕ → Paper F R → Result (Option (ClosedTradeInfo F) × Paper F R)
  paper_close id b =
      if contains ◌==◌ id b.open_trades
      then ok (none, record b { open_trades = erase ◌==◌ id b.open_trades })
      else err "Trade not found"
