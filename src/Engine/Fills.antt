-- ===== src/Engine/Fills.antt =====
-- How the engine finds out which resting orders have been filled: `_check_limit_fills`
-- (engine/trading_engine.py).
use aurex_trade.Prelude.{
  ℕ, zero, suc, ◌+◌, String, str_eq, Bool, true, not, ◌&&◌, Option, none, some, List, [], ◌∷◌, ◌==◌,
  if◌then◌else◌, Result, ok, err, filter, any, map,
}
use aurex_trade.Prelude.Float.{Float, Format, abs, lt, nought, ◌⊖◌}
use aurex_trade.Prelude.Dict.{Dict, lookup, erase}
use aurex_trade.Prelude.Text.{concat, ends_with}
use aurex_trade.Prelude.Action.{gets, modify, attempt, done, ◌>>=◌, ◌>>◌}
use aurex_trade.Domain.Enums.{OrderSide, is_buy}
use aurex_trade.Domain.Models.{OpenBrokerTrade, PendingOrder}
use aurex_trade.Engine.Ports.{StrategyPort, BrokerPort}
use aurex_trade.Engine.State.{
  Method, is_blank_id, read_optional, ask_broker, tell, log_event, mark_trade, count_trade,
  level_price, side_upper, side_value,
}
use aurex_trade.Engine.Opposite.{map_trade, record_trade_entry, place_opposite_market_order}

-- the side of the order that rests under a key
abbrev pub key_side : String → OrderSide
key_side key = if ends_with "_long" key then OrderSide.buy else OrderSide.sell

abbrev pub same_side : OrderSide → OrderSide → Bool
same_side a b = if is_buy a then is_buy b else not (is_buy b)

-- `xs.pop(i)`: what is left
abbrev pub remove_at : {A : Type 0} → ℕ → List A → List A
remove_at i [] = []
remove_at zero (x ∷ xs) = xs
remove_at (suc i) (x ∷ xs) = x ∷ remove_at i xs

abbrev pub ids_of : {F : Type 0} → List (OpenBrokerTrade F) → List ℕ
ids_of [] = []
ids_of (t ∷ ts) = t.broker_trade_id ∷ ids_of ts

abbrev pub contains_id : ℕ → List ℕ → Bool
contains_id id = any (λ j. j == id)

-- the pending orders that the broker no longer reports
unfoldable pub disappeared : {F : Type 0} → List (PendingOrder F) → Dict String ℕ → Dict String ℕ
disappeared orders =
    filter (λ e. not (any (λ (o : PendingOrder _). o.broker_order_id == e.1) orders))

-- the open trades that are not mapped yet
unfoldable pub new_trades :
    {F : Type 0} → List ℕ → List (OpenBrokerTrade F) → List (OpenBrokerTrade F)
new_trades known = filter (λ t. not (contains_id t.broker_trade_id known))

module _ {F : Type 0} ⦃f : Float F⦄ where
  -- the loop for the nearest open price of a side: `i` is the index of the first trade left, and
  -- `best` the nearest one so far, with its index and its distance (`none` is the distance `inf`)
  unfoldable pub closest :
      OrderSide
      → F
      → ℕ
      → Option (ℕ × F × OpenBrokerTrade F)
      → List (OpenBrokerTrade F)
      → Option (ℕ × F × OpenBrokerTrade F)
  closest side price i best [] = best
  closest side price i best (t ∷ ts) =
      let distance = abs (t.open_price ⊖ price) in
      let nearer : Bool = elim best [ none ↦ true | some (j, d, u) ↦ lt distance d ] in
      closest side price (i + 1)
        (if same_side t.side side && nearer then some (i, distance, t) else best) ts

  -- the trade that a fill is matched with, and the trades that are left to match
  unfoldable pub match_trade :
      OrderSide
      → F
      → List (OpenBrokerTrade F)
      → Option (OpenBrokerTrade F) × List (OpenBrokerTrade F)
  match_trade side price ts = elim (closest side price 0 none ts) [
    | none ↦ (none, ts)
    | some (i, d, t) ↦ (if is_blank_id t.broker_trade_id then none else some t, remove_at i ts)
  ]

module _ {F S B R : Type 0} ⦃f : Float F⦄ ⦃w : Format F⦄ ⦃s : StrategyPort F S⦄
    ⦃b : BrokerPort F B⦄ where
  -- what the metadata of the order say of the trade, recorded for a later closure
  unfoldable pub record_fill_entry : String → OpenBrokerTrade F → Method F S B R
  record_fill_entry key trade = do
    meta ← gets (λ e. lookup str_eq key e.pending_order_meta)
    let field : String → Option String =
        λ name. elim meta [ none ↦ none | some m ↦ lookup str_eq name m ]
    units ← read_optional (field "resting_units")
    stop ← read_optional (field "resting_stop_loss")
    record_trade_entry trade.broker_trade_id (record {
      grid_key = key;
      side = key_side key;
      quantity = elim units [ none ↦ nought | some x ↦ x ];
      entry_price = trade.open_price;
      stop_loss = stop;
    })

  unfoldable pub confirm_fill : String → OpenBrokerTrade F → Method F S B R
  confirm_fill key trade = do
    map_trade key trade.broker_trade_id
    record_fill_entry key trade
    tell (s.report_fill key trade.open_price)
    log_event "limit_fill" (
        concat (
          side_upper (key_side key)
          ∷ " limit filled @ "
          ∷ w.fixed 2 trade.open_price
          ∷ " (#"
          ∷ w.int_text trade.broker_trade_id
          ∷ ")"
          ∷ []))
    mark_trade trade.open_price (side_value (key_side key)) nought none none trade.broker_trade_id
    count_trade
    place_opposite_market_order key trade.open_price

  -- an order without a matching trade was cancelled
  unfoldable pub settle : String → Option (OpenBrokerTrade F) → Method F S B R
  settle key none = tell (s.on_signal_rejected key)
  settle key (some trade) = confirm_fill key trade

  -- the loop over the orders that have disappeared
  unfoldable pub settle_each : Dict String ℕ → List (OpenBrokerTrade F) → Method F S B R
  settle_each [] trades = done
  settle_each ((key, id) ∷ gone) trades =
      let (matched, left) = match_trade (key_side key) (level_price key nought) trades in
      modify (λ e. record e { pending_order_map = erase str_eq key e.pending_order_map })
      >> settle key matched
      >> settle_each gone left

  unfoldable pub compare_pending :
      List (OpenBrokerTrade F) → Result (List (PendingOrder F)) → Method F S B R
  compare_pending open_trades (err why) = done
  compare_pending open_trades (ok orders) = do
    gone ← gets (λ e. disappeared orders e.pending_order_map)
    fresh ← gets (λ e. new_trades (map (λ m. m.1) e.grid_trade_map) open_trades)
    settle_each gone fresh

  -- nothing is asked while no order is pending
  unfoldable pub poll_pending : List (OpenBrokerTrade F) → String → Dict String ℕ → Method F S B R
  poll_pending open_trades symbol [] = done
  poll_pending open_trades symbol (p ∷ ps) =
      attempt (ask_broker (b.get_pending_orders symbol)) >>= λ outcome.
      compare_pending open_trades outcome

  unfoldable pub check_limit_fills : List (OpenBrokerTrade F) → Method F S B R
  check_limit_fills open_trades = do
    pending ← gets (λ e. e.pending_order_map)
    symbol ← gets (λ e. e.symbol)
    poll_pending open_trades symbol pending
