-- ===== src/Engine/Signals.antt =====
-- From a signal to an order: `_process_signal` (engine/trading_engine.py).
use aurex_trade.Prelude.{
  ℕ, ◌+◌, String, str_eq, Bool, true, false, not, ◌&&◌, ◌||◌, Option, none, some, List, [], ◌∷◌,
  ltb, leb, if◌then◌else◌,
}
use aurex_trade.Prelude.Float.{Float, Format, le, nought}
use aurex_trade.Prelude.Dict.{lookup}
use aurex_trade.Prelude.Text.{concat}
use aurex_trade.Prelude.Action.{Action, gets, modify, ◌>>=◌, ◌>>◌}
use aurex_trade.Domain.Enums.{OrderSide, OrderType, OrderStatus, SignalType, RiskAction, is_buy}
use aurex_trade.Domain.Models.{Signal, Order, Trade, Position, AccountState, RiskDecision}
use aurex_trade.Risk.{RiskEngine, evaluate, calculate_position_size}
use aurex_trade.Engine.Ports.{StrategyPort, BrokerPort, RepositoryPort}
use aurex_trade.Engine.State.{
  Engine, Method, non_empty, text_or, read_float, read_optional, ask_broker, ask_services,
  log_event, capped, signal_upper,
}
use aurex_trade.Engine.Orders.{
  level_of, raise_peak, reject_level, reject_and_release, place_limit_order, place_market_order,
}
use aurex_trade.Engine.CloseAll.{close_all_trades}

abbrev pub is_flat : SignalType → Bool
is_flat SignalType.long = false
is_flat SignalType.short = false
is_flat SignalType.flat = true

abbrev pub side_of_signal : SignalType → OrderSide
side_of_signal SignalType.long = OrderSide.buy
side_of_signal SignalType.short = OrderSide.sell
side_of_signal SignalType.flat = OrderSide.sell

abbrev pub is_approved : RiskAction → Bool
is_approved RiskAction.approved = true
is_approved RiskAction.rejected = false
is_approved RiskAction.kill_switch = false

-- `metadata.get(name) == value`
abbrev pub says : String → Option String → Bool
says value none = false
says value (some t) = str_eq t value

-- the type of the order that the metadata ask for
abbrev pub order_type_of : Option String → OrderType
order_type_of none = OrderType.market
order_type_of (some t) =
    if str_eq t "LIMIT"
    then OrderType.limit
    else if str_eq t "STOP"
    then OrderType.stop
    else OrderType.market

abbrev pub is_resting : OrderType → Bool
is_resting OrderType.market = false
is_resting OrderType.limit = true
is_resting OrderType.stop = true

module _ {F : Type 0} where
  unfoldable pub is_close_all : Signal F → Bool
  is_close_all sig =
      is_flat sig.signal_type && says "close_all" (lookup str_eq "action" sig.metadata)

  -- the price that the order is expected to be filled at
  abbrev pub entry_reference : Order F → F → Option F
  entry_reference order latest_close =
      if is_resting order.order_type then order.limit_price else some latest_close

module _ {F : Type 0} ⦃f : Float F⦄ where
  abbrev pub on_wrong_side : OrderSide → F → F → Bool
  on_wrong_side side stop entry =
      (is_buy side && le entry stop) || (not (is_buy side) && le stop entry)

  -- a stop-loss beyond the entry
  unfoldable pub stop_on_wrong_side : Order F → F → Bool
  stop_on_wrong_side order latest_close = elim order.stop_loss [
    | none ↦ false
    | some stop ↦ elim (entry_reference order latest_close) [
      | none ↦ false
      | some entry ↦ on_wrong_side order.side stop entry
    ]
  ]

  -- the quantity without fixed units, before it is capped
  unfoldable pub computed_size : RiskEngine F → F → Signal F → AccountState F → F → F
  computed_size r fallback sig account latest_close =
      let size = calculate_position_size r sig account latest_close in
      if le size nought then fallback else size

module _ {F S B R : Type 0} ⦃f : Float F⦄ ⦃w : Format F⦄ where
  -- the quantity before it is capped
  unfoldable pub quantity_of : Signal F → AccountState F → F → Action (Engine F S B R) F
  quantity_of sig account latest_close =
      elim (non_empty (lookup str_eq "fixed_units" sig.metadata)) [
        | none ↦
            gets
              (λ e. computed_size e.risk_engine e.fallback_position_size sig account latest_close)
        | some text ↦ read_float text
      ]

  -- the order for a signal that the risk engine has approved
  unfoldable pub build_order : Signal F → AccountState F → F → Action (Engine F S B R) (Order F)
  build_order sig account latest_close = do
    quantity ← quantity_of sig account latest_close
    limit_price ← read_optional (lookup str_eq "limit_price" sig.metadata)
    distance ← read_optional (lookup str_eq "trailing_stop_distance" sig.metadata)
    modify (λ e. record e { next_id = e.next_id + 1 })
    gets (λ e. record {
      id = e.next_id;
      signal_id = sig.id;
      symbol = e.symbol;
      side = side_of_signal sig.signal_type;
      order_type = order_type_of (lookup str_eq "order_type" sig.metadata);
      quantity = capped e.risk_engine quantity;
      limit_price = limit_price;
      stop_loss = sig.stop_loss;
      take_profit = sig.take_profit;
      trailing_stop_distance = distance;
      status = OrderStatus.pending;
      timestamp = e.clock;
    })

  -- the decision of the risk engine, in the state in which it is asked
  unfoldable pub decision_of :
      Signal F
      → Option (Position F)
      → List (Trade F)
      → AccountState F
      → Engine F S B R
      → RiskDecision
  decision_of sig position trades account e =
      evaluate e.clock e.risk_engine sig position trades (some account) (some e.trade_pnls)

module _ {F S B R : Type 0} ⦃f : Float F⦄ ⦃w : Format F⦄ ⦃s : StrategyPort F S⦄ ⦃b : BrokerPort F B⦄
    ⦃r : RepositoryPort F R⦄ where
  unfoldable pub reject_signal : Signal F → String → Method F S B R
  reject_signal sig reason = do
    modify (λ e. record e { session_rejections = e.session_rejections + 1 })
    log_event "rejected" (concat (signal_upper sig.signal_type ∷ " rejected: " ∷ reason ∷ []))
    reject_and_release (level_of sig)

  -- the last guard, and the placing
  unfoldable pub submit : Order F → Signal F → F → Method F S B R
  submit order sig latest_close =
      if stop_on_wrong_side order latest_close
      then reject_level (level_of sig)
      else if is_resting order.order_type
      then place_limit_order order sig
      else place_market_order order sig latest_close

  unfoldable pub place_approved : Signal F → AccountState F → F → Method F S B R
  place_approved sig account latest_close =
      build_order sig account latest_close >>= λ order. submit order sig latest_close

  unfoldable pub decide_signal :
      Signal F → F → Option (Position F) → List (Trade F) → AccountState F → Method F S B R
  decide_signal sig latest_close position trades account = do
    user_id ← gets (λ e. e.user_id)
    decision ← gets (decision_of sig position trades account)
    ask_services (r.save_decision decision user_id)
    if is_approved decision.action
        then place_approved sig account latest_close
        else reject_signal sig decision.reason

  unfoldable pub consider_signal :
      Signal F → F → Option (Position F) → List (Trade F) → Method F S B R
  consider_signal sig latest_close position trades = do
    modify (λ e. record e { session_signals = e.session_signals + 1 })
    user_id ← gets (λ e. e.user_id)
    ask_services (r.save_signal sig user_id)
    equity ← ask_broker b.equity
    raise_peak equity
    account ← gets (λ e. record { equity = equity; peak_equity = e.peak_equity })
    decide_signal sig latest_close position trades account

  unfoldable pub reject_over_cap : ℕ → Method F S B R
  reject_over_cap open_count = do
    limit ← gets (λ e. e.max_open_trades)
    log_event "rejected" (
        concat
          ("Max open trades reached (" ∷ w.int_text open_count ∷ "/" ∷ w.int_text limit ∷ ")" ∷ []))

  unfoldable pub process_signal :
      F → Option (Position F) → List (Trade F) → ℕ → Signal F → Method F S B R
  process_signal latest_close position trades open_count sig = do
    full ← gets (λ e. ltb 0 e.max_open_trades && leb e.max_open_trades open_count)
    if is_close_all sig
        then close_all_trades (text_or "unknown" (lookup str_eq "reason" sig.metadata))
        else if full
        then reject_over_cap open_count
        else consider_signal sig latest_close position trades
