-- ===== src/Engine/State.antt =====
-- The fields of `TradingEngine` (engine/trading_engine.py) and its records, and how a method of the
-- engine calls the broker, the strategy and the rest. A text id is a number, 0 for the empty text; a
-- time is `clock`, and a date its whole days. Logging is left out, the engine's own event log is not.
use aurex_trade.Prelude.{
  ℕ, ◌/◌, ◌+◌, String, Bool, Option, none, some, List, [], ◌∷◌, ◌++◌, ◌==◌, str_eq, if◌then◌else◌,
  ok,
}
use aurex_trade.Prelude.Float.{Float, Format, nought, lt, min}
use aurex_trade.Prelude.Dict.{Dict}
use aurex_trade.Prelude.Text.{concat, split_last}
use aurex_trade.Prelude.Action.{Action, Nothing, modify, or_raise, pure, ◌>>=◌}
use aurex_trade.Domain.Enums.{OrderSide, SignalType}
use aurex_trade.Risk.{RiskEngine}
use aurex_trade.Engine.Ports.{StrategyPort}

pub record EquitySnapshot (F : Type 0) : Type 0 where
  pub timestamp : ℕ
  pub equity : F
  pub price : F

pub record TradeMarker (F : Type 0) : Type 0 where
  pub timestamp : ℕ
  pub price : F
  pub side : String
  pub quantity : F
  pub stop_loss : Option F
  pub take_profit : Option F
  pub broker_trade_id : ℕ

pub record TradeEntry (F : Type 0) : Type 0 where
  pub grid_key : String
  pub side : OrderSide
  pub quantity : F
  pub entry_price : F
  pub stop_loss : Option F

pub record EventLogEntry : Type 0 where
  pub timestamp : ℕ
  pub event : String
  pub details : String

pub record SessionSummary (F : Type 0) : Type 0 where
  pub session_number : ℕ
  pub started_at : ℕ
  pub ended_at : ℕ
  pub reason : String
  pub trades_closed : ℕ
  pub realized_pnl : F

pub record RealizedLedgerEntry (F : Type 0) : Type 0 where
  pub timestamp : ℕ
  pub kind : String
  pub realized_pnl : Option F
  pub basis : String
  pub grid_level : String
  pub broker_trade_id : ℕ

abbrev pub Metadata : Type 0
Metadata = Dict String String

pub record Engine (F S B R : Type 0) : Type 0 where
  pub strategy : S
  pub broker : B
  pub services : R
  pub risk_engine : RiskEngine F
  pub symbol : String
  pub interval_seconds : ℕ
  pub bar_count : ℕ
  pub fallback_position_size : F
  pub user_id : String
  pub has_run_store : Bool
  pub run_id : ℕ
  pub session_seq : ℕ
  pub running : Bool
  pub session_signals : ℕ
  pub session_trades : ℕ
  pub session_rejections : ℕ
  pub peak_equity : F
  pub trade_pnls : List F
  pub slippages : List F
  pub run_start_balance : Option F
  pub session_start_balance : Option F
  pub day_start_balance : Option F
  pub balance_day : Option ℕ
  pub last_balance : Option F
  pub cycle_count : ℕ
  pub started_at : Option ℕ
  pub last_price : Option F
  pub equity_history : List (EquitySnapshot F)
  pub trade_markers : List (TradeMarker F)
  pub grid_trade_map : Dict String ℕ
  pub trade_entry : Dict ℕ (TradeEntry F)
  pub grid_logged : Bool
  pub pending_order_map : Dict String ℕ
  pub pending_order_meta : Dict String Metadata
  pub event_log : List EventLogEntry
  pub realized_ledger : List (RealizedLedgerEntry F)
  pub close_all_failed_count : ℕ
  pub close_all_next_retry_at : Option ℕ
  pub balance_read_failures : ℕ
  pub max_open_trades : ℕ
  pub session_history : List (SessionSummary F)
  pub session_start_at : Option ℕ
  pub session_trades_count : ℕ
  pub clock : ℕ
  pub next_id : ℕ

-- a method of the engine that returns nothing
abbrev pub Method : (F S B R : Type 0) → Type 0
Method F S B R = Action (Engine F S B R) Nothing

-- `strftime("%Y-%m-%d")`
abbrev pub day_of : ℕ → ℕ
day_of time = time / 86400

-- `if not broker_trade_id`
abbrev pub is_blank_id : ℕ → Bool
is_blank_id id = id == 0

-- `if text`, for what `metadata.get` gives: `None` and the empty text are false
abbrev pub non_empty : Option String → Option String
non_empty none = none
non_empty (some t) = if str_eq t "" then none else some t

-- `side.value.upper()`, `side.value`
abbrev pub side_upper : OrderSide → String
side_upper OrderSide.buy = "BUY"
side_upper OrderSide.sell = "SELL"

abbrev pub side_value : OrderSide → String
side_value OrderSide.buy = "buy"
side_value OrderSide.sell = "sell"

abbrev pub signal_upper : SignalType → String
signal_upper SignalType.long = "LONG"
signal_upper SignalType.short = "SHORT"
signal_upper SignalType.flat = "FLAT"

-- `text.lower()`, of the two sides that a strategy writes
abbrev pub side_lower : String → String
side_lower text = if str_eq text "BUY" then "buy" else if str_eq text "SELL" then "sell" else text

-- `f"{x:+.2f}"`
abbrev pub signed : {F : Type 0} ⦃f : Float F⦄ ⦃w : Format F⦄ → F → String
signed ⦃w = w⦄ x = if lt x nought then w.fixed 2 x else concat ("+" ∷ w.fixed 2 x ∷ [])

module _ {F S B R : Type 0} where
  -- a call of the broker, of the repository and its like, and of the strategy's `generate`
  unfoldable pub ask_broker : {A : Type 0} → Action B A → Action (Engine F S B R) A
  ask_broker m e = let (r, b) = m e.broker in (r, record e { broker = b })

  unfoldable pub ask_services : {A : Type 0} → Action R A → Action (Engine F S B R) A
  ask_services m e = let (r, t) = m e.services in (r, record e { services = t })

  unfoldable pub ask_strategy : {A : Type 0} → Action S A → Action (Engine F S B R) A
  ask_strategy m e = let (r, t) = m e.strategy in (r, record e { strategy = t })

  -- a hook of the strategy
  unfoldable pub tell : (S → S) → Method F S B R
  tell g = modify (λ e. record e { strategy = g e.strategy })

  -- `self._event_log.append`
  unfoldable pub log_event : String → String → Method F S B R
  log_event event details = modify (λ e. record e {
    event_log =
        e.event_log ++ (record { timestamp = e.clock; event = event; details = details } ∷ []);
  })

  unfoldable pub mark_trade : (price : F) → String → F → Option F → Option F → ℕ → Method F S B R
  mark_trade price side quantity stop_loss take_profit id = modify (λ e. record e {
    trade_markers =
        e.trade_markers
        ++ (record {
          timestamp = e.clock;
          price = price;
          side = side;
          quantity = quantity;
          stop_loss = stop_loss;
          take_profit = take_profit;
          broker_trade_id = id;
        }
            ∷ []);
  })

  unfoldable pub record_ledger : String → Option F → String → String → ℕ → Method F S B R
  record_ledger kind pnl basis key id = modify (λ e. record e {
    realized_ledger =
        e.realized_ledger
        ++ (record {
          timestamp = e.clock;
          kind = kind;
          realized_pnl = pnl;
          basis = basis;
          grid_level = key;
          broker_trade_id = id;
        }
            ∷ []);
  })

  -- what a marked trade and a hit of the risk checks count
  unfoldable pub count_trade : Method F S B R
  count_trade = modify (λ e. record e { session_trades = e.session_trades + 1 })

-- `release(float(key))`, with a ValueError suppressed
unfoldable pub release_key :
    {F S B R : Type 0} ⦃w : Format F⦄ ⦃s : StrategyPort F S⦄ → String → Method F S B R
release_key ⦃w⦄ ⦃s⦄ key =
    tell (λ t. elim (w.parse key) [ none ↦ t | some level ↦ s.release_level level t ])

module _ {F S B R : Type 0} ⦃w : Format F⦄ where
  -- `float(text)`
  unfoldable pub read_float : String → Action (Engine F S B R) F
  read_float text = or_raise (w.parse text) "could not convert string to float"

  -- `float(text) if text else None`
  unfoldable pub read_optional : Option String → Action (Engine F S B R) (Option F)
  read_optional text = elim (non_empty text) [
    | none ↦ pure none
    | some t ↦ read_float t >>= λ x. pure (some x)
  ]

-- the identity of a new order, as `uuid4` gives it
unfoldable pub fresh_id : {F S B R : Type 0} → Action (Engine F S B R) ℕ
fresh_id e = (ok e.next_id, record e { next_id = e.next_id + 1 })

-- `min(quantity, max_position_size)` if the risk engine is enabled
unfoldable pub capped : {F : Type 0} ⦃f : Float F⦄ → RiskEngine F → F → F
capped ⦃f⦄ r quantity = if r.enabled then min quantity (f.of_nat r.max_position_size) else quantity

-- the level that a key names, `float(key.rsplit("_", 1)[0])`, or `default` on a ValueError
unfoldable pub level_price : {F : Type 0} ⦃w : Format F⦄ → String → F → F
level_price ⦃w⦄ key default =
    let text : String = elim (split_last key) [ none ↦ key | some (level, side) ↦ level ] in
    elim (w.parse text) [ none ↦ default | some price ↦ price ]

-- `d.get(key, default)`
abbrev pub text_or : String → Option String → String
text_or default none = default
text_or default (some t) = t
