-- ===== src/SlidingGrid/State.antt =====
-- The fields of `CibySlidingGridStrategy` (domain/strategy/ciby_sliding_grid.py), its resets, and what it
-- is told of profits. Levels are floats and are compared by `==`; sets are lists without repetitions.
-- `next_id` numbers what `uuid4` gives, and `clock` is the time of a new signal; a date is the whole days
-- of a time.
use aurex_trade.Prelude.{
  ℕ, ◌+◌, String, str_eq, Bool, true, false, Option, none, some, List, [], ◌∷◌, ◌++◌, any, not,
  filter, if◌then◌else◌,
}
use aurex_trade.Prelude.Float.{Float, nought, eq, round}
use aurex_trade.Prelude.Dict.{Dict, lookup, insert}
use aurex_trade.Domain.Enums.{SignalType}
use aurex_trade.Domain.Models.{BarData, Signal}

pub record SessionRecord (F : Type 0) : Type 0 where
  pub session : ℕ
  pub reason : String
  pub pnl : F

pub record Sliding (F : Type 0) : Type 0 where
  pub grid_spacing : F
  pub anchor_gap : F
  pub buy_sell_offset : F
  pub anchor_units : F
  pub grid_units : F
  pub stop_buffer : F
  pub max_levels_ahead : ℕ
  pub max_levels_behind : ℕ
  pub session_profit_target : F
  pub session_loss_limit : F
  pub daily_loss_limit : F
  pub symbol : String
  pub anchor_price : Option F
  pub current_price : F
  pub levels : List F
  pub signal_queue : List (Signal F)
  pub placed : Dict F (List String)
  pub filled : Dict F (List String)
  pub stopped : Dict F (List String)
  pub fill_prices : Dict F (Dict String F)
  pub order_types : Dict String String
  pub pending_close : List String
  pub retired : List F
  pub session_realized_pnl : F
  pub session_unrealized_pnl : F
  pub daily_realized_pnl : F
  pub realized_authoritative : Bool
  pub session_active : Bool
  pub current_date : Option ℕ
  pub close_all_in_progress : Bool
  pub close_reason : String
  pub session_count : ℕ
  pub session_history : List (SessionRecord F)
  pub next_id : ℕ
  pub clock : ℕ

abbrev pub sliding_name : String
sliding_name = "ciby_sliding_grid"

-- `set.add` and `set.discard`, for sets of texts
abbrev pub add_text : String → List String → List String
add_text t ts = if any (λ x. str_eq t x) ts then ts else ts ++ (t ∷ [])

abbrev pub drop_text : String → List String → List String
drop_text t = filter (λ x. not (str_eq t x))

module _ {F : Type 0} ⦃f : Float F⦄ where
  -- `d.get(level, set())`
  abbrev pub sides_at : F → Dict F (List String) → List String
  sides_at level d = elim (lookup eq level d) [ none ↦ [] | some sides ↦ sides ]

  -- `d.setdefault(level, set()).add(side)`
  abbrev pub add_side_at : F → String → Dict F (List String) → Dict F (List String)
  add_side_at level side d = insert eq level (add_text side (sides_at level d)) d

  -- `d.get(level, set()).discard(side)`
  abbrev pub drop_side_at : F → String → Dict F (List String) → Dict F (List String)
  drop_side_at level side d = elim (lookup eq level d) [
    | none ↦ d
    | some sides ↦ insert eq level (drop_text side sides) d
  ]

  abbrev pub has_side : F → String → Dict F (List String) → Bool
  has_side level side d = any (λ x. str_eq side x) (sides_at level d)

  -- `__init__`
  unfoldable pub new_sliding :
      (spacing gap offset anchor_units grid_units buffer : F)
      → ℕ
      → ℕ
      → (target loss_limit daily_limit : F) → ℕ
      → ℕ
      → Sliding F
  new_sliding spacing gap offset anchor_units grid_units buffer ahead behind target loss_limit
        daily_limit next_id clock =
      record {
        grid_spacing = spacing;
        anchor_gap = gap;
        buy_sell_offset = offset;
        anchor_units = anchor_units;
        grid_units = grid_units;
        stop_buffer = buffer;
        max_levels_ahead = ahead;
        max_levels_behind = behind;
        session_profit_target = target;
        session_loss_limit = loss_limit;
        daily_loss_limit = daily_limit;
        symbol = "";
        anchor_price = none;
        current_price = nought;
        levels = [];
        signal_queue = [];
        placed = [];
        filled = [];
        stopped = [];
        fill_prices = [];
        order_types = [];
        pending_close = [];
        retired = [];
        session_realized_pnl = nought;
        session_unrealized_pnl = nought;
        daily_realized_pnl = nought;
        realized_authoritative = false;
        session_active = true;
        current_date = none;
        close_all_in_progress = false;
        close_reason = "";
        session_count = 1;
        session_history = [];
        next_id = next_id;
        clock = clock;
      }

  -- `_clear_grid_positions`
  unfoldable pub clear_grid_positions : Sliding F → Sliding F
  clear_grid_positions s = record s {
    signal_queue = [];
    placed = [];
    filled = [];
    stopped = [];
    fill_prices = [];
    order_types = [];
    pending_close = [];
    retired = [];
    session_unrealized_pnl = nought;
    close_all_in_progress = false;
  }

  unfoldable pub restart_sliding : Sliding F → Sliding F
  restart_sliding s = record (clear_grid_positions s) {
    anchor_price = none;
    levels = [];
    session_realized_pnl = nought;
    session_count = s.session_count + 1;
  }

  unfoldable pub sliding_close_complete : Sliding F → Sliding F
  sliding_close_complete s =
      let s1 = record s { close_all_in_progress = false } in
      if s1.session_active then restart_sliding s1 else clear_grid_positions s1

  unfoldable pub begin_close_all : String → Sliding F → Sliding F
  begin_close_all reason s = record s {
    close_reason = reason;
    close_all_in_progress = true;
    signal_queue = [];
    session_history =
        s.session_history
        ++ (record {
          session = s.session_count;
          reason = reason;
          pnl = round 2 s.session_realized_pnl;
        }
            ∷ []);
  }

  unfoldable pub flat_signal : BarData F → String → Sliding F → Option (Signal F) × Sliding F
  flat_signal bar reason s = (
    some (record {
      id = s.next_id;
      timestamp = s.clock;
      symbol = bar.symbol;
      signal_type = SignalType.flat;
      strategy_name = sliding_name;
      strength = f.of_nat 1;
      metadata = ("action", "close_all") ∷ ("reason", reason) ∷ [];
      stop_loss = none;
      take_profit = none;
    }),
    record s { next_id = s.next_id + 1 },
  )

module _ {F : Type 0} where
  unfoldable pub set_unrealized : F → Sliding F → Sliding F
  set_unrealized pnl s = record s { session_unrealized_pnl = pnl }

  unfoldable pub set_realized : F → F → Sliding F → Sliding F
  set_realized session daily s = record s {
    realized_authoritative = true;
    session_realized_pnl = session;
    daily_realized_pnl = daily;
  }
