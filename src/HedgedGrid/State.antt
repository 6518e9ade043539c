-- ===== src/HedgedGrid/State.antt =====
-- The state of `CibyHedgedDoublingGridStrategy`
-- (domain/strategy/ciby_hedged_doubling_grid.py), and the helpers that reset it. Levels are floats and
-- are compared by `==`; sets are lists. `next_id` numbers what `uuid4` gives, and `clock` is the time
-- that `_utc_now` gives.
use aurex_trade.Prelude.{
  ℕ, ◌+◌, String, Bool, true, false, Option, none, List, [], ◌∷◌, if◌then◌else◌, any, not, filter,
}
use aurex_trade.Prelude.Float.{Float, nought, eq}
use aurex_trade.Prelude.Dict.{Dict}
use aurex_trade.Domain.Enums.{SignalType}
use aurex_trade.Domain.Models.{BarData, Signal}

pub record Grid (F : Type 0) : Type 0 where
  pub spacing : F
  pub units : F
  pub trailing_stop_distance : F
  pub session_loss_limit : F
  pub whipsaw_limit : ℕ
  pub symbol : String
  pub anchor_price : Option F
  pub current_price : F
  pub signal_queue : List (Signal F)
  pub levels_above : List F
  pub levels_below : List F
  pub placed_levels : List F
  pub placed_limit_side : Dict F String
  pub filled_levels : Dict F ℕ
  pub filled_entry_prices : Dict F (Dict String F)
  pub pair_closed_sides : Dict ℕ (List String)
  pub doubled_level : Option F
  pub doubled_side : String
  pub doubled_grid_key : String
  pub doubled_active : Bool
  pub doubled_trailing_stop_set : Bool
  pub doubled_has_broker_tp : Bool
  pub level_trigger_counts : Dict F ℕ
  pub session_paused : Bool
  pub session_realized_pnl : F
  pub session_unrealized_pnl : F
  pub close_all_pending : Bool
  pub close_all_in_progress : Bool
  pub close_reason : String
  pub session_active : Bool
  pub next_id : ℕ
  pub clock : ℕ

abbrev pub strategy_name : String
strategy_name = "ciby_hedged_doubling_grid"

module _ {F : Type 0} ⦃f : Float F⦄ where
  -- `level in levels`, for a set or a list of levels
  abbrev pub has_level : F → List F → Bool
  has_level level = any (λ l. eq level l)

  -- `levels.discard(level)`
  abbrev pub discard : F → List F → List F
  discard level = filter (λ l. not (eq level l))

  -- `__init__`
  unfoldable pub init : (spacing units trail loss_limit : F) → ℕ → ℕ → ℕ → Grid F
  init spacing units trail loss_limit whipsaw_limit next_id clock = record {
    spacing = spacing;
    units = units;
    trailing_stop_distance = trail;
    session_loss_limit = loss_limit;
    whipsaw_limit = whipsaw_limit;
    symbol = "";
    anchor_price = none;
    current_price = nought;
    signal_queue = [];
    levels_above = [];
    levels_below = [];
    placed_levels = [];
    placed_limit_side = [];
    filled_levels = [];
    filled_entry_prices = [];
    pair_closed_sides = [];
    doubled_level = none;
    doubled_side = "";
    doubled_grid_key = "";
    doubled_active = false;
    doubled_trailing_stop_set = false;
    doubled_has_broker_tp = false;
    level_trigger_counts = [];
    session_paused = false;
    session_realized_pnl = nought;
    session_unrealized_pnl = nought;
    close_all_pending = false;
    close_all_in_progress = false;
    close_reason = "";
    session_active = true;
    next_id = next_id;
    clock = clock;
  }

  -- `_restart_session`
  unfoldable pub restart_session : Grid F → Grid F
  restart_session s = record s {
    anchor_price = none;
    levels_above = [];
    levels_below = [];
    signal_queue = [];
    placed_levels = [];
    placed_limit_side = [];
    filled_levels = [];
    filled_entry_prices = [];
    pair_closed_sides = [];
    doubled_level = none;
    doubled_side = "";
    doubled_grid_key = "";
    doubled_active = false;
    doubled_trailing_stop_set = false;
    doubled_has_broker_tp = false;
    level_trigger_counts = [];
    session_paused = false;
    session_realized_pnl = nought;
    session_unrealized_pnl = nought;
    close_all_pending = false;
    close_all_in_progress = false;
  }

  -- `_flat_close_all`
  unfoldable pub flat_close_all : BarData F → String → Grid F → Signal F × Grid F
  flat_close_all bar reason s = (
    record {
      id = s.next_id;
      timestamp = s.clock;
      symbol = bar.symbol;
      signal_type = SignalType.flat;
      strategy_name = strategy_name;
      strength = f.of_nat 1;
      metadata = ("action", "close_all") ∷ ("reason", reason) ∷ [];
      stop_loss = none;
      take_profit = none;
    },
    record s { next_id = s.next_id + 1 },
  )

module _ {F : Type 0} where
  -- `_trigger_close_all`
  unfoldable pub trigger_close_all : String → Grid F → Grid F
  trigger_close_all reason s = record s { close_reason = reason; close_all_in_progress = true }

  -- `update_unrealized_pnl`
  unfoldable pub update_unrealized_pnl : F → Grid F → Grid F
  update_unrealized_pnl pnl s = record s { session_unrealized_pnl = pnl }

  -- `notify_trailing_stop_set`
  unfoldable pub notify_trailing_stop_set : Grid F → Grid F
  notify_trailing_stop_set s = record s { doubled_trailing_stop_set = true }

  -- `release_level`
  unfoldable pub release_level : F → Grid F → Bool × Grid F
  release_level level s = (false, s)

-- `notify_close_all_complete`
unfoldable pub notify_close_all_complete : {F : Type 0} ⦃f : Float F⦄ → Grid F → Grid F
notify_close_all_complete s =
    let s1 = record s { close_all_in_progress = false } in
    if s1.session_paused
    then record s1 { session_active = false }
    else if s1.session_active
    then restart_session s1
    else s1
