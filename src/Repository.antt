-- ===== src/Repository.antt =====
-- The repository of the local mode, src/aurex_trade/adapters/memory/repository.py. Times are seconds,
-- and the UTC date of a time is the number of whole days in it.
pub mod Users
use aurex_trade.Prelude.{
  ℕ, ◌/◌, String, str_eq, Bool, Option, List, [], ◌∷◌, ◌++◌, ◌&&◌, ◌==◌, length, filter, map,
}
use aurex_trade.Prelude.Dict.{Dict, lookup, insert}
use aurex_trade.Domain.Models.{Signal, RiskDecision, Trade, Position}

pub record InMemory (F : Type 0) : Type 0 where
  pub signals : List (String × Signal F)
  pub decisions : List (String × RiskDecision)
  pub trades : List (String × Trade F)
  pub positions : Dict (String × String) (Position F)

-- equality of the keys `(user_id, symbol)`
abbrev pub key_eq : String × String → String × String → Bool
key_eq (u, s) (v, t) = str_eq u v && str_eq s t

abbrev pub date : ℕ → ℕ
date time = time / 86400

module _ {F : Type 0} where
  pub empty_repository : InMemory F
  empty_repository = record { signals = []; decisions = []; trades = []; positions = [] }

  unfoldable signal_count : InMemory F → ℕ
  signal_count r = length r.signals

  unfoldable decision_count : InMemory F → ℕ
  decision_count r = length r.decisions

  unfoldable trade_count : InMemory F → ℕ
  trade_count r = length r.trades

  unfoldable save_signal : String → Signal F → InMemory F → InMemory F
  save_signal user_id signal r = record r { signals = r.signals ++ ((user_id, signal) ∷ []) }

  unfoldable save_decision : String → RiskDecision → InMemory F → InMemory F
  save_decision user_id decision r = record r {
    decisions = r.decisions ++ ((user_id, decision) ∷ []);
  }

  pub save_trade : String → Trade F → InMemory F → InMemory F
  save_trade user_id trade r = record r { trades = r.trades ++ ((user_id, trade) ∷ []) }

  pub save_position : String → Position F → InMemory F → InMemory F
  save_position user_id position r = record r {
    positions = insert key_eq (user_id, position.symbol) position r.positions;
  }

  -- the test of the comprehension in `get_trades_today`
  pub is_todays : ℕ → String → String → String × Trade F → Bool
  is_todays now user_id symbol (uid, t) =
      str_eq uid user_id && str_eq t.symbol symbol && (date t.timestamp == date now)

  pub get_trades_today : ℕ → String → String → InMemory F → List (Trade F)
  get_trades_today now user_id symbol r =
      map (λ e. e.1) (filter (is_todays now user_id symbol) r.trades)

  pub get_current_position : String → String → InMemory F → Option (Position F)
  get_current_position user_id symbol r = lookup key_eq (user_id, symbol) r.positions
