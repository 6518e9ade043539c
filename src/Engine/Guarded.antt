-- ===== src/Engine/Guarded.antt =====
-- What the engine does to its broker: a property `P` of the broker that all calls but `place_order`
-- keep, and that `place_order` keeps for the orders that are `Allowed`. The engine's settings `r` of the
-- risk engine never change.
pub mod Opposite
pub mod Polling
pub mod Closing
pub mod Trading
pub mod Cycles
pub mod Runs
use aurex_trade.Prelude.{ℕ, String, ◌≡◌, inl, inr, Option, some, Option-cases}
use aurex_trade.Prelude.Float.{Format}
use aurex_trade.Prelude.Action.{Action, Nothing}
use aurex_trade.Prelude.Action.Keeps.{Keeps, keeps_rules}
use aurex_trade.Domain.Models.{Order}
use aurex_trade.Risk.{RiskEngine}
use aurex_trade.Engine.Ports.{BrokerPort, StrategyPort, AccountSummary}
use aurex_trade.Engine.State.{
  Engine, ask_broker, ask_services, ask_strategy, tell, log_event, mark_trade, record_ledger,
  count_trade, release_key, fresh_id, read_float, read_optional, non_empty,
}

-- the calls of the broker that keep `P`
pub record BrokerKeeps {F B : Type 0} ⦃b : BrokerPort F B⦄ (P : B → Type 0)
    (Allowed : Order F → Type 0) : Type 0 where
  pub equity : Keeps P b.equity
  pub place_order : (o : Order F) → Allowed o → Keeps P (b.place_order o)
  pub get_positions : (symbol : String) → Keeps P (b.get_positions symbol)
  pub get_open_trades : (symbol : String) → Keeps P (b.get_open_trades symbol)
  pub get_pending_orders : (symbol : String) → Keeps P (b.get_pending_orders symbol)
  pub cancel_all_orders : (symbol : String) → Keeps P (b.cancel_all_orders symbol)
  pub cancel_pending_order : (id : ℕ) → Keeps P (b.cancel_pending_order id)
  pub close_trade : (id : ℕ) → Keeps P (b.close_trade id)
  pub set_trailing_stop : (id : ℕ) (distance : F) → Keeps P (b.set_trailing_stop id distance)
  pub get_account_summary :
      (read : Action B (AccountSummary F)) → b.get_account_summary ≡ some read → Keeps P read

pub record IsGuarded (F S B R : Type 0) (r : RiskEngine F) (P : B → Type 0) (e : Engine F S B R)
    : Type 0 where
  pub settings : e.risk_engine ≡ r
  pub broker_ok : P e.broker

module _ {F S B R : Type 0} {r : RiskEngine F} {P : B → Type 0} where
  pub ask_broker-IsGuarded :
      {A : Type 0} (m : Action B A) → Keeps P m → Keeps (IsGuarded F S B R r P) (ask_broker m)
  unfolding ask_broker
  ask_broker-IsGuarded m k = record {
    at = λ e h. record { settings = h.settings; broker_ok = k.at e.broker h.broker_ok };
  }

  pub ask_services-IsGuarded :
      {A : Type 0} (m : Action R A) → Keeps (IsGuarded F S B R r P) (ask_services m)
  unfolding ask_services
  ask_services-IsGuarded m = record {
    at = λ e h. record { settings = h.settings; broker_ok = h.broker_ok };
  }

  pub ask_strategy-IsGuarded :
      {A : Type 0} (m : Action S A) → Keeps (IsGuarded F S B R r P) (ask_strategy m)
  unfolding ask_strategy
  ask_strategy-IsGuarded m = record {
    at = λ e h. record { settings = h.settings; broker_ok = h.broker_ok };
  }

  pub fresh_id-IsGuarded : Keeps (IsGuarded F S B R r P) fresh_id
  unfolding fresh_id
  fresh_id-IsGuarded = record {
    at = λ e h. record { settings = h.settings; broker_ok = h.broker_ok };
  }

  -- A change of other fields.
  pub IsGuarded-same :
      (e d : Engine F S B R)
      → d.risk_engine ≡ e.risk_engine
      → d.broker ≡ e.broker
      → IsGuarded F S B R r P e
      → IsGuarded F S B R r P d
  IsGuarded-same e d p q h = record { settings = rw p h.settings; broker_ok = rw q h.broker_ok }

  pub tell-IsGuarded : (g : S → S) → Keeps (IsGuarded F S B R r P) (tell g)
  unfolding tell
  tell-IsGuarded g = search (keeps_rules, IsGuarded-same)

  pub log_event-IsGuarded :
      (event details : String) → Keeps (IsGuarded F S B R r P) (log_event event details)
  unfolding log_event
  log_event-IsGuarded event details = search (keeps_rules, IsGuarded-same)

  pub mark_trade-IsGuarded :
      (price : F) (side : String) (quantity : F) (stop target : Option F) (id : ℕ)
      → Keeps (IsGuarded F S B R r P) (mark_trade price side quantity stop target id)
  unfolding mark_trade
  mark_trade-IsGuarded price side quantity stop target id = search (keeps_rules, IsGuarded-same)

  pub record_ledger-IsGuarded :
      (kind : String) (pnl : Option F) (basis key : String) (id : ℕ)
      → Keeps (IsGuarded F S B R r P) (record_ledger kind pnl basis key id)
  unfolding record_ledger
  record_ledger-IsGuarded kind pnl basis key id = search (keeps_rules, IsGuarded-same)

  pub count_trade-IsGuarded : Keeps (IsGuarded F S B R r P) count_trade
  unfolding count_trade
  count_trade-IsGuarded = search (keeps_rules, IsGuarded-same)

  pub release_key-IsGuarded :
      ⦃w : Format F⦄ ⦃s : StrategyPort F S⦄ (key : String)
      → Keeps (IsGuarded F S B R r P) (release_key key)
  unfolding release_key
  release_key-IsGuarded key = search tell-IsGuarded

  pub read_float-IsGuarded :
      ⦃w : Format F⦄ (text : String) → Keeps (IsGuarded F S B R r P) (read_float text)
  unfolding read_float
  read_float-IsGuarded text = search keeps_rules

  pub read_optional-IsGuarded :
      ⦃w : Format F⦄ (text : Option String) → Keeps (IsGuarded F S B R r P) (read_optional text)
  unfolding read_optional
  read_optional-IsGuarded text = elim (Option-cases (non_empty text)) [
    | inl e ↦ rw (e, read_optional) (search keeps_rules)
    | inr (t, e) ↦ rw (e, read_optional) (search (keeps_rules, read_float-IsGuarded))
  ]

pub ruleset guarded_rules = (
  keeps_rules, IsGuarded-same, ask_broker-IsGuarded, ask_services-IsGuarded, ask_strategy-IsGuarded,
  fresh_id-IsGuarded, tell-IsGuarded, log_event-IsGuarded, mark_trade-IsGuarded,
  record_ledger-IsGuarded, count_trade-IsGuarded, release_key-IsGuarded, read_float-IsGuarded,
  read_optional-IsGuarded,
)
