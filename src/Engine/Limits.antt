-- ===== src/Engine/Limits.antt =====
-- What the settings of the risk engine mean for the orders that the trading engine places.
use aurex_trade.Prelude.{
  ℕ, str_eq, ◌≡◌, refl, true, false, Option, List, All, arith, Option-cases, inl, inr,
}
use aurex_trade.Prelude.Float.{Float, Format, Math, IsOrdered, ◌≼◌}
use aurex_trade.Prelude.Dict.{lookup}
use aurex_trade.Prelude.Action.Keeps.{Keeps, Gives, Gives-bind, Gives-gets, Keeps-modify}
use aurex_trade.Domain.Models.{Order, Signal, AccountState, Position, Trade}
use aurex_trade.Risk.{RiskEngine, evaluate}
use aurex_trade.Engine.Ports.{BrokerPort, StrategyPort, RepositoryPort}
use aurex_trade.Engine.State.{Engine, capped, read_float, non_empty}
use aurex_trade.Engine.Opposite.{opposite_order}
use aurex_trade.Engine.Signals.{build_order, quantity_of, decision_of, is_approved}
use aurex_trade.Engine.Cycle.{run_strategy_cycle}
use aurex_trade.Engine.Loop.{Tick, run}
use aurex_trade.Engine.Guarded.{
  BrokerKeeps, IsGuarded, IsGuarded-same, guarded_rules, read_optional-IsGuarded,
}
use aurex_trade.Engine.Guarded.Opposite.{LegsAllowed}
use aurex_trade.Engine.Guarded.Cycles.{run_strategy_cycle-IsGuarded}
use aurex_trade.Engine.Guarded.Runs.{KeptBetween, run-IsGuarded}

-- An order within the limit on the size of a position.
abbrev pub IsWithin : {F : Type 0} ⦃f : Float F⦄ → RiskEngine F → Order F → Type 0
IsWithin ⦃f⦄ r o = o.quantity ≼ f.of_nat r.max_position_size

abbrev pub NoOrder : {F : Type 0} → Order F → Type 0
NoOrder o = ⊥

module _ {F : Type 0} ⦃f : Float F⦄ (laws : IsOrdered F) where
  capped_le :
      (r : RiskEngine F) (q : F) → r.enabled ≡ true → capped r q ≼ f.of_nat r.max_position_size
  unfolding capped
  capped_le r q on = ground (
    arith,
    laws.lt-eq-not-le (f.of_nat r.max_position_size) q,
    laws.le_refl (f.of_nat r.max_position_size),
  )

module _ {F S B R : Type 0} ⦃f : Float F⦄ ⦃w : Format F⦄ {r : RiskEngine F} {P : B → Type 0} where
  pub quantity_of-IsGuarded :
      (sig : Signal F) (account : AccountState F) (close : F)
      → Keeps (IsGuarded F S B R r P) (quantity_of sig account close)
  unfolding quantity_of read_float
  quantity_of-IsGuarded sig account close =
      elim (Option-cases (non_empty (lookup str_eq "fixed_units" sig.metadata))) [
        | inl e ↦ rw (e, quantity_of) (search guarded_rules)
        | inr (text, e) ↦ rw (e, quantity_of) (search guarded_rules)
      ]

  build_order-IsWithin :
      IsOrdered F
      → (sig : Signal F) (account : AccountState F) (close : F) → r.enabled ≡ true
      → Gives (IsGuarded F S B R r P) (IsWithin r) (build_order sig account close)
  unfolding build_order
  build_order-IsWithin laws sig account close on =
      Gives-bind _ _ (quantity_of-IsGuarded sig account close) λ q.
        Gives-bind _ _ (read_optional-IsGuarded _) λ price.
          Gives-bind _ _ (read_optional-IsGuarded _) λ distance.
            Gives-bind _ _ (Keeps-modify _ (λ e h. IsGuarded-same e _ refl refl h))
              λ u. Gives-gets _ λ e h. rw h.settings (capped_le laws r q on)

legs-IsWithin :
    {F S B R : Type 0} ⦃f : Float F⦄ (r : RiskEngine F)
    → IsOrdered F
    → r.enabled ≡ true
    → LegsAllowed F S B R r (IsWithin r)
unfolding opposite_order
legs-IsWithin r laws on leg (q, e) id d = rw e (capped_le laws r q on)

module _ {F S B R : Type 0} ⦃f : Float F⦄ ⦃w : Format F⦄ ⦃m : Math F⦄ ⦃s : StrategyPort F S⦄
    ⦃b : BrokerPort F B⦄ ⦃rp : RepositoryPort F R⦄ where
  -- Of floats with the laws of their order, and with the risk engine enabled: what the broker keeps
  -- under all calls but orders, and under orders of at most the greatest position size, and what it
  -- keeps by itself between the rounds of the loop, it keeps over a whole run of the engine, whatever
  -- the strategy, the prices, the times and the broker's answers, exceptions included.
  pub run-within_limits :
      IsOrdered F
      → (P : B → Type 0) (limit : Option ℕ) (ts : List (Tick B R)) (e : Engine F S B R)
      → e.risk_engine.enabled ≡ true
      → BrokerKeeps P (IsWithin e.risk_engine)
      → All (KeptBetween P) ts
      → P e.broker
      → P (run limit ts e).1.broker
  run-within_limits laws P limit ts e on keeps between h =
      ((run-IsGuarded keeps (legs-IsWithin e.risk_engine laws on)
          (λ sig position trades account close d g approved.
            build_order-IsWithin laws sig account close on)
          limit ts between).at
        e (record { settings = refl; broker_ok = h })).broker_ok

  decision-kill_switch :
      (sig : Signal F) (position : Option (Position F)) (trades : List (Trade F))
      (account : AccountState F) (e : Engine F S B R)
      → e.risk_engine.enabled ≡ true
      → e.risk_engine.kill_switch ≡ true
      → is_approved (decision_of sig position trades account e).action ≡ false
  unfolding decision_of evaluate
  decision-kill_switch sig position trades account e on killed = ground arith

  -- With the risk engine enabled and the kill switch on, a strategy cycle places no order: what the
  -- broker keeps under all calls but orders, it keeps over the cycle, whatever the strategy does.
  pub run_strategy_cycle-kill_switch :
      (P : B → Type 0) (e : Engine F S B R)
      → e.risk_engine.enabled ≡ true
      → e.risk_engine.kill_switch ≡ true
      → BrokerKeeps P (NoOrder {F = F})
      → P e.broker
      → P (run_strategy_cycle e).1.broker
  run_strategy_cycle-kill_switch P e on killed keeps h =
      ((run_strategy_cycle-IsGuarded keeps (λ o none_allowed. absurd none_allowed)
          (λ sig position trades account close d g approved.
            absurd (no_approval sig position trades account d g approved))).at
        e (record { settings = refl; broker_ok = h })).broker_ok
    where
      no_approval :
          (sig : Signal F) (position : Option (Position F)) (trades : List (Trade F))
          (account : AccountState F) (d : Engine F S B R)
          → IsGuarded F S B R e.risk_engine P d
          → is_approved (decision_of sig position trades account d).action ≡ true
          → ⊥
      no_approval sig position trades account d g approved = cc (
          decision-kill_switch sig position trades account d (rw g.settings on)
            (rw g.settings killed))
