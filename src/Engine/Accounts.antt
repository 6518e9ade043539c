-- ===== src/Engine/Accounts.antt =====
-- What the engine does with the balance of the account.
use aurex_trade.Prelude.{
  ℕ, ◌+◌, ◌≡◌, refl, false, some, leb, ◌==◌, if◌then◌else◌, Bool-cases, inl, inr, ap,
}
use aurex_trade.Prelude.Float.{Float, IsOrdered, nought, ◌⊖◌}
use aurex_trade.Prelude.Action.{Action, ◌>>=◌}
use aurex_trade.Engine.Ports.{StrategyPort}
use aurex_trade.Engine.State.{Engine, day_of}
use aurex_trade.Engine.Cycle.{anchor_balance, report_realized, push_realized_pnl}

module _ {F S B R : Type 0} where
  -- what a cycle without a readable account leaves behind, from `e` to `d`
  abbrev pub HasSkipped : Engine F S B R → Engine F S B R → Type 0
  HasSkipped e d =
      (d.strategy ≡ e.strategy)
      × (d.balance_read_failures ≡ e.balance_read_failures + 1)
      × (d.running ≡ (if leb 3 (e.balance_read_failures + 1) then false else e.running))

module _ {F S B R : Type 0} ⦃f : Float F⦄ ⦃s : StrategyPort F S⦄ where
  -- Of floats with the laws of their order: with anchors for the session and for the day, the strategy
  -- is told how far the balance is from both, where a day that has changed since the last reading starts
  -- from the new balance, so that it is told no profit for it; the balance and the day are kept.
  pub push_realized_pnl-deltas :
      IsOrdered F
      → (balance session_start day_start : F) (day : ℕ) (e : Engine F S B R)
      → e.session_start_balance ≡ some session_start
      → e.day_start_balance ≡ some day_start
      → e.balance_day ≡ some day
      → ((push_realized_pnl balance e).1.strategy
          ≡ s.set_realized_pnl
              (balance ⊖ session_start)
              (if day == day_of e.clock then balance ⊖ day_start else nought)
              e.strategy)
        × ((push_realized_pnl balance e).1.last_balance ≡ some balance)
        × ((push_realized_pnl balance e).1.balance_day ≡ some (day_of e.clock))
        × ((push_realized_pnl balance e).1.session_start_balance ≡ some session_start)
  unfolding push_realized_pnl anchor_balance report_realized ◌>>=◌
  push_realized_pnl-deltas laws balance session_start day_start day e h1 h2 h3 =
      elim (Bool-cases (day == day_of e.clock)) [
        | inl g ↦ rw (h1, h2, h3, g) (refl, refl, refl, refl)
        | inr g ↦
            rw (h1, h2, h3, g)
              (
                ap (λ (x : F). s.set_realized_pnl (balance ⊖ session_start) x e.strategy)
                    (laws.sub_self balance),
                refl,
                refl,
                refl,
              )
      ]
