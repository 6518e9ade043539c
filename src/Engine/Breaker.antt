-- ===== src/Engine/Breaker.antt =====
-- The circuit breaker of the closing of all trades, against a broker that goes on reporting open
-- trades: `Q` holds of such a broker under all calls.
pub mod Held
use aurex_trade.Prelude.{
  ℕ, zero, suc, ◌+◌, ◌≤◌, ◌<◌, String, ◌≡◌, refl, Bool, true, false, List, [], ◌∷◌, length, leb,
  arith, Bool-cases, inl, inr,
}
use native.Mathlib.Decide.{dec_lt}
use aurex_trade.Prelude.Float.{Float, Format}
use aurex_trade.Prelude.Action.{◌>>=◌}
use aurex_trade.Engine.Ports.{BrokerPort, StrategyPort}
use aurex_trade.Engine.State.{Engine}
use aurex_trade.Engine.CloseAll.{close_all_trades, is_waiting, liquidate}
use aurex_trade.Engine.Breaker.Held.{GoesOn, IsHeld, liquidate-IsHeld}

module _ {F S B R : Type 0} ⦃f : Float F⦄ ⦃w : Format F⦄ ⦃s : StrategyPort F S⦄
    ⦃b : BrokerPort F B⦄ where
  abbrev pub at_time : ℕ → Engine F S B R → Engine F S B R
  at_time time e = record e { clock = time }

  -- one request at each of the times
  abbrev pub requests : String → List ℕ → Engine F S B R → Engine F S B R
  requests reason [] e = e
  requests reason (t ∷ ts) e = requests reason ts (close_all_trades reason (at_time t e)).1

  -- Each request comes when the wait after the last failure is over.
  abbrev pub AreDue : String → List ℕ → Engine F S B R → Type 0
  AreDue reason [] e = Unit
  AreDue reason (t ∷ ts) e =
      (is_waiting (at_time t e) ≡ false)
      × AreDue reason ts (close_all_trades reason (at_time t e)).1

  -- While the broker goes on reporting open trades, a request to close them all that is due, with fewer
  -- than five failures before, counts one failure more; the strategy is told nothing, the trades stay
  -- mapped, and no session is recorded as ended, whether the broker raises or not.
  pub close_all_trades-unconfirmed :
      (Q : B → Type 0) (reason : String) (e : Engine F S B R)
      → GoesOn F Q
      → Q e.broker
      → e.close_all_failed_count < 5
      → is_waiting e ≡ false
      → IsHeld Q e (e.close_all_failed_count + 1) (close_all_trades reason e).1
  unfolding close_all_trades ◌>>=◌
  close_all_trades-unconfirmed Q reason e on h few due =
      rw (under few, due)
        (liquidate-IsHeld on reason e (record {
          broker_ok = h;
          strategy_same = refl;
          map_same = refl;
          history_same = refl;
          failures = refl;
        }))
    where
      under : e.close_all_failed_count < 5 → leb 5 e.close_all_failed_count ≡ false
      under g = ground (arith, g)

  -- After five failures a request stops the engine, and does nothing else.
  pub close_all_trades-tripped :
      (reason : String) (e : Engine F S B R)
      → 5 ≤ e.close_all_failed_count
      → (close_all_trades reason e).1 ≡ record e { running = false }
  unfolding close_all_trades ◌>>=◌
  close_all_trades-tripped reason e many = rw (over many) refl
    where
      over : 5 ≤ e.close_all_failed_count → leb 5 e.close_all_failed_count ≡ true
      over g = ground (arith, g)

  -- One request goes on with such a broker, and comes nearer to the limit.
  progress :
      (Q : B → Type 0) (reason : String) (e : Engine F S B R) (n : ℕ)
      → GoesOn F Q
      → Q e.broker
      → is_waiting e ≡ false
      → 5 ≤ e.close_all_failed_count + suc n
      → Q (close_all_trades reason e).1.broker
        × (5 ≤ (close_all_trades reason e).1.close_all_failed_count + n)
  progress Q reason e n on h due enough = elim (dec_lt e.close_all_failed_count 5) [
    | yes few ↦
        let k = close_all_trades-unconfirmed Q reason e on h few due in
        (k.broker_ok, omega (arith, k.failures))
    | no many ↦ rw (close_all_trades-tripped reason e (omega arith)) (h, omega arith)
  ]

  -- While the broker goes on reporting open trades, requests that each come when the wait before them
  -- is over stop the engine in the end: six of them from no failure, and fewer after earlier failures.
  pub requests-stop :
      (Q : B → Type 0) (reason : String) (t : ℕ) (ts : List ℕ) (e : Engine F S B R)
      → GoesOn F Q
      → Q e.broker
      → 5 ≤ e.close_all_failed_count + length ts
      → AreDue reason (t ∷ ts) e
      → (requests reason (t ∷ ts) e).running ≡ false
  requests-stop Q reason t [] e on h enough due =
      rw (close_all_trades-tripped reason (at_time t e) (omega arith)) refl
  requests-stop Q reason t (u ∷ us) e on h enough due =
      let (g, more) = progress Q reason (at_time t e) (length us) on h due.0 enough in
      requests-stop Q reason u us (close_all_trades reason (at_time t e)).1 on g more due.1
