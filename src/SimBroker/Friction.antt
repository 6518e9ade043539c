-- ===== src/SimBroker/Friction.antt =====
-- Fill prices of adapters/backtest/broker.py: no fill is better than the price it starts from.
use aurex_trade.Prelude.{◌≡◌, some, arith}
use aurex_trade.Prelude.Float.{Float, IsOrdered, nought, ◌≼◌, ◌⊕◌, ◌⊖◌, ◌⊘◌, round, min, max}
use aurex_trade.Domain.Enums.{OrderSide}
use aurex_trade.Domain.Models.{BarData}
use aurex_trade.SimBroker.State.{Rng, PendingEntry, OpenTrade, Broker, apply_friction}
use aurex_trade.SimBroker.Orders.{book_close, opposite}
use aurex_trade.SimBroker.Bar.{stop_base, entry_base, close_stopped, fill_entry}

-- A price is no better than another one for who trades on this side.
abbrev pub NoBetter : {F : Type 0} ⦃f : Float F⦄ → OrderSide → F → F → Type 0
NoBetter OrderSide.buy price base = base ≼ price
NoBetter OrderSide.sell price base = price ≼ base

-- The documented behaviour of `random.uniform`: it stays within its arguments.
abbrev pub DrawsWithin : {F R : Type 0} ⦃f : Float F⦄ → Rng F R → Type 0
DrawsWithin {F} {R} g = (a b : F) (r : R) → a ≼ b → a ≼ (g.uniform a b r).0

module _ {F R : Type 0} ⦃f : Float F⦄ ⦃g : Rng F R⦄ (laws : IsOrdered F)
    (draws : DrawsWithin g) where
  open laws use {le_refl, le_trans, lt-eq-not-le, le_total, le-add, sub-le, half_nonneg, round_mono}

  -- Of floats with the laws of their order, and draws within their bounds: with a spread and a
  -- slippage that are not negative, friction only worsens a price: a buy pays at least the base
  -- price, and a sell gets at most the base price, both rounded to five digits.
  pub apply_friction-NoBetter :
      (side : OrderSide) (base : F) (b : Broker F R)
      → nought ≼ b.spread
      → nought ≼ b.slippage
      → NoBetter side (apply_friction side base b).0 (round 5 base)
  unfolding apply_friction
  apply_friction-NoBetter OrderSide.buy base b hs hl =
      let half = b.spread ⊘ f.of_nat 2 in
      let slip = (g.uniform nought b.slippage b.rng).0 in
      round_mono 5 _ _ (
        le_trans _ _ _ (le-add base half (half_nonneg _ hs))
          (le-add (base ⊕ half) slip (draws _ _ b.rng hl)))
  apply_friction-NoBetter OrderSide.sell base b hs hl =
      let half = b.spread ⊘ f.of_nat 2 in
      let slip = (g.uniform nought b.slippage b.rng).0 in
      round_mono 5 _ _ (
        le_trans _ _ _ (sub-le (base ⊖ half) slip (draws _ _ b.rng hl))
          (sub-le base half (half_nonneg _ hs)))

  min-le_left : (x y : F) → min x y ≼ x
  min-le_left x y = ground (arith, le_refl x, lt-eq-not-le y x, le_total x y)

  le-max_left : (x y : F) → x ≼ max x y
  le-max_left x y = ground (arith, le_refl x, lt-eq-not-le x y, le_total y x)

  -- Friction on a price that is itself no better than a target.
  apply_friction-NoBetter_of :
      (side : OrderSide) (base target : F) (b : Broker F R)
      → NoBetter side base target
      → nought ≼ b.spread
      → nought ≼ b.slippage
      → NoBetter side (apply_friction side base b).0 (round 5 target)
  apply_friction-NoBetter_of OrderSide.buy base target b h hs hl =
      le_trans _ _ _ (round_mono 5 _ _ h) (apply_friction-NoBetter OrderSide.buy base b hs hl)
  apply_friction-NoBetter_of OrderSide.sell base target b h hs hl =
      le_trans _ _ _ (apply_friction-NoBetter OrderSide.sell base b hs hl) (round_mono 5 _ _ h)

  stop_base-NoBetter :
      (bar : BarData F) (t : OpenTrade F) (stop : F)
      → t.stop_loss ≡ some stop
      → NoBetter (opposite t.side) (stop_base bar t) stop
  unfolding stop_base
  stop_base-NoBetter bar t stop e =
      ground (arith, min-le_left stop bar.open_price, le-max_left stop bar.open_price)

  entry_base-NoBetter :
      (bar : BarData F) (p : PendingEntry F) → NoBetter p.side (entry_base bar p) p.limit_price
  unfolding entry_base
  entry_base-NoBetter bar p = ground (
    arith,
    le_refl p.limit_price,
    min-le_left p.limit_price bar.open_price,
    le-max_left p.limit_price bar.open_price,
  )

  -- Of floats with the laws of their order, and draws within their bounds: with a spread and a
  -- slippage that are not negative, the exit of a trade with a stop-loss is never better than the
  -- stop price, rounded to five digits, also when the bar opens beyond it.
  pub close_stopped-NoBetter :
      (bar : BarData F) (t : OpenTrade F) (stop : F) (b : Broker F R)
      → t.stop_loss ≡ some stop
      → nought ≼ b.spread
      → nought ≼ b.slippage
      → NoBetter (opposite t.side) (close_stopped bar t b).0.close_price (round 5 stop)
  unfolding close_stopped book_close
  close_stopped-NoBetter bar t stop b e hs hl =
      apply_friction-NoBetter_of (opposite t.side) (stop_base bar t) stop b
        (stop_base-NoBetter bar t stop e) hs hl

  -- Of floats with the laws of their order, and draws within their bounds: with a spread and a
  -- slippage that are not negative, a resting entry never fills better than its own price, rounded
  -- to five digits, be it a limit or a stop order.
  pub fill_entry-NoBetter :
      (bar : BarData F) (p : PendingEntry F) (b : Broker F R)
      → nought ≼ b.spread
      → nought ≼ b.slippage
      → NoBetter p.side (fill_entry bar p b).0.open_price (round 5 p.limit_price)
  unfolding fill_entry
  fill_entry-NoBetter bar p b hs hl =
      apply_friction-NoBetter_of p.side (entry_base bar p) p.limit_price b
        (entry_base-NoBetter bar p) hs hl
