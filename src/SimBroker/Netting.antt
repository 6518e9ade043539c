-- ===== src/SimBroker/Netting.antt =====
-- The net position of a symbol (`_update_position` of adapters/backtest/broker.py).
use aurex_trade.Prelude.{
  ◌≡◌, refl, ap, String, str_eq, eq_iff, true, false, none, some, arith, if◌then◌else◌, ◌⊎◌, inl,
  inr, Bool-cases,
}
use aurex_trade.Prelude.Float.{Float, ◌⊕◌, ◌⊖◌, nought, lt, eq, round}
use aurex_trade.Prelude.Dict.{lookup, lookup-insert}
use aurex_trade.Domain.Enums.{OrderSide}
use aurex_trade.Domain.Models.{Position}
use aurex_trade.SimBroker.State.{Broker}
use aurex_trade.SimBroker.Position.{
  Netting, net, net_buy, net_sell, realize, position_or, netted_position, update_position,
}

module _ {F : Type 0} ⦃f : Float F⦄ where
  -- The fill is against the position: a buy against a short one, or a sell against a long one.
  abbrev pub Reduces : OrderSide → F → Type 0
  Reduces OrderSide.buy qty = lt qty nought ≡ true
  Reduces OrderSide.sell qty = lt nought qty ≡ true

  -- the quantity after a fill
  abbrev pub filled_qty : OrderSide → F → F → F
  filled_qty OrderSide.buy qty quantity = qty ⊕ quantity
  filled_qty OrderSide.sell qty quantity = qty ⊖ quantity

  -- The position of a fill that nets to zero is worth nothing and has no cost.
  abbrev pub IsFlat : Position F → Type 0
  IsFlat p =
      (p.average_cost ≡ round 5 nought)
      × (p.market_value ≡ round 2 nought)
      × (p.unrealized_pnl ≡ round 2 nought)

  net-avg :
      (side : OrderSide) (qty cost quantity price : F)
      → let n = net side qty cost quantity price in eq n.new_qty nought ≡ true → n.new_avg ≡ nought
  unfolding net net_buy net_sell
  net-avg OrderSide.buy qty cost quantity price h = rw h
  net-avg OrderSide.sell qty cost quantity price h = rw h

  net-qty :
      (side : OrderSide) (qty cost quantity price : F)
      → (net side qty cost quantity price).new_qty ≡ filled_qty side qty quantity
  unfolding net net_buy net_sell
  net-qty OrderSide.buy qty cost quantity price = refl
  net-qty OrderSide.sell qty cost quantity price = refl

  net-pnl :
      (side : OrderSide) (qty cost quantity price : F)
      → Reduces side qty ⊎ ((net side qty cost quantity price).pnl ≡ none)
  unfolding net net_buy net_sell
  net-pnl OrderSide.buy qty cost quantity price = ground arith
  net-pnl OrderSide.sell qty cost quantity price = ground arith

  netted_position-IsFlat :
      (symbol : String) (n : Netting F) (price realized : F)
      → (eq n.new_qty nought ≡ true → n.new_avg ≡ nought)
      → (eq n.new_qty nought ≡ false) ⊎ IsFlat (netted_position 5 symbol n price realized)
  unfolding netted_position
  netted_position-IsFlat symbol n price realized flat = elim (Bool-cases (eq n.new_qty nought)) [
    | inl h ↦ inr (ap (round 5) (flat h), rw h, rw h)
    | inr h ↦ inl h
  ]

  module _ {R : Type 0} where
    -- A fill writes the position of its symbol, and no other one. The new quantity is the old one plus
    -- what was bought or minus what was sold, counted from zero where there was no position. A position
    -- that ends at zero has average cost zero, market value zero and nothing unrealized. Unless the
    -- fill is against the position it realizes nothing: the capital stays, and the realized profit
    -- stays but for its rounding to cents.
    pub update_position_lem :
        (symbol other : String) (side : OrderSide) (quantity price : F) (b : Broker F R)
        → let (qty, cost, realized) = position_or (lookup str_eq symbol b.positions) in
          let b' = update_position symbol side quantity price b in
          (p : Position F) × (lookup str_eq other b'.positions
            ≡ (if str_eq other symbol then some p else lookup str_eq other b.positions))
          × (p.quantity ≡ filled_qty side qty quantity)
          × ((eq p.quantity nought ≡ false) ⊎ IsFlat p)
          × (Reduces side qty ⊎ ((b'.capital ≡ b.capital) × (p.realized_pnl ≡ round 2 realized)))
    unfolding update_position netted_position
    update_position_lem symbol other side quantity price b =
        let (qty, cost, realized) = position_or (lookup str_eq symbol b.positions) in
        let n = net side qty cost quantity price in
        (
          netted_position 5 symbol n price (realize n.pnl realized),
          lookup-insert str_eq eq_iff other symbol _ b.positions,
          net-qty side qty cost quantity price,
          netted_position-IsFlat symbol n price (realize n.pnl realized)
              (net-avg side qty cost quantity price),
          elim (net-pnl side qty cost quantity price) [
            | inl against ↦ inl against
            | inr opens ↦ inr (
              ap (λ pnl. realize pnl b.capital) opens,
              ap (λ pnl. round 2 (realize pnl realized)) opens,
            )
          ],
        )
