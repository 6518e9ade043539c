-- ===== src/Risk/Sizing.antt =====
-- How `calculate_position_size` of domain/risk/engine.py is bounded.
use aurex_trade.Prelude.{
  ◌≡◌, ◌⊎◌, refl, Bool, true, false, none, some, arith, if◌then◌else◌, Option-cases, Bool-cases,
  inl, inr,
}
use aurex_trade.Prelude.Float.{Float, IsOrdered, ◌⊖◌, ◌⊗◌, ◌⊘◌, nought, eq, abs, min, ◌≼◌}
use aurex_trade.Domain.Models.{Signal, AccountState}
use aurex_trade.Risk.{RiskEngine, calculate_position_size}

module _ {F : Type 0} ⦃f : Float F⦄ (laws : IsOrdered F) where
  capped-le :
      (b : Bool) (units top : F) → nought ≼ top → (if b then nought else min units top) ≼ top
  capped-le true units top h = h
  capped-le false units top h = ground (arith, laws.lt-eq-not-le top units, laws.le_refl top)

  min-le_left : (units top : F) → min units top ≼ units
  min-le_left units top =
      ground (arith, laws.lt-eq-not-le top units, laws.le_refl units, laws.le_total units top)

  sized :
      (r : RiskEngine F) (s : Signal F) (account : AccountState F) (entry stop : F)
      → s.stop_loss ≡ some stop
      → calculate_position_size r s account entry ≡ (
          if eq (abs (entry ⊖ stop)) nought
          then nought
          else min
              ((account.equity ⊗ r.risk_per_trade) ⊘ abs (entry ⊖ stop))
              (f.of_nat r.max_position_size))
  unfolding calculate_position_size
  sized r s account entry stop e = rw (e, calculate_position_size) refl

  -- Of floats with the laws of their order, the size is never above the maximum. It is zero
  -- without a stop-loss and with one at the entry price; with any other stop-loss it is not above
  -- what loses the fraction `risk_per_trade` of the equity at the stop.
  pub calculate_position_size-bound :
      (r : RiskEngine F) (s : Signal F) (account : AccountState F) (entry : F)
      → let size = calculate_position_size r s account entry in
        (size ≼ f.of_nat r.max_position_size)
        × (((s.stop_loss ≡ none) × (size ≡ nought))
            ⊎ ((stop : F) × (s.stop_loss ≡ some stop)
                × (((eq (abs (entry ⊖ stop)) nought ≡ true) × (size ≡ nought))
                    ⊎ ((eq (abs (entry ⊖ stop)) nought ≡ false)
                        × (size ≼ (account.equity ⊗ r.risk_per_trade) ⊘ abs (entry ⊖ stop))))))
  unfolding calculate_position_size
  calculate_position_size-bound r s account entry =
      let top = f.of_nat r.max_position_size in
      let least : nought ≼ top = laws.of_nat_mono 0 r.max_position_size (omega arith) in
      elim (Option-cases s.stop_loss) [
        | inl e ↦ rw (e, calculate_position_size) (least, inl (refl, refl))
        | inr (stop, e) ↦
            let distance = abs (entry ⊖ stop) in
            let units = (account.equity ⊗ r.risk_per_trade) ⊘ distance in
            rw (sized r s account entry stop e) (
              capped-le (eq distance nought) units top least,
              inr (
                stop,
                e,
                elim (Bool-cases (eq distance nought)) [
                  | inl z ↦ inl (z, rw z refl)
                  | inr z ↦ inr (z, rw z (min-le_left units top))
                ],
              ),
            )
      ]
