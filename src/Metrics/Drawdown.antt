-- ===== src/Metrics/Drawdown.antt =====
-- `_max_drawdown` of metrics.py is the largest drop of the equity curve.
use aurex_trade.Prelude.{◌≡◌, ◌∙◌, ap, refl, List, [], ◌∷◌, ◌++◌, ◌⊎◌, inl, inr, arith}
use aurex_trade.Prelude.Float.{Float, IsOrdered, ◌⊖◌, nought, ◌≼◌}
use aurex_trade.Metrics.{drawdown_step, drawdown_loop, max_drawdown}

module _ {F : Type 0} ⦃f : Float F⦄ where
  abbrev pub Occurs : F → List F → Type 0
  Occurs x xs = (before : List F) × (after : List F) × (xs ≡ before ++ (x ∷ after))

  -- The value `drop` is the fall from a value of the curve to itself or a later one.
  abbrev pub IsDrop : List F → F → Type 0
  IsDrop curve drop =
      (before : List F) × (rest : List F) × (high : F) × (low : F) × (curve
        ≡ before ++ (high ∷ rest))
      × Occurs low (high ∷ rest)
      × (drop ≡ high ⊖ low)

  -- Where the loop can have got its largest drop from, when it starts at a peak and a drop.
  abbrev Reached : List F → F → F → F → Type 0
  Reached curve peak dd result =
      (result ≡ dd) ⊎ (((low : F) × Occurs low curve × (result ≡ peak ⊖ low)) ⊎ IsDrop curve result)

  Occurs-cons : (x y : F) (xs : List F) → Occurs x xs → Occurs x (y ∷ xs)
  Occurs-cons x y xs (before, after, e) = (y ∷ before, after, ap (◌∷◌ y) e)

  IsDrop-cons : (y drop : F) (xs : List F) → IsDrop xs drop → IsDrop (y ∷ xs) drop
  IsDrop-cons y drop xs (before, rest, high, low, e, o, d) =
      (y ∷ before, rest, high, low, ap (◌∷◌ y) e, o, d)

  -- After a step that raises the peak, the peak is the value itself.
  raised-Reached :
      (equity peak dd result : F) (curve : List F)
      → Reached curve equity (equity ⊖ equity) result
      → Reached (equity ∷ curve) peak dd result
  raised-Reached equity peak dd result curve (inl e) =
      inr (inr ([], curve, equity, equity, refl, ([], curve, refl), e))
  raised-Reached equity peak dd result curve (inr (inl (low, o, e))) =
      inr (inr ([], curve, equity, low, refl, Occurs-cons low equity curve o, e))
  raised-Reached equity peak dd result curve (inr (inr h)) =
      inr (inr (IsDrop-cons equity result curve h))

  kept-Reached :
      (equity peak dd dd' result : F) (curve : List F)
      → (dd' ≡ dd) ⊎ (dd' ≡ peak ⊖ equity)
      → Reached curve peak dd' result
      → Reached (equity ∷ curve) peak dd result
  kept-Reached equity peak dd dd' result curve (inl k) (inl e) = inl (e ∙ k)
  kept-Reached equity peak dd dd' result curve (inr k) (inl e) =
      inr (inl (equity, ([], curve, refl), e ∙ k))
  kept-Reached equity peak dd dd' result curve k (inr (inl (low, o, e))) =
      inr (inl (low, Occurs-cons low equity curve o, e))
  kept-Reached equity peak dd dd' result curve k (inr (inr h)) =
      inr (inr (IsDrop-cons equity result curve h))

  raised-kept-Reached :
      (equity peak dd result : F) (curve : List F)
      → Reached curve equity dd result
      → Reached (equity ∷ curve) peak dd result
  raised-kept-Reached equity peak dd result curve (inl e) = inl e
  raised-kept-Reached equity peak dd result curve (inr h) =
      raised-Reached equity peak dd result curve (inr h)

  step-Reached :
      (equity peak dd pct result : F) (curve : List F)
      → let acc = drawdown_step equity (peak, dd, pct) in
        Reached curve acc.0 acc.1 result → Reached (equity ∷ curve) peak dd result
  unfolding drawdown_step
  step-Reached equity peak dd pct result curve h = ground (
    arith,
    raised-Reached equity peak dd result curve,
    raised-kept-Reached equity peak dd result curve,
    kept-Reached equity peak dd dd result curve (inl refl),
    kept-Reached equity peak dd (peak ⊖ equity) result curve (inr refl),
  )

  loop-Reached :
      (curve : List F) (peak dd pct : F)
      → Reached curve peak dd (drawdown_loop curve (peak, dd, pct)).1
  unfolding drawdown_loop
  loop-Reached [] peak dd pct = inl refl
  loop-Reached (equity ∷ curve) peak dd pct =
      let acc = drawdown_step equity (peak, dd, pct) in
      step-Reached equity peak dd pct _ curve (loop-Reached curve acc.0 acc.1 acc.2)

  module _ (laws : IsOrdered F) where
    -- A step raises the peak and the drop to what they have to be at this value.
    step-bounds :
        (equity peak dd pct : F)
        → let acc = drawdown_step equity (peak, dd, pct) in
          (peak ≼ acc.0) × (equity ≼ acc.0) × (dd ≼ acc.1) × (acc.0 ⊖ equity ≼ acc.1)
    unfolding drawdown_step
    step-bounds equity peak dd pct = ground (
      arith,
      laws.le_refl peak,
      laws.le_refl equity,
      laws.le_refl dd,
      laws.lt-eq-not-le peak equity,
      laws.le_total equity peak,
      laws.le_total peak equity,
      laws.lt-eq-not-le dd (peak ⊖ equity),
      laws.lt-eq-not-le dd (equity ⊖ equity),
      laws.le_total (peak ⊖ equity) dd,
      laws.le_total (equity ⊖ equity) dd,
      laws.le_refl (peak ⊖ equity),
      laws.le_refl (equity ⊖ equity),
    )

    abbrev worst : List F → F → F → F → F
    worst curve peak dd pct = (drawdown_loop curve (peak, dd, pct)).1

    loop-keeps : (curve : List F) (peak dd pct : F) → dd ≼ worst curve peak dd pct
    unfolding drawdown_loop
    loop-keeps [] peak dd pct = laws.le_refl dd
    loop-keeps (equity ∷ curve) peak dd pct =
        let acc = drawdown_step equity (peak, dd, pct) in
        laws.le_trans dd acc.1 _ (step-bounds equity peak dd pct).2
          (loop-keeps curve acc.0 acc.1 acc.2)

    -- A drop from a value that the peak has reached is no larger than the result.
    loop-peak :
        (between after : List F) (low x peak dd pct : F)
        → x ≼ peak
        → x ⊖ low ≼ worst (between ++ (low ∷ after)) peak dd pct
    unfolding drawdown_loop
    loop-peak [] after low x peak dd pct h =
        let acc = drawdown_step low (peak, dd, pct) in
        let b = step-bounds low peak dd pct in
        laws.le_trans (x ⊖ low) acc.1 _
          (laws.le_trans (x ⊖ low) (acc.0 ⊖ low) acc.1
            (laws.sub_mono x acc.0 low (laws.le_trans x peak acc.0 h b.0)) b.3)
          (loop-keeps after acc.0 acc.1 acc.2)
    loop-peak (y ∷ between) after low x peak dd pct h =
        let acc = drawdown_step y (peak, dd, pct) in
        loop-peak between after low x acc.0 acc.1 acc.2
          (laws.le_trans x peak acc.0 h (step-bounds y peak dd pct).0)

    -- A fall from a value that the loop comes by
    loop-drop :
        (before rest : List F) (high low peak dd pct : F)
        → Occurs low (high ∷ rest)
        → high ⊖ low ≼ worst (before ++ (high ∷ rest)) peak dd pct
    unfolding drawdown_loop
    loop-drop [] rest high low peak dd pct ([], after, e) =
        let acc = drawdown_step high (peak, dd, pct) in
        let b = step-bounds high peak dd pct in
        let same : low ≡ high = cc in
        rw same (
          laws.le_trans (high ⊖ high) acc.1 _
            (laws.le_trans (high ⊖ high) (acc.0 ⊖ high) acc.1 (laws.sub_mono high acc.0 high b.1)
              b.3)
            (loop-keeps rest acc.0 acc.1 acc.2))
    loop-drop [] rest high low peak dd pct (y ∷ between, after, e) =
        let acc = drawdown_step high (peak, dd, pct) in
        let later : rest ≡ between ++ (low ∷ after) = cc in
        rw later
          (loop-peak between after low high acc.0 acc.1 acc.2 (step-bounds high peak dd pct).1)
    loop-drop (y ∷ before) rest high low peak dd pct o =
        let acc = drawdown_step y (peak, dd, pct) in
        loop-drop before rest high low acc.0 acc.1 acc.2 o

    -- The same for a curve whose first value is the peak to start with
    first-drop :
        (before rest curve : List F) (equity high low : F)
        → equity ∷ curve ≡ before ++ (high ∷ rest)
        → Occurs low (high ∷ rest)
        → high ⊖ low ≼ worst curve equity nought nought
    first-drop [] rest curve equity high low e ([], after, o) =
        let same : low ≡ high = cc in
        rw (same, laws.sub_self high) (loop-keeps curve equity nought nought)
    first-drop [] rest curve equity high low e (y ∷ between, after, o) =
        let later : curve ≡ between ++ (low ∷ after) = cc in
        let first : equity ≡ high = cc in
        rw (later, first) (loop-peak between after low high high nought nought (laws.le_refl high))
    first-drop (y ∷ before) rest curve equity high low e o =
        let later : curve ≡ before ++ (high ∷ rest) = cc in
        rw later (loop-drop before rest high low equity nought nought o)

    first-Reached :
        (equity result : F) (curve : List F)
        → Reached curve equity nought result
        → (result ≡ nought) ⊎ IsDrop (equity ∷ curve) result
    first-Reached equity result curve (inl e) = inl e
    first-Reached equity result curve (inr (inl (low, o, e))) =
        inr ([], curve, equity, low, refl, Occurs-cons low equity curve o, e)
    first-Reached equity result curve (inr (inr h)) = inr (IsDrop-cons equity result curve h)

    -- Of floats with the laws of their order, the maximum drawdown of a curve is no smaller than
    -- any given fall from a value of the curve to itself or a later one, and it is such a fall
    -- itself, or zero.
    pub max_drawdown-IsGreatest :
        (curve : List F) (drop : F)
        → IsDrop curve drop
        → (drop ≼ (max_drawdown curve).0)
          × (((max_drawdown curve).0 ≡ nought) ⊎ IsDrop curve (max_drawdown curve).0)
    unfolding max_drawdown
    max_drawdown-IsGreatest [] drop ([], rest, high, low, e, o, d) = cc
    max_drawdown-IsGreatest [] drop (y ∷ before, rest, high, low, e, o, d) = cc
    max_drawdown-IsGreatest (equity ∷ curve) drop (before, rest, high, low, e, o, d) = (
      rw d (first-drop before rest curve equity high low e o),
      first-Reached equity _ curve (loop-Reached curve equity nought nought),
    )
